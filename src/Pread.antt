-- ===== src/Pread.antt =====
-- The loop around `pread` by which the sources read a stretch of a file. `pread` is a parameter: what
-- it answers to the call at a time, for a number of bytes and an offset. The files do not change.
pub mod Fill
use qwen3_8_flash_next.Base.{
  ℕ, zero, suc, ◌+◌, ◌-◌, ◌≤◌, ◌≡◌, ◌≢◌, Bool, true, false, List, [], ◌∷◌, ◌++◌, ltb, length, add64,
}

-- -1 with EINTR, -1 with another `errno`, or the bytes that are now in the buffer.
pub data Answer : Type 0 where
  interrupted : Answer
  refused : ℕ → Answer
  bytes : List ℕ → Answer

abbrev pub Pread : Type 0
Pread = ℕ → ℕ → ℕ → Answer

-- How the loop ends: with the bytes, the time and the calls that read some; with an `errno`; at the
-- end of the file; or out of fuel.
pub data Filled : Type 0 where
  filled : List ℕ → ℕ → ℕ → Filled
  failed : ℕ → Filled
  ended unfinished : Filled

-- `while (off < len)`, with `got` the bytes so far. Offsets wrap as a `uint64_t`.
unfoldable pub fill : Pread → ℕ → ℕ → ℕ → ℕ → List ℕ → ℕ → Filled
fill pread zero time at len got calls = unfinished
fill pread (suc fuel) time at len got calls = elim (ltb (length got) len) [
  | false ↦ filled got time calls
  | true ↦ elim (pread time (len - length got) (add64 at (length got))) [
    | interrupted ↦ fill pread fuel (time + 1) at len got calls
    | refused e ↦ failed e
    | bytes read ↦ elim read [
      | [] ↦ ended
      | b ∷ more ↦ fill pread fuel (time + 1) at len (got ++ b ∷ more) (calls + 1)
    ]
  ]
]
