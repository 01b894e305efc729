-- ===== src/Probe.antt =====
-- Linear probing over a table whose size is a power of two, as c/src/cache.c (find_slot,
-- remove_from_table, grow_table, cache_put) and c/src/tokenizer.c (vmap_*, mmap_*) do it. An
-- array of pointers or of slots is a function from its index; `none` is the null pointer or a
-- slot with `used` unset. A loop has fuel; `none` is a run that has not ended.
pub mod Walk
pub mod Find
pub mod Insert
pub mod Rehash
pub mod Empty
pub mod Circle
pub mod Line
pub mod Backshift
pub mod Remove
mod Tests
use qwen3_8_flash_next.Base.{
  ℕ, zero, suc, ◌+◌, ◌-◌, ◌%◌, ◌≤◌, ◌<◌, bit_and, Bool, true, false, Option, none, some, ◌==◌,
  if◌then◌else◌, ◌≡◌, ltb, ◌||◌, word,
}

abbrev pub Slots {ℓ} : Type ℓ → Type ℓ
Slots E = ℕ → Option E

-- A masked index: `x & (nslots - 1)`.
abbrev pub masked : ℕ → ℕ → ℕ
masked n x = bit_and x (n - 1)

abbrev pub next : ℕ → ℕ → ℕ
next n i = masked n (i + 1)

-- `(b - a) & (nslots - 1)` on `size_t`.
abbrev pub circular : ℕ → ℕ → ℕ → ℕ
circular n a b = masked n ((b + word - a) % word)

-- The test of `remove_from_table`: may the entry at `j` with home `h` go to the hole `i`?
unfoldable pub can_move : ℕ → ℕ → ℕ → ℕ → Bool
can_move n i j h =
    let dist_ij = circular n i j in
    let dist_ih = circular n i h in dist_ih == 0 || ltb dist_ij dist_ih

module _ {ℓ} {E : Type ℓ} where
  -- `slots[i] = v`
  unfoldable pub put_at : Slots E → ℕ → Option E → Slots E
  put_at s i v j = if i == j then v else s j

  -- `while (slots[i] && !stop(slots[i])) i = (i + 1) & (nslots - 1);`: the index at the end.
  unfoldable pub probe : (E → Bool) → ℕ → Slots E → ℕ → ℕ → Option ℕ
  probe stop zero s n i = none
  probe stop (suc fuel) s n i =
      let rest = probe stop fuel s n (next n i) in
      elim (s i) [ none ↦ some i | some e ↦ if stop e then some i else rest ]

  -- The entry on which a search stops, or null.
  unfoldable pub find : (E → Bool) → ℕ → Slots E → ℕ → Option E
  unfolding probe
  find stop h s n = elim (probe stop n s n (masked n h)) [ none ↦ none | some i ↦ s i ]

  -- The scan of `remove_from_table` behind the hole `i`: an entry at `j` moves into the hole
  -- unless its home lies strictly inside the circular range from `i` to `j`.
  unfoldable pub backshift : (E → ℕ) → ℕ → Slots E → ℕ → ℕ → ℕ → Option (Slots E)
  unfolding put_at can_move
  backshift home zero s n i j = none
  backshift home (suc fuel) s n i j =
      let kept = backshift home fuel s n i (next n j) in
      let moved = backshift home fuel (put_at (put_at s i (s j)) j none) n j (next n j) in
      elim (s j) [
        | none ↦ some s
        | some e ↦ if can_move n i j (masked n (home e)) then moved else kept
      ]

  -- `remove_from_table`: find the entry, empty its slot, and shift what lies behind.
  unfoldable pub remove : (E → ℕ) → (E → Bool) → ℕ → Slots E → ℕ → Option (Slots E)
  unfolding probe put_at backshift
  remove home is_it h s n = elim (probe is_it n s n (masked n h)) [
    | none ↦ none
    | some i ↦ elim (s i) [
      | none ↦ some s
      | some e ↦ backshift home n (put_at s i none) n i (next n i)
    ]
  ]

  -- One round of the loop of `grow_table`: an entry goes to the first free slot from its home.
  unfoldable pub reinsert : (E → ℕ) → Slots E → ℕ → E → Option (Slots E)
  unfolding probe put_at
  reinsert home s n e = elim (probe (λ _. false) n s n (masked n (home e))) [
    | none ↦ none
    | some j ↦ some (put_at s j (some e))
  ]

  -- `for (i = 0; i < nslots; i++)` over the old table; the counter is the rounds left.
  unfoldable pub rehash_from : (E → ℕ) → ℕ → ℕ → Slots E → Slots E → ℕ → Option (Slots E)
  unfolding reinsert
  rehash_from home zero i old s n = some s
  rehash_from home (suc left) i old s n = elim (old i) [
    | none ↦ rehash_from home left (i + 1) old s n
    | some e ↦ elim (reinsert home s n e) [
      | none ↦ none
      | some s' ↦ rehash_from home left (i + 1) old s' n
    ]
  ]
