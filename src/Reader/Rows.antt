-- ===== src/Reader/Rows.antt =====
-- `read_rows_impl` of c/src/reader.c. `rows` are not negative, as its callers see to. `pread` and
-- malloc are parameters: `allocates` tells whether there is room for so many bytes.
pub mod Order
pub mod Runs
pub mod Largest
pub mod Fill
pub mod Outcome
mod Tests
use qwen3_8_flash_next.Base.{
  ℕ, zero, suc, ◌+◌, ◌-◌, ◌*◌, Bool, true, false, List, [], ◌∷◌, ◌==◌, ltb, if◌then◌else◌, length,
  get_or, add64, mul64, drop, ◌++◌,
}
use qwen3_8_flash_next.Gather.{put_row}
use qwen3_8_flash_next.Pread.{
  Pread, interrupted, refused, bytes, Filled, filled, failed, ended, unfinished,
}

-- How it ends: with status 0, `out`, the calls and the bytes; with an `errno`; with EIO; with ENOMEM.
-- `overflow` is a read into the block that is larger than the block.
pub data Status : Type 0 where
  done : (ℕ → ℕ) → ℕ → ℕ → Status
  error : ℕ → Status
  short no_memory overflow unending : Status

-- `for (i = 0; i < nrows; i++) order[i] = i;`
unfoldable pub indices_from : ℕ → ℕ → List ℕ
indices_from zero i = []
indices_from (suc left) i = i ∷ indices_from left (i + 1)

-- What is sorted is held with its last element first, so that the walk back to the place of `key`
-- is a walk along the list.
unfoldable pub shift_in : List ℕ → ℕ → List ℕ → List ℕ
shift_in rows key [] = key ∷ []
shift_in rows key (o ∷ sorted) =
    let rest = shift_in rows key sorted in
    if ltb (get_or rows key 0) (get_or rows o 0) then o ∷ rest else key ∷ o ∷ sorted

unfoldable pub sort_onto : List ℕ → List ℕ → List ℕ → List ℕ
unfolding shift_in
sort_onto rows [] sorted = sorted
sort_onto rows (key ∷ order) sorted = sort_onto rows order (shift_in rows key sorted)

unfoldable pub forwards : List ℕ → List ℕ → List ℕ
forwards [] order = order
forwards (o ∷ sorted) order = forwards sorted (o ∷ order)

unfoldable pub sorted_order : List ℕ → List ℕ
unfolding indices_from sort_onto forwards
sorted_order rows = forwards (sort_onto rows (indices_from (length rows) 0) []) []

-- `while (k < nrows && rows[order[k]] == expect) k++;`, on what is left of `order`.
unfoldable pub skip_equal : List ℕ → ℕ → List ℕ → List ℕ
skip_equal rows expect [] = []
skip_equal rows expect (o ∷ order) =
    if get_or rows o 0 == expect then skip_equal rows expect order else o ∷ order

-- `while (j < nrows && rows[order[j]] == expect)`: what is left of `order`, and `expect`. A round
-- passes by an element.
unfoldable pub run_from : ℕ → List ℕ → List ℕ → ℕ → List ℕ × ℕ
unfolding skip_equal
run_from zero rows order expect = (order, expect)
run_from (suc left) rows [] expect = ([], expect)
run_from (suc left) rows (o ∷ order) expect =
    let rest = run_from left rows (skip_equal rows expect (o ∷ order)) (expect + 1) in
    if get_or rows o 0 == expect then rest else (o ∷ order, expect)

-- The loop that finds the largest run.
unfoldable pub max_run_from : ℕ → List ℕ → ℕ → List ℕ → ℕ → ℕ
unfolding run_from
max_run_from zero rows row_bytes order max_run = max_run
max_run_from (suc left) rows row_bytes [] max_run = max_run
max_run_from (suc left) rows row_bytes (o ∷ order) max_run =
    let start_row = get_or rows o 0 in
    let (rest, expect) = run_from (suc (length order)) rows (o ∷ order) start_row in
    let run_bytes = mul64 (expect - start_row) row_bytes in
    max_run_from left rows row_bytes rest (if ltb max_run run_bytes then run_bytes else max_run)

-- `while (r < nrows && rows[order[r]] < expect)`: `out`, and what is left of `order`.
unfoldable pub scatter : List ℕ → ℕ → ℕ → ℕ → List ℕ → List ℕ → (ℕ → ℕ) → (ℕ → ℕ) × List ℕ
unfolding put_row
scatter rows row_bytes start_row expect block [] out = (out, [])
scatter rows row_bytes start_row expect block (r ∷ order) out =
    let more =
      scatter rows row_bytes start_row expect block order
        (put_row (λ o. get_or rows o 0) (λ o. o) row_bytes start_row block out r) in
    if ltb (get_or rows r 0) expect then more else (out, r ∷ order)

-- The first bytes of the block are now these.
unfoldable pub overwrite : List ℕ → List ℕ → List ℕ
overwrite read block = read ++ drop (length read) block

-- `while (off < run_bytes)`. Each call reads to the start of `block`, whatever `off` is.
unfoldable pub fill_block : Pread → ℕ → ℕ → ℕ → ℕ → ℕ → List ℕ → ℕ → Filled
unfolding overwrite
fill_block pread zero time at run_bytes off block calls = unfinished
fill_block pread (suc left) time at run_bytes off block calls = elim (ltb off run_bytes) [
  | false ↦ filled block time calls
  | true ↦ elim (pread time (run_bytes - off) (add64 at off)) [
    | interrupted ↦ fill_block pread left (time + 1) at run_bytes off block calls
    | refused e ↦ failed e
    | bytes read ↦ elim read [
      | [] ↦ ended
      | b ∷ more ↦
          fill_block pread left (time + 1) at run_bytes (add64 off (length (b ∷ more)))
            (overwrite (b ∷ more) block) (calls + 1)
    ]
  ]
]

module _ (pread : Pread) (rounds base row_bytes : ℕ) (rows : List ℕ) where
  -- `while (i < nrows)`, with a block of `room` bytes; each loop of calls has the fuel `rounds`.
  unfoldable pub read_runs : ℕ → ℕ → List ℕ → List ℕ → ℕ → ℕ → ℕ → (ℕ → ℕ) → Status
  unfolding run_from fill_block scatter
  read_runs zero room block order time calls total out = unending
  read_runs (suc left) room block [] time calls total out = done out calls total
  read_runs (suc left) room block (o ∷ order) time calls total out =
      let start_row = get_or rows o 0 in
      let expect = (run_from (suc (length order)) rows (o ∷ order) start_row).1 in
      let run_bytes = mul64 (expect - start_row) row_bytes in
      elim (ltb room run_bytes) [
        | true ↦ overflow
        | false ↦
            elim (fill_block pread rounds time (add64 base (mul64 start_row row_bytes)) run_bytes 0
              block calls) [
                | failed e ↦ error e
                | ended ↦ short
                | unfinished ↦ unending
                | filled block' time' calls' ↦
                    let (out', rest) =
                      scatter rows row_bytes start_row expect block' (o ∷ order) out in
                    read_runs left room block' rest time' calls' (add64 total run_bytes) out'
              ]
      ]

  -- `fresh` is what the new block holds.
  unfoldable pub read_rows_impl : (ℕ → Bool) → List ℕ → (ℕ → ℕ) → Status
  unfolding sorted_order max_run_from read_runs
  read_rows_impl allocates fresh out =
      let n = length rows in
      let order = sorted_order rows in
      let max_run = max_run_from n rows row_bytes order row_bytes in
      if n == 0
      then done out 0 0
      else if row_bytes == 0
      then done out 1 0
      else if allocates (n * 8)
      then (if allocates max_run
          then read_runs (suc n) max_run fresh order 0 0 0 out
          else no_memory)
      else no_memory
