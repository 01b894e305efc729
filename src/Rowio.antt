-- ===== src/Rowio.antt =====
-- native/rowio.c: `read_rows`, which reads rows of a tensor for Python. `pread`, malloc, qsort and
-- the conversion of a Python number are parameters.
pub mod Offset
pub mod Runs
pub mod Blocks
pub mod Outcome
mod Tests
use qwen3_8_flash_next.Base.{
  ℕ, zero, suc, ◌+◌, ◌-◌, ◌*◌, ◌/◌, ◌^◌, ℤ, Sign, minus, nought, plus, pos, negsuc, Bool, true,
  false, ◌&&◌, ◌||◌, not, ◌⊎◌, inl, inr, Option, none, some, List, [], ◌∷◌, ◌==◌, ltb, leb,
  if◌then◌else◌, length, add64, sub64, mul64, word,
}
use qwen3_8_flash_next.Gather.{put_row}
use qwen3_8_flash_next.Pread.{Pread, Filled, filled, failed, ended, unfinished, fill}

-- LLONG_MAX and PY_SSIZE_T_MAX
abbrev pub long_max : ℕ
long_max = 2 ^ 63 - 1

pub record RowRequest : Type 0 where
  pub row : ℕ
  pub output_index : ℕ

unfoldable pub compare_rows : RowRequest → RowRequest → Sign
compare_rows a b =
    if ltb a.row b.row
    then minus
    else if ltb b.row a.row
    then plus
    else if ltb a.output_index b.output_index
    then minus
    else if ltb b.output_index a.output_index
    then plus
    else nought

unfoldable pub checked_offset : ℕ → ℕ → ℕ → Option ℕ
checked_offset base row row_bytes =
    let relative = mul64 row row_bytes in
    let result = add64 base relative in
    if not (row == 0) && ltb ((word - 1) / row) row_bytes
    then none
    else if ltb (word - 1 - relative) base
    then none
    else if leb result long_max
    then some result
    else none

-- Why Python gets no rows. `os_error` has the `errno` of a call, `short` and `too_far` stand for EIO
-- and EOVERFLOW. `no_output` is the
-- exception that is set when no bytes object could be made. `overrun` is a read into the block that is larger than the block.
pub data Failure : Type 0 where
  negative_row_bytes too_many_rows too_large not_a_number large_number outside_shape : Failure
  no_memory no_output short too_far overrun unending : Failure
  os_error : ℕ → Failure

unfoldable pub read_fully : Pread → ℕ → ℕ → ℕ → ℕ → ℕ → Filled ⊎ Failure
unfolding fill
read_fully pread rounds time len offset calls =
    if not (len == 0) && ltb (sub64 long_max (sub64 len 1)) offset
    then inr too_far
    else inl (fill pread rounds time offset len [] calls)

-- `PyLong_AsLongLongAndOverflow`: `overflow` is set, an exception is, or neither.
pub data Converted : Type 0 where
  overflowed raised : Converted
  value : ℤ → Converted

-- The request for an item, or the error.
unfoldable pub request_of : ℕ → ℕ → Converted → RowRequest ⊎ Failure
request_of total_rows i overflowed = inr large_number
request_of total_rows i raised = inr not_a_number
request_of total_rows i (value (negsuc n)) = inr outside_shape
request_of total_rows i (value (pos n)) =
    if leb total_rows n then inr outside_shape else inl (record { row = n; output_index = i })

-- `for (i = 0; i < count; ++i)` over the items.
unfoldable pub requests_from :
    {A : Type 0} → (A → Converted) → ℕ → ℕ → List A → List RowRequest ⊎ Failure
unfolding request_of
requests_from convert total_rows i [] = inl []
requests_from convert total_rows i (item ∷ items) = elim (request_of total_rows i (convert item)) [
  | inr e ↦ inr e
  | inl request ↦ elim (requests_from convert total_rows (i + 1) items) [
    | inr e ↦ inr e
    | inl requests ↦ inl (request ∷ requests)
  ]
]

-- `sorted`
unfoldable pub is_sorted : List RowRequest → Bool
is_sorted [] = true
is_sorted (a ∷ []) = true
is_sorted (a ∷ b ∷ requests) = not (ltb b.row a.row) && is_sorted (b ∷ requests)

-- Does the row follow the one before it in a block?
abbrev pub follows : RowRequest → RowRequest → Bool
follows before a = a.row == before.row || a.row == before.row + 1

-- The requests from `start + 1` up to `end`, and those from `end` on.
unfoldable pub split_run : RowRequest → List RowRequest → List RowRequest × List RowRequest
split_run before [] = ([], [])
split_run before (a ∷ requests) =
    let (run, rest) = split_run a requests in
    if follows before a then (a ∷ run, rest) else ([], a ∷ requests)

-- `for (i = start + 1; i < end; ++i)`, which counts rows that differ from the one before.
unfoldable pub unique_from : RowRequest → List RowRequest → ℕ → ℕ
unique_from before [] unique_rows = unique_rows
unique_from before (a ∷ run) unique_rows =
    unique_from a run (if a.row == before.row then unique_rows else unique_rows + 1)

-- The first loop over the runs, with fuel for each request.
unfoldable pub max_block_from : ℕ → ℕ → List RowRequest → ℕ → Option ℕ
unfolding split_run unique_from
max_block_from zero row_bytes requests max_block_size = some max_block_size
max_block_from (suc left) row_bytes [] max_block_size = some max_block_size
max_block_from (suc left) row_bytes (a ∷ requests) max_block_size =
    let (run, rest) = split_run a requests in
    let unique_rows = unique_from a run 1 in
    let block_size = mul64 unique_rows row_bytes in
    let more =
      max_block_from left row_bytes rest
        (if ltb max_block_size block_size then block_size else max_block_size) in
    if not (row_bytes == 0) && ltb ((word - 1) / row_bytes) unique_rows then none else more

-- `for (i = start; i < end; ++i)`
unfoldable pub scatter : ℕ → ℕ → List ℕ → List RowRequest → (ℕ → ℕ) → ℕ → ℕ
unfolding put_row
scatter row_bytes start_row block [] out = out
scatter row_bytes start_row block (a ∷ run) out =
    scatter row_bytes start_row block run
      (put_row (λ r. r.row) (λ r. r.output_index) row_bytes start_row block out a)

-- What Python gets: the bytes, the calls and the bytes read.
pub data Rows : Type 0 where
  rows_read : (ℕ → ℕ) → ℕ → ℕ → Rows
  no_rows : Rows
  failure : Failure → Rows

-- What a read leaves: the block, the time and the calls.
pub data Block : Type 0 where
  block : List ℕ → ℕ → ℕ → Block
  broken : Failure → Block

abbrev pub block_of : Filled → Block
block_of (filled bytes time calls) = block bytes time calls
block_of (failed e) = broken (os_error e)
block_of ended = broken short
block_of unfinished = broken unending

abbrev pub block_or : Filled ⊎ Failure → Block
block_or (inl f) = block_of f
block_or (inr e) = broken e

abbrev pub enomem : ℕ
enomem = 12

-- `PyErr_NoMemory` for ENOMEM, and an OSError for any other `read_errno`.
abbrev pub reported : Rows → Rows
reported (failure (os_error e)) = if e == enomem then failure no_memory else failure (os_error e)
reported rows = rows

module _ (pread : Pread) (rounds base row_bytes : ℕ) where
  -- The read of a block of `block_size` bytes into `room` bytes.
  unfoldable pub read_block : ℕ → ℕ → ℕ → ℕ → ℕ → Block
  unfolding read_fully
  read_block room block_size offset time calls =
      if row_bytes == 0
      then block [] time (calls + 1)
      else if ltb room block_size
      then broken overrun
      else block_or (read_fully pread rounds time block_size offset calls)

  -- `while (start < count)`, with a unit of fuel for each request.
  unfoldable pub read_blocks : ℕ → ℕ → List RowRequest → ℕ → ℕ → ℕ → (ℕ → ℕ) → Rows
  unfolding split_run unique_from checked_offset read_block scatter
  read_blocks zero room requests time calls total out = failure unending
  read_blocks (suc left) room [] time calls total out = rows_read out calls total
  read_blocks (suc left) room (a ∷ requests) time calls total out =
      let (run, rest) = split_run a requests in
      let block_size = mul64 (unique_from a run 1) row_bytes in
      elim (checked_offset base a.row row_bytes) [
        | none ↦ failure too_far
        | some offset ↦ elim (read_block room block_size offset time calls) [
          | broken e ↦ failure e
          | block bytes time' calls' ↦
              read_blocks left room rest time' calls' (add64 total block_size)
                (scatter row_bytes a.row bytes (a ∷ run) out)
        ]
      ]

  -- From the sorted requests on; `output` is the fresh memory of the result.
  unfoldable pub read_sorted : (ℕ → Bool) → (ℕ → ℕ) → List RowRequest → Rows
  unfolding max_block_from read_blocks
  read_sorted allocates output requests =
      elim (max_block_from (length requests) row_bytes requests 0) [
        | none ↦ failure too_large
        | some max_block_size ↦
            if not (allocates (length requests * row_bytes))
            then failure no_output
            else if not (allocates (if max_block_size == 0 then 1 else max_block_size))
            then failure no_memory
            else reported (read_blocks (suc (length requests)) max_block_size requests 0 0 0 output)
      ]

-- `read_rows`, from the parsed arguments on: `items` are the elements of `rows`.
module _ {A : Type 0} (convert : A → Converted) (qsort : List RowRequest → List RowRequest)
    (pread : Pread) (rounds : ℕ) where
  unfoldable pub read_items : ℕ → ℕ → List A → ℕ → (ℕ → Bool) → (ℕ → ℕ) → Rows
  unfolding requests_from is_sorted read_sorted
  read_items base row_bytes items total_rows allocates output =
      if ltb (long_max / length items) row_bytes
      then failure too_large
      else if not (allocates (length items * 16))
      then failure no_memory
      else elim (requests_from convert total_rows 0 items) [
        | inr e ↦ failure e
        | inl requests ↦
            read_sorted pread rounds base row_bytes allocates output
              (if is_sorted requests then requests else qsort requests)
      ]

  unfoldable pub read_rows : ℕ → ℤ → List A → ℕ → (ℕ → Bool) → (ℕ → ℕ) → Rows
  unfolding read_items
  read_rows base (negsuc n) items total_rows allocates output = failure negative_row_bytes
  read_rows base (pos row_bytes) items total_rows allocates output =
      if ltb long_max total_rows
      then failure too_many_rows
      else if length items == 0
      then no_rows
      else read_items base row_bytes items total_rows allocates output
