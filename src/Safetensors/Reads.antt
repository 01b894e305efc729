-- ===== src/Safetensors/Reads.antt =====
-- The reads of c/src/safetensors.c: of a whole tensor, and of its rows.
mod Tests
use native.Mathlib.Nat.{div-add-mod, mul_comm}
use qwen3_8_flash_next.Base.{
  ℕ, zero, suc, ◌+◌, ◌-◌, ◌*◌, ◌/◌, ◌%◌, ◌≤◌, ◌<◌, ◌≡◌, refl, sym, ap, ◌∙◌, subst, arith, Bool,
  true, false, Option, none, some, List, [], ◌∷◌, ◌==◌, ltb, leb, if◌then◌else◌, length, map, add64,
  word, ℤ, pos, negsuc, All, Any, Bool-cases, inl, inr, ◌⊎◌,
}
use qwen3_8_flash_next.Pread.Fill.{
  content, length-content, Reads, IsCalm, Refuses, RunsOut, Fills, fill_start-Fills,
}
use qwen3_8_flash_next.Pread.{Pread, Filled, filled, failed, ended, unfinished, fill}
use qwen3_8_flash_next.Gather.Right.{mul_le}
use qwen3_8_flash_next.Reader.Rows.Outcome.{Outcome, read_rows_impl-Outcome}
use qwen3_8_flash_next.Reader.Rows.{Status, done, error, short, no_memory, overflow, read_rows_impl}
use qwen3_8_flash_next.Safetensors.{
  Tensor, Stats, TensorRead, tensor_read, not_read, unending, st_read_tensor, checked_rows,
  RowsAnswer, rows_zero, rows_refused, job_failed, answer, st_read_rows,
}

-- A row that the tensor does not have.
abbrev pub IsOutside : ℕ → ℤ → Type 0
IsOutside first (negsuc r) = Unit
IsOutside first (pos r) = first ≤ r

-- The rows that were checked, or one of them is not there.
abbrev Checks : ℕ → List ℤ → Option (List ℕ) → Type 0
Checks first rows none = Any (IsOutside first) rows
Checks first rows (some checked) = (rows ≡ map pos checked) × All (λ r. r < first) checked

checked_rows-Checks : (first : ℕ) (rows : List ℤ) → Checks first rows (checked_rows first rows)
unfolding checked_rows
checked_rows-Checks first [] = (refl, tt)
checked_rows-Checks first (negsuc r ∷ rows) = inl tt
checked_rows-Checks first (pos r ∷ rows) =
    go (checked_rows first rows) (checked_rows-Checks first rows)
  where
    go :
        (c : Option (List ℕ))
        → Checks first rows c
        → Checks first (pos r ∷ rows) (elim c [
          | none ↦ none
          | some checked ↦ if leb first r then none else some (r ∷ checked)
        ])
    go none h = inr h
    go (some checked) (is, all) = elim (Bool-cases (leb first r)) [
      | inl outside ↦ rw outside (inl (ground arith))
      | inr inside ↦ rw inside (ap (λ rs. pos r ∷ rs) is, (ground arith, all))
    ]

length-map_pos : (checked : List ℕ) → length (map pos checked) ≡ length checked
length-map_pos [] = refl
length-map_pos (r ∷ checked) = ap suc (length-map_pos checked)

module _ (pread : Pread) (file : ℕ → ℕ) (reads : Reads pread file) (k : ℕ) (calm : IsCalm pread k)
    (rounds : ℕ) (t : Tensor) (inside : t.offset + t.nbytes < word) where
  -- The bytes of the tensor and their counts, or a call that was refused or read nothing.
  abbrev pub TensorReads : Stats → TensorRead → Type 0
  TensorReads stats (tensor_read bytes after) =
      (bytes ≡ content file t.offset t.nbytes)
      × (after.pread_calls ≡ add64 stats.pread_calls 1)
      × (after.bytes_read ≡ add64 stats.bytes_read (length bytes))
      × (after.rows_read ≡ stats.rows_read)
      × (after.tensors_read ≡ add64 stats.tensors_read 1)
  TensorReads stats not_read = ((e : ℕ) × Refuses pread e) ⊎ RunsOut pread
  TensorReads stats unending = ⊥

  -- Where the calls of pread read from the file at the offset, as few bytes as they like, one of
  -- any k + 1 calls is not interrupted and the tensor ends below 2 ^ 64, st_read_tensor ends:
  -- with the bytes of the tensor, and one call more, its bytes and one tensor more counted; or
  -- with -1 where a call was refused or read nothing.
  pub st_read_tensor-TensorReads :
      (stats : Stats)
      → t.nbytes * (k + 1) + k < rounds
      → TensorReads stats (st_read_tensor pread rounds t stats)
  unfolding st_read_tensor
  st_read_tensor-TensorReads stats enough =
      go (fill pread rounds 0 t.offset t.nbytes [] 0)
        (fill_start-Fills pread file reads k calm t.offset t.nbytes inside rounds 0 0 enough)
    where
      go :
          (f : Filled)
          → Fills pread file t.offset t.nbytes f
          → TensorReads stats (elim f [
            | filled bytes time calls ↦ tensor_read bytes (record stats {
              pread_calls = add64 stats.pread_calls 1;
              bytes_read = add64 stats.bytes_read t.nbytes;
              tensors_read = add64 stats.tensors_read 1;
            })
            | failed e ↦ not_read
            | ended ↦ not_read
            | unfinished ↦ unending
          ])
      go (filled bytes time calls) h = (
        h,
        refl,
        ap (add64 stats.bytes_read) (sym (ap length h ∙ length-content file t.offset t.nbytes)),
        refl,
        refl,
      )
      go (failed e) h = inl (e, h)
      go ended h = inr h
      go unfinished h = absurd h

  module _ (rows : List ℤ) (enough : length rows * t.nbytes * (k + 1) + k < rounds)
      (allocates : ℕ → Bool) (out : ℕ → ℕ) where
    -- The rows are those of the tensor, and what the job did with them.
    abbrev pub JobDone : ℕ → Status → Type 0
    JobDone first status =
        (checked : List ℕ) × (below : All (λ r. r < first) checked) × (fits : t.offset
            + first * (t.nbytes / first)
          < word)
        × (deep : length checked * (t.nbytes / first) * (k + 1) + k < rounds) × (rows
            ≡ map pos checked)
        × Outcome pread file reads k calm rounds t.offset (t.nbytes / first) checked first below
            fits deep allocates out status

    -- 0: the rows are read, and nothing else is counted. -1: the tensor has no such rows, or the
    -- job failed.
    abbrev pub RowsRead : Stats → List ℕ → RowsAnswer → Type 0
    RowsRead stats [] rows_refused = Unit
    RowsRead stats [] _ = ⊥
    RowsRead stats (first ∷ shape) rows_refused = (first ≡ 0) ⊎ Any (IsOutside first) rows
    RowsRead stats (first ∷ shape) (rows_zero after_out calls after) =
        ((total : ℕ) × JobDone first (done after_out calls total))
        × (after.rows_read ≡ add64 stats.rows_read (length rows))
        × (after.pread_calls ≡ stats.pread_calls)
        × (after.bytes_read ≡ stats.bytes_read)
        × (after.tensors_read ≡ stats.tensors_read)
    RowsRead stats (first ∷ shape) (job_failed (done after_out calls total)) = ⊥
    RowsRead stats (first ∷ shape) (job_failed status) = JobDone first status

    answer-RowsRead :
        (stats : Stats) (first : ℕ) (shape : List ℕ) (status : Status)
        → JobDone first status
        → RowsRead stats (first ∷ shape) (answer status (length rows) stats)
    answer-RowsRead stats first shape (done after_out calls total) h =
        ((total, h), refl, refl, refl, refl)
    answer-RowsRead stats first shape (error e) h = h
    answer-RowsRead stats first shape short h = h
    answer-RowsRead stats first shape no_memory h = h
    answer-RowsRead stats first shape overflow h = h
    answer-RowsRead stats first shape Status.unending h = h

    fits_lem : (first : ℕ) → t.offset + first * (t.nbytes / first) < word
    fits_lem first = omega (arith, div-add-mod t.nbytes first, inside)

    deep_lem :
        (first : ℕ) (checked : List ℕ)
        → 0 < first
        → rows ≡ map pos checked
        → length checked * (t.nbytes / first) * (k + 1) + k < rounds
    deep_lem first checked some_rows is =
        let q = t.nbytes / first in
        let same : length rows ≡ length checked = ap length is ∙ length-map_pos checked in
        let less : q ≤ t.nbytes = omega (
          arith,
          div-add-mod t.nbytes first,
          mul_le 1 first q some_rows,
          (let z : 1 * q ≡ q = omega arith in z),
        ) in
        let bytes : length checked * q ≤ length rows * t.nbytes = omega (
          arith,
          ap (λ n. n * q) same,
          mul_comm (length rows) q,
          mul_comm (length rows) t.nbytes,
          mul_le q t.nbytes (length rows) less,
        ) in
        omega (arith, enough, mul_le (length checked * q) (length rows * t.nbytes) (k + 1) bytes)

    -- Where the calls of pread read from the file at the offset, as few bytes as they like, one
    -- of any k + 1 calls is not interrupted and the tensor ends below 2 ^ 64, st_read_rows of any
    -- rows ends. It gives -1 without a job only if the tensor has no dimension, no row or not one
    -- of these rows; it gives 0 only if its job of read_rows_impl gives 0, and counts the rows
    -- and nothing else: each place of out then holds the bytes of its row within the tensor,
    -- unless pread was called more often than there are runs of rows; and it gives -1 with the
    -- status of a job that failed, whose cause is a call that was refused or read nothing, or a
    -- lack of memory.
    pub st_read_rows-RowsRead :
        (fresh : List ℕ) (stats : Stats)
        → RowsRead stats t.shape (st_read_rows pread rounds t rows allocates fresh out stats)
    unfolding st_read_rows
    st_read_rows-RowsRead fresh stats = at_shape t.shape
      where
        at_rows :
            (first : ℕ) (shape : List ℕ) (c : Option (List ℕ))
            → Checks first rows c
            → RowsRead stats (first ∷ shape) (elim c [
              | none ↦ rows_refused
              | some checked ↦
                  let status =
                    read_rows_impl pread rounds t.offset
                      (t.nbytes / first)
                      checked
                      allocates
                      fresh
                      out in
                  if first == 0 then rows_refused else answer status (length rows) stats
            ])
        at_rows first shape none h = inr h
        at_rows first shape (some checked) (is, below) = elim (Bool-cases (first == 0)) [
          | inl none_at_all ↦ rw none_at_all (inl (ground arith))
          | inr some_rows ↦
              let deep = deep_lem first checked (ground arith) is in
              rw some_rows (
                answer-RowsRead stats first shape
                  (read_rows_impl pread rounds t.offset (t.nbytes / first) checked allocates fresh
                    out)
                  (
                    checked,
                    below,
                    fits_lem first,
                    deep,
                    is,
                    read_rows_impl-Outcome pread file reads k calm rounds t.offset
                        (t.nbytes / first) checked first below (fits_lem first) deep allocates fresh
                        out,
                  ))
        ]

        at_shape :
            (shape : List ℕ)
            → RowsRead stats shape (elim shape [
              | [] ↦ rows_refused
              | first ∷ shape ↦ elim (checked_rows first rows) [
                | none ↦ rows_refused
                | some checked ↦
                    let status =
                      read_rows_impl pread rounds t.offset
                        (t.nbytes / first)
                        checked
                        allocates
                        fresh
                        out in
                    if first == 0 then rows_refused else answer status (length rows) stats
              ]
            ])
        at_shape [] = tt
        at_shape (first ∷ shape) =
            at_rows first shape (checked_rows first rows) (checked_rows-Checks first rows)
