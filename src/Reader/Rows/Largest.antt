-- ===== src/Reader/Rows/Largest.antt =====
-- The first loop over the runs of c/src/reader.c finds the largest.
use qwen3_8_flash_next.Base.{
  ℕ, zero, suc, ◌-◌, ◌≤◌, arith, List, [], ◌∷◌, ltb, if◌then◌else◌, length, mul64,
}
use qwen3_8_flash_next.Reader.Rows.Order.{row}
use qwen3_8_flash_next.Reader.Rows.{run_from, max_run_from}

abbrev larger : ℕ → ℕ → ℕ
larger m n = if ltb m n then n else m

-- `max_run` is no less than each run.
pub max_run-ge :
    (left : ℕ) (rows : List ℕ) (row_bytes : ℕ) (order : List ℕ) (m : ℕ)
    → m ≤ max_run_from left rows row_bytes order m
unfolding max_run_from
max_run-ge zero rows row_bytes order m = omega arith
max_run-ge (suc left) rows row_bytes [] m = omega arith
max_run-ge (suc left) rows row_bytes (o ∷ order) m =
    let bytes =
      mul64 ((run_from (suc (length order)) rows (o ∷ order) (row rows o)).1 - row rows o)
        row_bytes in
    let step : m ≤ larger m bytes = ground arith in
    let rest =
      max_run-ge left rows row_bytes (run_from (suc (length order)) rows (o ∷ order) (row rows o)).0
        (larger m bytes) in
    omega (arith, step, rest)

pub max_run-step :
    (left : ℕ) (rows : List ℕ) (row_bytes o : ℕ) (order : List ℕ) (m room : ℕ)
    → max_run_from (suc left) rows row_bytes (o ∷ order) m ≤ room
    → (m' : ℕ) × (mul64
          ((run_from (suc (length order)) rows (o ∷ order) (row rows o)).1 - row rows o)
          row_bytes
        ≤ m')
      × (max_run_from left rows row_bytes
            (run_from (suc (length order)) rows (o ∷ order) (row rows o)).0
            m'
          ≤ room)
unfolding max_run_from
max_run-step left rows row_bytes o order m room le = (
  larger m (
      mul64 ((run_from (suc (length order)) rows (o ∷ order) (row rows o)).1 - row rows o)
        row_bytes),
  ground arith,
  le,
)
