-- ===== src/Reader/Rows/Tests.antt =====
-- Runs of `read_rows_impl` on a file whose byte at each offset is twice the offset.
use qwen3_8_flash_next.Base.{
  ℕ, ◌*◌, ◌<◌, ◌≡◌, refl, sym, ap, ◌∙◌, arith, Bool, true, List, [], ◌∷◌, length, take, All,
}
use qwen3_8_flash_next.Pread.Fill.{content, length-content, Reads, IsCalm}
use qwen3_8_flash_next.Pread.{Pread, Answer, bytes}
use qwen3_8_flash_next.Reader.Rows.Outcome.{Outcome, read_rows_impl-Outcome}
use qwen3_8_flash_next.Reader.Rows.{Status, done, read_rows_impl, sorted_order}

abbrev doubles : ℕ → ℕ
doubles offset = 2 * offset

abbrev from_doubles : Pread
from_doubles time count offset = bytes (content doubles offset count)

abbrev bytes_of : Answer → List ℕ
bytes_of (bytes read) = read
bytes_of _ = []

from_doubles-Reads : Reads from_doubles doubles
from_doubles-Reads time count offset read e =
    let is : content doubles offset count ≡ read = ap bytes_of e in
    let size : length read ≡ count = sym (ap length is) ∙ length-content doubles offset count in
    (omega (arith, size), sym is ∙ ap (content doubles offset) (sym size))

from_doubles-IsCalm : IsCalm from_doubles 0
from_doubles-IsCalm time = (0, omega arith, λ count offset e. absurd (cc e))

abbrev some_rows : List ℕ
some_rows = 3 ∷ 1 ∷ 1 ∷ 2 ∷ []

abbrev always : ℕ → Bool
always n = true

abbrev blank : ℕ → ℕ
blank p = 0

in_order : sorted_order some_rows ≡ 1 ∷ 2 ∷ 3 ∷ 0 ∷ []
unfolding sorted_order
in_order = refl

abbrev first_of : Status → List ℕ
first_of (done out calls total) = content out 0 8
first_of _ = []

-- The rows 3, 1, 1, 2 of two bytes from offset 10 on.
eight_bytes :
    first_of (read_rows_impl from_doubles 5 10 2 some_rows always [] blank)
    ≡ 32 ∷ 34 ∷ 24 ∷ 26 ∷ 24 ∷ 26 ∷ 28 ∷ 30 ∷ []
unfolding read_rows_impl
eight_bytes = refl

-- At most two bytes are read in a call.
abbrev two_bytes : Pread
two_bytes time count offset = bytes (take 2 (content doubles offset count))

-- The row 0 of four bytes from offset 10 on is 20, 22, 24, 26, but the second call overwrites the
-- first.
cut_short :
    first_of (read_rows_impl two_bytes 5 10 4 (0 ∷ []) always (9 ∷ 9 ∷ 9 ∷ 9 ∷ []) blank)
    ≡ 24 ∷ 26 ∷ 9 ∷ 9 ∷ 0 ∷ 0 ∷ 0 ∷ 0 ∷ []
unfolding read_rows_impl
cut_short = refl

few_rows : All (λ r. r < 4) some_rows
few_rows = (omega arith, (omega arith, (omega arith, (omega arith, tt))))

read_rows_impl-Outcome_example :
    Outcome from_doubles doubles from_doubles-Reads 0 from_doubles-IsCalm 9 10 2 some_rows 4
      few_rows
      (omega arith)
      (omega arith)
      always
      blank
      (read_rows_impl from_doubles 9 10 2 some_rows always [] blank)
read_rows_impl-Outcome_example =
    read_rows_impl-Outcome from_doubles doubles from_doubles-Reads 0 from_doubles-IsCalm 9 10 2
      some_rows 4 few_rows (omega arith) (omega arith) always [] blank
