-- ===== src/Rowio/Tests.antt =====
-- Runs of native/rowio.c on a file whose byte at each offset is twice the offset.
use mathlib.Core.List.{Permᴰ}
use mathlib.Core.List.Permᴰ
use qwen3_8_flash_next.Base.{
  ℕ, ◌+◌, ◌*◌, ◌≤◌, ◌<◌, ◌≡◌, ℤ, pos, negsuc, refl, sym, ap, ◌∙◌, arith, Bool, true, some, List, [],
  ◌∷◌, length, ltb, ◌↔◌, if◌then◌else◌,
}
use qwen3_8_flash_next.Pread.Fill.{content, length-content, Reads, IsCalm}
use qwen3_8_flash_next.Pread.{Pread, Answer, bytes}
use qwen3_8_flash_next.Rowio.Offset.{checked_offset_iff}
use qwen3_8_flash_next.Rowio.Outcome.{Answers, read_rows-Answers}
use qwen3_8_flash_next.Rowio.{
  RowRequest, value, Rows, rows_read, failure, outside_shape, too_far, checked_offset, long_max,
  read_rows,
}

abbrev doubles : ℕ → ℕ
doubles offset = 2 * offset

-- At most three bytes are read in a call.
abbrev three_bytes : Pread
three_bytes time count offset = bytes (content doubles offset (if ltb 3 count then 3 else count))

abbrev bytes_of : Answer → List ℕ
bytes_of (bytes read) = read
bytes_of _ = []

three_bytes-Reads : Reads three_bytes doubles
three_bytes-Reads time count offset read e =
    let n = if ltb 3 count then 3 else count in
    let is : content doubles offset n ≡ read = ap bytes_of e in
    let size : length read ≡ n = sym (ap length is) ∙ length-content doubles offset n in
    (ground (arith, size), sym is ∙ ap (content doubles offset) (sym size))

three_bytes-IsCalm : IsCalm three_bytes 0
three_bytes-IsCalm time = (0, omega arith, λ count offset e. absurd (cc e))

-- The row 2 goes behind the row 1.
abbrev second_first : List RowRequest → List RowRequest
second_first (a ∷ b ∷ requests) = b ∷ a ∷ requests
second_first requests = requests

second_first-sorts : (requests : List RowRequest) → Permᴰ requests (second_first requests)
second_first-sorts [] = Permᴰ.refl []
second_first-sorts (a ∷ []) = Permᴰ.refl (a ∷ [])
second_first-sorts (a ∷ b ∷ requests) = Permᴰ.swap refl refl

abbrev numbers : List ℤ
numbers = pos 2 ∷ pos 1 ∷ []

abbrev always : ℕ → Bool
always n = true

abbrev blank : ℕ → ℕ
blank p = 0

abbrev first_of : Rows → List ℕ
first_of (rows_read out calls total) = content out 0 4
first_of _ = []

four_bytes :
    first_of (read_rows value second_first three_bytes 9 10 (pos 2) numbers 3 always blank)
    ≡ 28 ∷ 30 ∷ 24 ∷ 26 ∷ []
unfolding read_rows
four_bytes = refl

outside :
    read_rows value second_first three_bytes 9 10 (pos 2) (pos 1 ∷ negsuc 0 ∷ []) 3 always blank
    ≡ failure outside_shape
unfolding read_rows
outside = refl

-- A block that would end behind 2 ^ 63 is not read.
far :
    read_rows value second_first three_bytes 9 long_max (pos 2) (pos 0 ∷ []) 3 always blank
    ≡ failure too_far
unfolding read_rows
far = refl

checked_offset_iff_example :
    (checked_offset 10 3 2 ≡ some 16) ↔ ((16 ≡ 10 + 3 * 2) × (16 ≤ long_max))
checked_offset_iff_example = checked_offset_iff 10 3 2 16 (omega arith)

enough_rounds : length numbers * 2 * (0 + 1) + 0 < 9
enough_rounds = omega arith

read_rows-Answers_example :
    Answers value second_first second_first-sorts three_bytes doubles three_bytes-Reads 0
      three_bytes-IsCalm 9 10 3 numbers
      (omega arith)
      (pos 2)
      enough_rounds
      always
      blank
      (read_rows value second_first three_bytes 9 10 (pos 2) numbers 3 always blank)
read_rows-Answers_example =
    read_rows-Answers value second_first second_first-sorts three_bytes doubles three_bytes-Reads 0
      three_bytes-IsCalm 9 10 3 numbers (omega arith) (pos 2) enough_rounds always blank
