-- ===== src/Safetensors/Reads/Tests.antt =====
-- Reads of a tensor of three rows of two bytes, in a file whose byte at each offset is the offset.
use qwen3_8_flash_next.Base.{
  ◌*◌, ℕ, ◌+◌, ◌<◌, ◌≡◌, refl, sym, ap, ◌∙◌, arith, Bool, true, List, [], ◌∷◌, length, word, ℤ, pos,
}
use qwen3_8_flash_next.Pread.Fill.{content, length-content, Reads, IsCalm}
use qwen3_8_flash_next.Pread.{Pread, Answer, bytes}
use qwen3_8_flash_next.Safetensors.Reads.{
  TensorReads, RowsRead, st_read_tensor-TensorReads, st_read_rows-RowsRead,
}
use qwen3_8_flash_next.Safetensors.{
  RowsAnswer, rows_zero, rows_refused, Tensor, Stats, tensor_read, st_read_tensor, st_read_rows, u8,
}

abbrev offsets : ℕ → ℕ
offsets offset = offset

abbrev all_offsets : Pread
all_offsets time count offset = bytes (content offsets offset count)

abbrev bytes_of : Answer → List ℕ
bytes_of (bytes read) = read
bytes_of _ = []

all_offsets-Reads : Reads all_offsets offsets
all_offsets-Reads time count offset read e =
    let is : content offsets offset count ≡ read = ap bytes_of e in
    let size : length read ≡ count = sym (ap length is) ∙ length-content offsets offset count in
    (omega (arith, size), sym is ∙ ap (content offsets offset) (sym size))

all_offsets-IsCalm : IsCalm all_offsets 0
all_offsets-IsCalm time = (0, omega arith, λ count offset e. absurd (cc e))

abbrev three_rows : Tensor
three_rows = record {
  name = 97 ∷ [];
  file = 0;
  dtype = u8;
  shape = 3 ∷ 2 ∷ [];
  offset = 20;
  nbytes = 6;
}

abbrev none_yet : Stats
none_yet = record { pread_calls = 0; bytes_read = 0; rows_read = 0; tensors_read = 0 }

abbrev always : ℕ → Bool
always n = true

abbrev blank : ℕ → ℕ
blank p = 0

abbrev two_rows : List ℤ
two_rows = pos 2 ∷ pos 0 ∷ []

abbrev first_of : RowsAnswer → List ℕ
first_of (rows_zero out calls stats) = content out 0 4
first_of _ = []

six_bytes :
    st_read_tensor all_offsets 7 three_rows none_yet
    ≡ tensor_read
        (20 ∷ 21 ∷ 22 ∷ 23 ∷ 24 ∷ 25 ∷ [])
        (record { pread_calls = 1; bytes_read = 6; rows_read = 0; tensors_read = 1 })
unfolding st_read_tensor
six_bytes = refl

four_bytes :
    first_of (st_read_rows all_offsets 3 three_rows two_rows always [] blank none_yet)
    ≡ 24 ∷ 25 ∷ 20 ∷ 21 ∷ []
unfolding st_read_rows
four_bytes = refl

no_such_row :
    st_read_rows all_offsets 3 three_rows (pos 1 ∷ pos 3 ∷ []) always [] blank none_yet
    ≡ rows_refused
unfolding st_read_rows
no_such_row = refl

in_word : three_rows.offset + three_rows.nbytes < word
in_word = omega arith

st_read_tensor-TensorReads_example :
    TensorReads all_offsets offsets all_offsets-Reads 0 all_offsets-IsCalm 7 three_rows in_word
      none_yet
      (st_read_tensor all_offsets 7 three_rows none_yet)
st_read_tensor-TensorReads_example =
    st_read_tensor-TensorReads all_offsets offsets all_offsets-Reads 0 all_offsets-IsCalm 7
      three_rows in_word none_yet (omega arith)

enough_rounds : length two_rows * 6 * (0 + 1) + 0 < 13
enough_rounds = omega arith

st_read_rows-RowsRead_example :
    RowsRead all_offsets offsets all_offsets-Reads 0 all_offsets-IsCalm 13 three_rows in_word
      two_rows enough_rounds always blank none_yet
      (three_rows.shape)
      (st_read_rows all_offsets 13 three_rows two_rows always [] blank none_yet)
st_read_rows-RowsRead_example =
    st_read_rows-RowsRead all_offsets offsets all_offsets-Reads 0 all_offsets-IsCalm 13 three_rows
      in_word two_rows enough_rounds always blank [] none_yet
