-- ===== src/Safetensors.antt =====
-- c/src/safetensors.c: the index of the tensors of a model and its reads. A C string is the list of
-- its bytes, without the 0 behind it. `pread`, qsort and the conversion of a `double` are
-- parameters; allocation does not fail.
pub mod Search
pub mod Header
pub mod Entries
pub mod Index
pub mod Files
pub mod Opened
pub mod Reads
mod Tests
use qwen3_8_flash_next.Base.{
  ℕ, zero, suc, ◌+◌, ◌-◌, ◌*◌, ◌/◌, Bool, true, false, ◌&&◌, ◌||◌, not, Option, none, some, List,
  [], ◌∷◌, ◌++◌, ◌==◌, ltb, leb, if◌then◌else◌, length, get_elem?, take, add64, mul64, word, ℤ, pos,
  negsuc, Sign, minus, nought, plus,
}
use qwen3_8_flash_next.Pread.{Pread, Filled, filled, failed, ended, unfinished, fill}
use qwen3_8_flash_next.Reader.Rows.{Status, done, read_rows_impl}

pub data Dtype : Type 0 where
  bool8 u8 i8 u16 i16 u32 i32 u64 i64 f16 bf16 f32 f64 : Dtype

pub record DtypeEntry : Type 0 where
  pub name : List ℕ
  pub size : ℕ
  pub dtype : Dtype

abbrev pub dtypes : List DtypeEntry
dtypes =
    record { name = 66 ∷ 79 ∷ 79 ∷ 76 ∷ []; size = 1; dtype = bool8 }
    ∷ record { name = 85 ∷ 56 ∷ []; size = 1; dtype = u8 }
    ∷ record { name = 73 ∷ 56 ∷ []; size = 1; dtype = i8 }
    ∷ record { name = 85 ∷ 49 ∷ 54 ∷ []; size = 2; dtype = u16 }
    ∷ record { name = 73 ∷ 49 ∷ 54 ∷ []; size = 2; dtype = i16 }
    ∷ record { name = 85 ∷ 51 ∷ 50 ∷ []; size = 4; dtype = u32 }
    ∷ record { name = 73 ∷ 51 ∷ 50 ∷ []; size = 4; dtype = i32 }
    ∷ record { name = 85 ∷ 54 ∷ 52 ∷ []; size = 8; dtype = u64 }
    ∷ record { name = 73 ∷ 54 ∷ 52 ∷ []; size = 8; dtype = i64 }
    ∷ record { name = 70 ∷ 49 ∷ 54 ∷ []; size = 2; dtype = f16 }
    ∷ record { name = 66 ∷ 70 ∷ 49 ∷ 54 ∷ []; size = 2; dtype = bf16 }
    ∷ record { name = 70 ∷ 51 ∷ 50 ∷ []; size = 4; dtype = f32 }
    ∷ record { name = 70 ∷ 54 ∷ 52 ∷ []; size = 8; dtype = f64 }
    ∷ []

-- `DTYPES[d].size`
unfoldable pub st_dtype_size : Dtype → ℕ
st_dtype_size bool8 = 1
st_dtype_size u8 = 1
st_dtype_size i8 = 1
st_dtype_size u16 = 2
st_dtype_size i16 = 2
st_dtype_size u32 = 4
st_dtype_size i32 = 4
st_dtype_size u64 = 8
st_dtype_size i64 = 8
st_dtype_size f16 = 2
st_dtype_size bf16 = 2
st_dtype_size f32 = 4
st_dtype_size f64 = 8

-- The bytes up to the first 0.
unfoldable pub c_string : List ℕ → List ℕ
c_string [] = []
c_string (b ∷ text) = if b == 0 then [] else b ∷ c_string text

unfoldable pub strcmp : List ℕ → List ℕ → Sign
strcmp [] [] = nought
strcmp [] (b ∷ y) = minus
strcmp (a ∷ x) [] = plus
strcmp (a ∷ x) (b ∷ y) =
    let rest = strcmp x y in if ltb a b then minus else if ltb b a then plus else rest

abbrev pub is_nought : Sign → Bool
is_nought nought = true
is_nought _ = false

unfoldable pub dtype_from : List DtypeEntry → List ℕ → Option Dtype
unfolding strcmp
dtype_from [] text = none
dtype_from (entry ∷ entries) text =
    let rest = dtype_from entries text in
    if is_nought (strcmp entry.name text) then some entry.dtype else rest

-- `none` is ST_COUNT.
unfoldable pub dtype_from_name : List ℕ → Option Dtype
unfolding dtype_from
dtype_from_name text = dtype_from dtypes text

pub record Tensor : Type 0 where
  pub name : List ℕ
  pub file : ℕ
  pub dtype : Dtype
  pub shape : List ℕ
  pub offset : ℕ
  pub nbytes : ℕ

-- `strncmp(text, prefix, strlen(prefix)) == 0`: what is behind the prefix.
unfoldable pub behind_prefix : List ℕ → List ℕ → Option (List ℕ)
behind_prefix [] text = some text
behind_prefix (p ∷ prefix) [] = none
behind_prefix (p ∷ prefix) (b ∷ text) =
    let rest = behind_prefix prefix text in if b == p then rest else none

-- "language_model."
abbrev pub language_model : List ℕ
language_model =
    108 ∷ 97 ∷ 110 ∷ 103 ∷ 117 ∷ 97 ∷ 103 ∷ 101 ∷ 95 ∷ 109 ∷ 111 ∷ 100 ∷ 101 ∷ 108 ∷ 46 ∷ []

-- "model."
abbrev pub model : List ℕ
model = 109 ∷ 111 ∷ 100 ∷ 101 ∷ 108 ∷ 46 ∷ []

-- `while (lo < hi)`, with a unit of fuel for each place between them.
unfoldable pub search_from : ℕ → List Tensor → List ℕ → ℕ → ℕ → Option Tensor
unfolding strcmp
search_from zero tensors name lo hi = none
search_from (suc left) tensors name lo hi =
    let mid = add64 lo hi / 2 in
    let above = search_from left tensors name (mid + 1) hi in
    let below = search_from left tensors name lo mid in
    if ltb lo hi
    then elim (get_elem? tensors mid) [
      | none ↦ none
      | some t ↦ elim (strcmp t.name name) [ nought ↦ some t | minus ↦ above | plus ↦ below ]
    ]
    else none

unfoldable pub st_find_exact : List Tensor → List ℕ → Option Tensor
unfolding search_from
st_find_exact tensors name = search_from (length tensors) tensors name 0 (length tensors)

-- `prefixed` holds 511 bytes.
unfoldable pub st_find : List Tensor → List ℕ → Option Tensor
unfolding st_find_exact behind_prefix
st_find tensors name = elim (st_find_exact tensors name) [
  | some t ↦ some t
  | none ↦ elim (behind_prefix model name) [
    | none ↦ none
    | some rest ↦ st_find_exact tensors (take 511 (language_model ++ name))
  ]
]

-- The counts of what was read.
pub record Stats : Type 0 where
  pub pread_calls : ℕ
  pub bytes_read : ℕ
  pub rows_read : ℕ
  pub tensors_read : ℕ

-- The bytes and the counts, or -1 (`unending`: out of fuel).
pub data TensorRead : Type 0 where
  tensor_read : List ℕ → Stats → TensorRead
  not_read unending : TensorRead

unfoldable pub st_read_tensor : Pread → ℕ → Tensor → Stats → TensorRead
unfolding fill
st_read_tensor pread rounds t stats = elim (fill pread rounds 0 t.offset t.nbytes [] 0) [
  | filled bytes time calls ↦ tensor_read bytes (record stats {
    pread_calls = add64 stats.pread_calls 1;
    bytes_read = add64 stats.bytes_read t.nbytes;
    tensors_read = add64 stats.tensors_read 1;
  })
  | failed e ↦ not_read
  | ended ↦ not_read
  | unfinished ↦ unending
]

-- The rows that are not negative and below the first dimension.
unfoldable pub checked_rows : ℕ → List ℤ → Option (List ℕ)
checked_rows first [] = some []
checked_rows first (negsuc r ∷ rows) = none
checked_rows first (pos r ∷ rows) = elim (checked_rows first rows) [
  | none ↦ none
  | some checked ↦ if leb first r then none else some (r ∷ checked)
]

-- What `st_read_rows` returns: 0 with `out` and the counts; -1 without a job, or with the status of
-- the job.
pub data RowsAnswer : Type 0 where
  rows_zero : (ℕ → ℕ) → ℕ → Stats → RowsAnswer
  rows_refused : RowsAnswer
  job_failed : Status → RowsAnswer

-- `rows_read` counts the rows of a job that ended with status 0.
abbrev pub answer : Status → ℕ → Stats → RowsAnswer
answer (done out calls total) nrows stats =
    rows_zero out calls (record stats { rows_read = add64 stats.rows_read nrows })
answer status nrows stats = job_failed status

-- The job of the rows of a tensor, run as the worker runs it.
unfoldable pub st_read_rows :
    Pread → ℕ → Tensor → List ℤ → (ℕ → Bool) → List ℕ → (ℕ → ℕ) → Stats → RowsAnswer
unfolding checked_rows read_rows_impl
st_read_rows pread rounds t rows allocates fresh out stats = elim t.shape [
  | [] ↦ rows_refused
  | first ∷ shape ↦ elim (checked_rows first rows) [
    | none ↦ rows_refused
    | some checked ↦
        let status =
          read_rows_impl pread rounds t.offset (t.nbytes / first) checked allocates fresh out in
        if first == 0 then rows_refused else answer status (length rows) stats
  ]
]
