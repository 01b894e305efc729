-- ===== src/Safetensors/Header.antt =====
-- `parse_file` of c/src/safetensors.c, from the size of the file on, and the loop over the files in
-- `st_index_open`. The tensors of the index, and the ranges of a file, are held with the last first.
use qwen3_8_flash_next.Base.{
  ℕ, suc, ◌+◌, ◌-◌, ◌*◌, Bool, false, ◌&&◌, ◌||◌, not, Option, none, some, List, [], ◌∷◌, ◌==◌, ltb,
  if◌then◌else◌, length, add64, sub64, mul64, word, ℤ, pos, negsuc,
}
use qwen3_8_flash_next.Json.{
  Value, num, str, arr, obj, Values, no_value, value, Members, no_member, member, Parsed,
  json_parse, obj_get,
}
use qwen3_8_flash_next.Pread.{
  Pread, interrupted, refused, bytes, fill, filled, failed, ended, unfinished,
}
use qwen3_8_flash_next.Safetensors.{
  Dtype, st_dtype_size, c_string, strcmp, is_nought, dtype_from_name, Tensor, behind_prefix,
  language_model,
}

-- "__metadata__", "dtype", "data_offsets" and "shape"
abbrev pub metadata_key : List ℕ
metadata_key = 95 ∷ 95 ∷ 109 ∷ 101 ∷ 116 ∷ 97 ∷ 100 ∷ 97 ∷ 116 ∷ 97 ∷ 95 ∷ 95 ∷ []

abbrev pub dtype_key : List ℕ
dtype_key = 100 ∷ 116 ∷ 121 ∷ 112 ∷ 101 ∷ []

abbrev pub offsets_key : List ℕ
offsets_key = 100 ∷ 97 ∷ 116 ∷ 97 ∷ 95 ∷ 111 ∷ 102 ∷ 102 ∷ 115 ∷ 101 ∷ 116 ∷ 115 ∷ []

abbrev pub shape_key : List ℕ
shape_key = 115 ∷ 104 ∷ 97 ∷ 112 ∷ 101 ∷ []

-- Why a file is refused.
pub data Refusal : Type 0 where
  truncated_header truncated_json invalid_json not_object read_failed : Refusal
  invalid_entry invalid_metadata unsupported_dtype invalid_offsets too_many_dims : Refusal
  invalid_shape invalid_range duplicate overlapping unending : Refusal

-- `(uint64_t)` of an `int64_t`.
unfoldable pub as_u64 : ℤ → ℕ
as_u64 (pos n) = n
as_u64 (negsuc n) = word - 1 - n

unfoldable pub count_values : Values → ℕ
count_values no_value = 0
count_values (value v values) = suc (count_values values)

-- Is there a tensor of the name?
unfoldable pub has_name : List Tensor → List ℕ → Bool
has_name [] name = false
has_name (t ∷ tensors) name = is_nought (strcmp t.name name) || has_name tensors name

-- `for (j = i + 1; j < nranges; j++)`
unfoldable pub meets : ℕ → ℕ → List (ℕ × ℕ) → Bool
meets lo hi [] = false
meets lo hi ((lo', hi') ∷ ranges) = (ltb lo hi' && ltb lo' hi) || meets lo hi ranges

unfoldable pub overlap : List (ℕ × ℕ) → Bool
unfolding meets
overlap [] = false
overlap ((lo, hi) ∷ ranges) = meets lo hi ranges || overlap ranges

-- The tensors from this file, from the last on, are dropped.
unfoldable pub drop_file : ℕ → List Tensor → List Tensor
drop_file file [] = []
drop_file file (t ∷ tensors) =
    let rest = drop_file file tensors in if t.file == file then rest else t ∷ tensors

-- What the checks of an entry leave: the metadata of the file is passed by; a tensor has its range.
pub data Entry : Type 0 where
  passed_by : Entry
  entry : Tensor → ℕ → ℕ → Entry
  -- before and after `add_tensor`
  refused_at : Refusal → Entry
  refused_after : Refusal → Tensor → Entry

pub data Checked : Type 0 where
  checked : List Tensor → List (ℕ × ℕ) → Checked
  stopped : Refusal → List Tensor → Checked

-- The tensors of the index behind a file that was parsed, or was refused.
pub data Parse : Type 0 where
  accepted : List Tensor → Parse
  refusal : Refusal → List Tensor → Parse

-- `type` is JSON_OBJ, JSON_STR, JSON_ARR, or JSON_ARR with two items.
abbrev pub obj_of : Value → Option Members
obj_of (obj members) = some members
obj_of _ = none

abbrev pub str_of : Option Value → Option (List ℕ)
str_of (some (str text)) = some text
str_of _ = none

abbrev pub arr_of : Option Value → Option Values
arr_of (some (arr values)) = some values
arr_of _ = none

abbrev pub pair_of : Option Value → Option (Value × Value)
pair_of (some (arr (value a (value b no_value)))) = some (a, b)
pair_of _ = none

-- `memcpy` of the bytes to a number, the lowest first.
unfoldable pub little : List ℕ → ℕ
little [] = 0
little (b ∷ more) = b + 256 * little more

-- The name without the prefix.
unfoldable pub normalized : List ℕ → List ℕ
unfolding behind_prefix
normalized stored = elim (behind_prefix language_model stored) [ none ↦ stored | some name ↦ name ]

module _ (to_i64 : ℕ → ℤ) where
  -- The shape and `elems`.
  unfoldable pub shape_from : Values → ℕ → Option (List ℕ × ℕ)
  shape_from no_value elems = some ([], elems)
  shape_from (value (num x) values) elems = elim (to_i64 x) [
    | negsuc n ↦ none
    | pos dim ↦ elim (shape_from values (mul64 elems dim)) [
      | none ↦ none
      | some (shape, all) ↦ some (dim ∷ shape, all)
    ]
  ]
  shape_from (value _ values) elems = none

  -- From `add_tensor` on; `tensors` are those before. What a refused tensor has of its shape is not
  -- read: it is dropped.
  unfoldable pub check_tensor : ℕ → ℕ → ℕ → List Tensor → List ℕ → Dtype → Values → ℕ → ℕ → Entry
  unfolding count_values shape_from has_name st_dtype_size
  check_tensor file size base tensors name dtype dims lo hi =
      let bare : Tensor = record {
        name = name;
        file = file;
        dtype = dtype;
        shape = [];
        offset = 0;
        nbytes = 0;
      } in
      if ltb 8 (count_values dims)
      then refused_after too_many_dims bare
      else elim (shape_from dims 1) [
        | none ↦ refused_after invalid_shape bare
        | some (shape, elems) ↦
            let expect = mul64 elems (st_dtype_size dtype) in
            if ltb hi lo || (not (sub64 hi lo == expect) || ltb (sub64 size base) hi)
            then refused_after invalid_range bare
            else if has_name tensors name
            then refused_after duplicate bare
            else entry
                (record {
                  name = name;
                  file = file;
                  dtype = dtype;
                  shape = shape;
                  offset = add64 base lo;
                  nbytes = sub64 hi lo;
                })
                lo hi
      ]

  unfoldable pub offsets_of : Value → Value → Option (ℕ × ℕ)
  unfolding as_u64
  offsets_of (num x) (num y) = some (as_u64 (to_i64 x), as_u64 (to_i64 y))
  offsets_of _ _ = none

  abbrev pub with_dtype :
      ℕ → ℕ → ℕ → List Tensor → List ℕ → Option Dtype → Option (ℕ × ℕ) → Values → Entry
  with_dtype file size base tensors name none offsets dims = refused_at unsupported_dtype
  with_dtype file size base tensors name (some d) none dims = refused_at invalid_offsets
  with_dtype file size base tensors name (some d) (some (lo, hi)) dims =
      check_tensor file size base tensors name d dims lo hi

  -- The three fields of an entry; the text of a string ends at its first 0.
  unfoldable pub check_fields :
      ℕ
      → ℕ
      → ℕ
      → List Tensor
      → List ℕ
      → Option (List ℕ)
      → Option (Value × Value)
      → Option Values
      → Entry
  unfolding check_tensor c_string dtype_from_name offsets_of
  check_fields file size base tensors name none offsets dims = refused_at invalid_metadata
  check_fields file size base tensors name (some dtype) none dims = refused_at invalid_metadata
  check_fields file size base tensors name (some dtype) (some offsets) none =
      refused_at invalid_metadata
  check_fields file size base tensors name (some dtype) (some (lo, hi)) (some dims) =
      with_dtype file size base tensors name (dtype_from_name (c_string dtype)) (offsets_of lo hi)
        dims

  unfoldable pub check_entry : ℕ → ℕ → ℕ → List Tensor → List ℕ → Value → Entry
  unfolding strcmp obj_get normalized check_fields
  check_entry file size base tensors stored meta =
      if is_nought (strcmp stored metadata_key) then passed_by else elim (obj_of meta) [
        | none ↦ refused_at invalid_entry
        | some fields ↦
            check_fields file size base tensors (normalized stored)
              (str_of (obj_get meta dtype_key)) (pair_of (obj_get meta offsets_key))
              (arr_of (obj_get meta shape_key))
      ]

  -- The loop over the entries: the tensors with those of the file and their ranges, or the
  -- tensors when it stopped.
  unfoldable pub check_members : ℕ → ℕ → ℕ → Members → List Tensor → List (ℕ × ℕ) → Checked
  unfolding check_entry c_string
  check_members file size base no_member tensors ranges = checked tensors ranges
  check_members file size base (member key v members) tensors ranges =
      elim (check_entry file size base tensors (c_string key) v) [
        | passed_by ↦ check_members file size base members tensors ranges
        | entry t lo hi ↦ check_members file size base members (t ∷ tensors) ((lo, hi) ∷ ranges)
        | refused_at e ↦ stopped e tensors
        | refused_after e t ↦ stopped e (t ∷ tensors)
      ]

  -- From the parsed header on.
  unfoldable pub parse_root : ℕ → ℕ → ℕ → Value → List Tensor → Parse
  unfolding check_members overlap drop_file
  parse_root file size base root tensors = elim (obj_of root) [
    | none ↦ refusal not_object tensors
    | some members ↦ elim (check_members file size base members tensors []) [
      | stopped e all ↦ refusal e (drop_file file all)
      | checked all ranges ↦
          if overlap ranges then refusal overlapping (drop_file file all) else accepted all
    ]
  ]

  module _ (is_space : ℕ → Bool) (strtod : List ℕ → Option (ℕ × List ℕ)) (rounds : ℕ) where
    unfoldable pub parse_text : ℕ → ℕ → ℕ → List ℕ → List Tensor → Parse
    unfolding json_parse parse_root
    parse_text file size base text tensors = elim (json_parse is_space strtod text) [
      | Parsed.failed m at ↦ refusal invalid_json tensors
      | Parsed.unfinished ↦ refusal unending tensors
      | Parsed.parsed root rest ↦ parse_root file size base root tensors
    ]

    -- The size is that of the opened file.
    unfoldable pub parse_file : Pread → ℕ → ℕ → List Tensor → Parse
    unfolding fill parse_text little
    parse_file pread file size tensors = elim (pread 0 8 0) [
      | interrupted ↦ refusal truncated_header tensors
      | refused e ↦ refusal truncated_header tensors
      | bytes lenbuf ↦
          if not (length lenbuf == 8)
          then refusal truncated_header tensors
          else if ltb (sub64 size 8) (little lenbuf)
          then refusal truncated_json tensors
          else elim (fill pread rounds 1 8 (little lenbuf) [] 0) [
            | failed e ↦ refusal read_failed tensors
            | ended ↦ refusal truncated_json tensors
            | unfinished ↦ refusal unending tensors
            | filled text time calls ↦ parse_text file size (add64 8 (little lenbuf)) text tensors
          ]
    ]

    -- The files in the order of the directory, each with its reads and its size.
    unfoldable pub parse_files : ℕ → List (Pread × ℕ) → List Tensor → Parse
    unfolding parse_file
    parse_files file [] tensors = accepted tensors
    parse_files file ((pread, size) ∷ files) tensors = elim (parse_file pread file size tensors) [
      | refusal e left ↦ refusal e left
      | accepted all ↦ parse_files (file + 1) files all
    ]

    -- From the list of the files on; the tensors are sorted by their names.
    unfoldable pub st_index_open :
        (List Tensor → List Tensor) → List (Pread × ℕ) → Option (List Tensor)
    unfolding parse_files
    st_index_open qsort [] = none
    st_index_open qsort (file ∷ files) = elim (parse_files 0 (file ∷ files) []) [
      | refusal e left ↦ none
      | accepted all ↦ some (qsort all)
    ]
