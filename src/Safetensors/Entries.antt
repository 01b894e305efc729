-- ===== src/Safetensors/Entries.antt =====
-- What `parse_file` of c/src/safetensors.c checks of an entry.
use qwen3_8_flash_next.Base.{
  ℕ, ◌+◌, ◌-◌, ◌≤◌, ◌<◌, ◌≡◌, ◌≢◌, refl, ap, ◌∙◌, arith, Bool, true, false, ◌||◌, not, Option, none,
  some, List, [], ◌∷◌, ◌==◌, ltb, if◌then◌else◌, add64, sub64, mul64, word, ℤ, All, Bool-cases, inl,
  inr,
}
use qwen3_8_flash_next.Json.{Value, Values, Members, obj_get}
use qwen3_8_flash_next.Safetensors.Header.{
  invalid_shape, invalid_range, duplicate, invalid_entry, Entry, passed_by, entry, refused_at,
  refused_after, has_name, count_values, shape_from, check_tensor, with_dtype, check_fields,
  check_entry, obj_of, str_of, pair_of, arr_of, normalized, metadata_key, dtype_key, offsets_key,
  shape_key,
}
use qwen3_8_flash_next.Safetensors.Search.{strcmp_self}
use qwen3_8_flash_next.Safetensors.{Dtype, Tensor, st_dtype_size, strcmp, is_nought}

has_name_lem :
    (tensors : List Tensor) (name : List ℕ)
    → has_name tensors name ≡ false
    → All (λ u. name ≢ u.name) tensors
unfolding has_name
has_name_lem [] name h = tt
has_name_lem (t ∷ tensors) name h = elim (Bool-cases (is_nought (strcmp t.name name))) [
  | inl same ↦ absurd (cc (same, h))
  | inr other ↦ (
    λ e. absurd (cc (other, ap is_nought (ap (strcmp t.name) e ∙ strcmp_self t.name))),
    has_name_lem tensors name (let z : has_name tensors name ≡ false = cc (other, h) in z),
  )
]

module _ (to_i64 : ℕ → ℤ) (file size base : ℕ) (small : size < word) (room : base ≤ size) where
  -- The tensor of the range, in the file.
  abbrev pub Ranged : Tensor → ℕ → ℕ → Type 0
  Ranged t lo hi =
      (t.file ≡ file)
      × (t.offset ≡ base + lo)
      × (t.offset + t.nbytes ≡ base + hi)
      × (lo ≤ hi)
      × (base + hi ≤ size)

  abbrev pub Sound : List Tensor → Entry → Type 0
  Sound tensors passed_by = Unit
  Sound tensors (entry t lo hi) = Ranged t lo hi × All (λ u. t.name ≢ u.name) tensors
  Sound tensors (refused_at e) = Unit
  Sound tensors (refused_after e t) = t.file ≡ file

  Sound-if :
      (tensors : List Tensor) (b : Bool) (x y : Entry)
      → (b ≡ true → Sound tensors x)
      → (b ≡ false → Sound tensors y)
      → Sound tensors (if b then x else y)
  Sound-if tensors true x y h h' = h refl
  Sound-if tensors false x y h h' = h' refl

  ranged_lem :
      (lo hi expect : ℕ)
      → (ltb hi lo || (not (sub64 hi lo == expect) || ltb (sub64 size base) hi)) ≡ false
      → (add64 base lo ≡ base + lo)
        × (add64 base lo + sub64 hi lo ≡ base + hi)
        × (lo ≤ hi)
        × (base + hi ≤ size)
  ranged_lem lo hi expect h =
      let le : lo ≤ hi = ground (arith, h) in
      let le' : hi ≤ size - base = ground (arith, h) in
      (omega (arith, le, le'), omega (arith, le, le'), le, omega (arith, le'))

  check_tensor-Sound :
      (tensors : List Tensor) (name : List ℕ) (d : Dtype) (dims : Values) (lo hi : ℕ)
      → Sound tensors (check_tensor to_i64 file size base tensors name d dims lo hi)
  unfolding check_tensor
  check_tensor-Sound tensors name d dims lo hi =
      Sound-if tensors (ltb 8 (count_values dims)) _ _ (λ many. refl)
        (λ few. go (shape_from to_i64 dims 1))
    where
      go :
          (shape : Option (List ℕ × ℕ))
          → Sound tensors (elim shape [
            | none ↦
                refused_after invalid_shape (record {
                  name = name;
                  file = file;
                  dtype = d;
                  shape = [];
                  offset = 0;
                  nbytes = 0;
                })
            | some (shape, elems) ↦
                if ltb hi lo
                  || (not (sub64 hi lo == mul64 elems (st_dtype_size d))
                      || ltb (sub64 size base) hi)
                then refused_after invalid_range (record {
                  name = name;
                  file = file;
                  dtype = d;
                  shape = [];
                  offset = 0;
                  nbytes = 0;
                })
                else if has_name tensors name
                then refused_after duplicate (record {
                  name = name;
                  file = file;
                  dtype = d;
                  shape = [];
                  offset = 0;
                  nbytes = 0;
                })
                else entry
                    (record {
                      name = name;
                      file = file;
                      dtype = d;
                      shape = shape;
                      offset = add64 base lo;
                      nbytes = sub64 hi lo;
                    })
                    lo
                    hi
          ])
      go none = refl
      go (some (shape, elems)) =
          Sound-if tensors
            (ltb hi lo
              || (not (sub64 hi lo == mul64 elems (st_dtype_size d)) || ltb (sub64 size base) hi))
            _ _ (λ bad. refl)
            (λ good.
              Sound-if tensors (has_name tensors name) _ _ (λ there. refl)
                (λ fresh.
                  let (start, end, le, inside) =
                    ranged_lem lo hi (mul64 elems (st_dtype_size d)) good in
                  ((refl, start, end, le, inside), has_name_lem tensors name fresh)))

  with_dtype-Sound :
      (tensors : List Tensor) (name : List ℕ) (d : Option Dtype) (offsets : Option (ℕ × ℕ))
      (dims : Values)
      → Sound tensors (with_dtype to_i64 file size base tensors name d offsets dims)
  with_dtype-Sound tensors name none offsets dims = tt
  with_dtype-Sound tensors name (some d) none dims = tt
  with_dtype-Sound tensors name (some d) (some (lo, hi)) dims =
      check_tensor-Sound tensors name d dims lo hi

  check_fields-Sound :
      (tensors : List Tensor) (name : List ℕ) (d : Option (List ℕ)) (o : Option (Value × Value))
      (s : Option Values)
      → Sound tensors (check_fields to_i64 file size base tensors name d o s)
  unfolding check_fields
  check_fields-Sound tensors name none o s = tt
  check_fields-Sound tensors name (some d) none s = tt
  check_fields-Sound tensors name (some d) (some o) none = tt
  check_fields-Sound tensors name (some d) (some (lo, hi)) (some dims) =
      with_dtype-Sound tensors name _ _ dims

  -- An entry that is taken lies in the file, and no tensor had its name.
  pub check_entry-Sound :
      (tensors : List Tensor) (stored : List ℕ) (meta : Value)
      → Sound tensors (check_entry to_i64 file size base tensors stored meta)
  unfolding check_entry
  check_entry-Sound tensors stored meta =
      Sound-if tensors (is_nought (strcmp stored metadata_key)) _ _ (λ meta. tt)
        (λ named. go (obj_of meta))
    where
      go :
          (fields : Option Members)
          → Sound tensors (elim fields [
            | none ↦ refused_at invalid_entry
            | some fields ↦
                check_fields to_i64 file size base tensors
                  (normalized stored)
                  (str_of (obj_get meta dtype_key))
                  (pair_of (obj_get meta offsets_key))
                  (arr_of (obj_get meta shape_key))
          ])
      go none = tt
      go (some fields) =
          check_fields-Sound tensors (normalized stored) (str_of (obj_get meta dtype_key))
            (pair_of (obj_get meta offsets_key)) (arr_of (obj_get meta shape_key))
