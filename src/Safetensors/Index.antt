-- ===== src/Safetensors/Index.antt =====
-- The index that `parse_file` of c/src/safetensors.c makes.
use qwen3_8_flash_next.Base.{
  ℕ, ◌+◌, ◌≤◌, ◌<◌, ◌≡◌, ◌≢◌, refl, sym, ap, ◌∙◌, subst, arith, true, false, ◌&&◌, Option, none,
  some, List, [], ◌∷◌, ◌++◌, ◌==◌, ltb, if◌then◌else◌, word, ℤ, All, Bool-cases, inl, inr, ◌⊎◌,
}
use qwen3_8_flash_next.Json.{Value, Members, no_member, member}
use qwen3_8_flash_next.Safetensors.Entries.{Ranged, Sound, check_entry-Sound}
use qwen3_8_flash_next.Safetensors.Header.{
  overlapping, not_object, Entry, passed_by, entry, refused_at, refused_after, Checked, checked,
  stopped, Parse, accepted, refusal, check_entry, check_members, parse_root, meets, overlap,
  drop_file, obj_of,
}
use qwen3_8_flash_next.Safetensors.{Tensor, c_string}

-- Of two tensors the names differ, and so do the bytes, if they are in one file.
abbrev pub Apart : Tensor → Tensor → Type 0
Apart t u =
    (t.name ≢ u.name)
    × (t.file ≡ u.file → (t.offset + t.nbytes ≤ u.offset) ⊎ (u.offset + u.nbytes ≤ t.offset))

abbrev pub Pairwise : (Tensor → Tensor → Type 0) → List Tensor → Type 0
Pairwise R [] = Unit
Pairwise R (t ∷ tensors) = All (R t) tensors × Pairwise R tensors

-- Each tensor lies in its file, whose size is known, and any two are apart.
abbrev pub IsIndex : (ℕ → ℕ) → List Tensor → Type 0
IsIndex sizes tensors =
    All (λ t. t.offset + t.nbytes ≤ sizes t.file) tensors × Pairwise Apart tensors

module _ (to_i64 : ℕ → ℤ) (file size base : ℕ) (small : size < word) (room : base ≤ size)
    (sizes : ℕ → ℕ) (is_size : sizes file ≡ size) (tensors : List Tensor)
    (others : All (λ t. t.file ≢ file) tensors) where
  abbrev OneName : Tensor → Tensor → Type 0
  OneName t u = t.name ≢ u.name

  -- The tensors of the file and their ranges, in front of those of other files.
  abbrev Added : List Tensor → List (ℕ × ℕ) → Type 0
  Added [] ranges = ranges ≡ []
  Added (t ∷ added) [] = ⊥
  Added (t ∷ added) ((lo, hi) ∷ ranges) =
      Ranged to_i64 file size base small room t lo hi × Added added ranges

  drop_others : (left : List Tensor) → All (λ t. t.file ≢ file) left → drop_file file left ≡ left
  unfolding drop_file
  drop_others [] all = refl
  drop_others (t ∷ left) (other, all) =
      let h : (t.file == file) ≡ false = ground (arith, other) in rw h refl

  drop_added :
      (added : List Tensor)
      → All (λ t. t.file ≡ file) added
      → drop_file file (added ++ tensors) ≡ tensors
  unfolding drop_file
  drop_added [] all = drop_others tensors others
  drop_added (t ∷ added) (same, all) =
      let h : (t.file == file) ≡ true = ground (arith, same) in rw h (drop_added added all)

  Added-file :
      (added : List Tensor) (ranges : List (ℕ × ℕ))
      → Added added ranges
      → All (λ t. t.file ≡ file) added
  Added-file [] ranges h = tt
  Added-file (t ∷ added) [] h = absurd h
  Added-file (t ∷ added) ((lo, hi) ∷ ranges) (ranged, h) = (ranged.0, Added-file added ranges h)

  -- What the loop over the entries leaves.
  abbrev Walked : Checked → Type 0
  Walked (checked all ranges) =
      (added : List Tensor) × (all ≡ added ++ tensors)
      × Added added ranges
      × Pairwise OneName (added ++ tensors)
  Walked (stopped e all) =
      (added : List Tensor) × (all ≡ added ++ tensors) × All (λ t. t.file ≡ file) added

  check_members-Walked :
      (members : Members) (added : List Tensor) (ranges : List (ℕ × ℕ))
      → Added added ranges
      → Pairwise OneName (added ++ tensors)
      → Walked (check_members to_i64 file size base members (added ++ tensors) ranges)
  unfolding check_members
  check_members-Walked no_member added ranges h names = (added, refl, h, names)
  check_members-Walked (member key v members) added ranges h names =
      go (check_entry to_i64 file size base (added ++ tensors) (c_string key) v)
        (check_entry-Sound to_i64 file size base small room (added ++ tensors) (c_string key) v)
        (λ added' ranges'. check_members-Walked members added' ranges')
    where
      go :
          (e : Entry)
          → Sound to_i64 file size base small room (added ++ tensors) e
          → ((added' : List Tensor) (ranges' : List (ℕ × ℕ))
              → Added added' ranges'
              → Pairwise OneName (added' ++ tensors)
              → Walked (check_members to_i64 file size base members (added' ++ tensors) ranges'))
          → Walked (elim e [
            | passed_by ↦ check_members to_i64 file size base members (added ++ tensors) ranges
            | entry t lo hi ↦
                check_members to_i64 file size base members
                  (t ∷ (added ++ tensors))
                  ((lo, hi) ∷ ranges)
            | refused_at e ↦ stopped e (added ++ tensors)
            | refused_after e t ↦ stopped e (t ∷ (added ++ tensors))
          ])
      go passed_by sound rec = rec added ranges h names
      go (entry t lo hi) (ranged, fresh) rec =
          rec (t ∷ added) ((lo, hi) ∷ ranges) (ranged, h) (fresh, names)
      go (refused_at e) sound rec = (added, refl, Added-file added ranges h)
      go (refused_after e t) same rec = (t ∷ added, refl, (same, Added-file added ranges h))

  abbrev OneRange : Tensor → Tensor → Type 0
  OneRange t u =
      t.file ≡ u.file → (t.offset + t.nbytes ≤ u.offset) ⊎ (u.offset + u.nbytes ≤ t.offset)

  -- The range meets none of those.
  meets_none :
      (t : Tensor) (lo hi : ℕ) (added : List Tensor) (ranges : List (ℕ × ℕ))
      → Ranged to_i64 file size base small room t lo hi
      → Added added ranges
      → meets lo hi ranges ≡ false
      → All (OneRange t) added
  unfolding meets
  meets_none t lo hi [] ranges r h none_met = tt
  meets_none t lo hi (u ∷ added) [] r h none_met = absurd h
  meets_none t lo hi (u ∷ added) ((lo', hi') ∷ ranges) r (r', h) none_met =
      elim (Bool-cases (ltb lo hi' && ltb lo' hi)) [
        | inl met ↦ absurd (cc (met, none_met))
        | inr apart ↦ (
          λ one_file. ground (arith, apart, r, r'),
          meets_none t lo hi added ranges r h (cc (apart, none_met)),
        )
      ]

  join-Apart :
      (t : Tensor) (xs : List Tensor)
      → t.file ≡ file
      → All (OneName t) (xs ++ tensors)
      → All (OneRange t) xs
      → All (Apart t) (xs ++ tensors)
  join-Apart t [] here names ranged = behind tensors others names
    where
      behind :
          (us : List Tensor) → All (λ u. u.file ≢ file) us → All (OneName t) us → All (Apart t) us
      behind [] away names = tt
      behind (u ∷ us) (other, away) (name, names) =
          ((name, λ same. absurd (other (sym same ∙ here))), behind us away names)
  join-Apart t (u ∷ xs) here (name, names) (range, ranged) =
      ((name, range), join-Apart t xs here names ranged)

  added-IsIndex :
      (added : List Tensor) (ranges : List (ℕ × ℕ))
      → Added added ranges
      → overlap ranges ≡ false
      → Pairwise OneName (added ++ tensors)
      → IsIndex sizes tensors
      → IsIndex sizes (added ++ tensors)
  unfolding overlap
  added-IsIndex [] ranges h apart names index = index
  added-IsIndex (t ∷ added) [] h apart names index = absurd h
  added-IsIndex (t ∷ added) ((lo, hi) ∷ ranges) (r, h) apart (name, names) index =
      elim (Bool-cases (meets lo hi ranges)) [
        | inl met ↦ absurd (cc (met, apart))
        | inr none_met ↦
            let (inside, pairs) = added-IsIndex added ranges h (cc (none_met, apart)) names index in
            let size_of : sizes t.file ≡ size = ap sizes r.0 ∙ is_size in
            (
              (omega (arith, r, size_of), inside),
              (join-Apart t added r.0 name (meets_none t lo hi added ranges r h none_met), pairs),
            )
      ]

  -- An index with the tensors of the file, or the one there was.
  abbrev pub Parses : Parse → Type 0
  Parses (accepted all) =
      IsIndex sizes all
      × ((added : List Tensor) × (all ≡ added ++ tensors) × All (λ t. t.file ≡ file) added)
  Parses (refusal e left) = left ≡ tensors

  names_of : (us : List Tensor) → Pairwise Apart us → Pairwise OneName us
  names_of [] pairs = tt
  names_of (u ∷ us) (apart, pairs) = (one us apart, names_of us pairs)
    where
      one : (vs : List Tensor) → All (Apart u) vs → All (OneName u) vs
      one [] all = tt
      one (v ∷ vs) (a, all) = (a.0, one vs all)

  checked-Parses :
      IsIndex sizes tensors
      → (c : Checked) → Walked c
      → Parses (elim c [
        | stopped e all ↦ refusal e (drop_file file all)
        | checked all ranges ↦
            if overlap ranges then refusal overlapping (drop_file file all) else accepted all
      ])
  checked-Parses index (stopped e all) (added, is, in_file) =
      ap (drop_file file) is ∙ drop_added added in_file
  checked-Parses index (checked all ranges) (added, is, h, names) =
      elim (Bool-cases (overlap ranges)) [
        | inl met ↦ rw met (ap (drop_file file) is ∙ drop_added added (Added-file added ranges h))
        | inr apart ↦ rw apart (
          subst (IsIndex sizes) (sym is) (added-IsIndex added ranges h apart names index),
          (added, is, Added-file added ranges h),
        )
      ]

  -- Where the header ends within the file, the file is smaller than 2 ^ 64 and no tensor of the
  -- index is of the file, parse_file of any parsed header either adds tensors of this file to the
  -- index, which lie in the file, have new names and share no bytes, or refuses the file and
  -- leaves the index as it was.
  pub parse_root-Parses :
      (root : Value)
      → IsIndex sizes tensors
      → Parses (parse_root to_i64 file size base root tensors)
  unfolding parse_root
  parse_root-Parses root index = go (obj_of root)
    where
      go :
          (members : Option Members)
          → Parses (elim members [
            | none ↦ refusal not_object tensors
            | some members ↦ elim (check_members to_i64 file size base members tensors []) [
              | stopped e all ↦ refusal e (drop_file file all)
              | checked all ranges ↦
                  if overlap ranges then refusal overlapping (drop_file file all) else accepted all
            ]
          ])
      go none = refl
      go (some members) =
          checked-Parses index (check_members to_i64 file size base members tensors [])
            (check_members-Walked members [] [] refl (names_of tensors index.1))
