-- ===== src/Safetensors/Search.antt =====
-- The binary search of c/src/safetensors.c.
use qwen3_8_flash_next.Base.{
  ℕ, zero, suc, ◌+◌, ◌/◌, ◌^◌, ◌≤◌, ◌<◌, ◌≡◌, ◌≢◌, refl, sym, ap, ◌∙◌, subst, arith, true, false,
  Option, none, some, List, [], ◌∷◌, ltb, ◌++◌, ◌⊎◌, take, length, get_elem?, add64, Bool-cases,
  inl, inr, Sign, minus, nought, plus, dec_lt, ℕ_discrete,
}
use qwen3_8_flash_next.Safetensors.{
  Tensor, strcmp, search_from, st_find_exact, st_find, behind_prefix, model, language_model,
}

-- Equal texts are equal.
pub strcmp-same : (x y : List ℕ) → strcmp x y ≡ nought → x ≡ y
unfolding strcmp
strcmp-same [] [] e = refl
strcmp-same [] (b ∷ y) e = absurd (cc e)
strcmp-same (a ∷ x) [] e = absurd (cc e)
strcmp-same (a ∷ x) (b ∷ y) e = elim (Bool-cases (ltb a b)) [
  | inl less ↦ absurd (cc (less, e))
  | inr no_less ↦ elim (Bool-cases (ltb b a)) [
    | inl more ↦ absurd (cc (no_less, more, e))
    | inr no_more ↦
        let head : a ≡ b = ground arith in
        let rest : strcmp x y ≡ nought = cc (no_less, no_more, e) in cc (head, strcmp-same x y rest)
  ]
]

pub strcmp_self : (x : List ℕ) → strcmp x x ≡ nought
unfolding strcmp
strcmp_self [] = refl
strcmp_self (a ∷ x) = let h : ltb a a ≡ false = ground arith in rw (h, strcmp_self x)

-- The comparison the other way round.
pub strcmp_flip : (x y : List ℕ) → strcmp x y ≡ minus → strcmp y x ≡ plus
unfolding strcmp
strcmp_flip [] [] e = absurd (cc e)
strcmp_flip [] (b ∷ y) e = refl
strcmp_flip (a ∷ x) [] e = absurd (cc e)
strcmp_flip (a ∷ x) (b ∷ y) e = elim (Bool-cases (ltb a b)) [
  | inl less ↦ let more : ltb b a ≡ false = ground arith in rw (more, less)
  | inr no_less ↦ elim (Bool-cases (ltb b a)) [
    | inl more ↦ absurd (cc (no_less, more, e))
    | inr no_more ↦
        let rest : strcmp x y ≡ minus = cc (no_less, no_more, e) in
        rw (no_less, no_more) (strcmp_flip x y rest)
  ]
]

-- Each tensor stands before those with a larger name.
abbrev pub IsSorted : List Tensor → Type 0
IsSorted tensors =
    (p q : ℕ) (t u : Tensor)
    → p < q
    → get_elem? tensors p ≡ some t
    → get_elem? tensors q ≡ some u
    → strcmp t.name u.name ≡ minus

-- The tensor of the name, or there is none.
abbrev pub Locates : List Tensor → List ℕ → Option Tensor → Type 0
Locates tensors name (some t) = (p : ℕ) × (get_elem? tensors p ≡ some t) × (t.name ≡ name)
Locates tensors name none = (p : ℕ) (t : Tensor) → get_elem? tensors p ≡ some t → t.name ≢ name

pub has_elem :
    {A : Type 0} (xs : List A) (p : ℕ) → p < length xs → (x : A) × (get_elem? xs p ≡ some x)
has_elem [] p lt = absurd (omega arith)
has_elem (x ∷ xs) zero lt = (x, refl)
has_elem (x ∷ xs) (suc p) lt = has_elem xs p (omega arith)

pub elem-below :
    {A : Type 0} (xs : List A) (p : ℕ) (x : A) → get_elem? xs p ≡ some x → p < length xs
elem-below [] p x e = absurd (cc e)
elem-below (y ∷ xs) zero x e = omega arith
elem-below (y ∷ xs) (suc p) x e = omega (arith, elem-below xs p x e)

module _ (tensors : List Tensor) (sorted : IsSorted tensors) (name : List ℕ)
    (few : length tensors < 2 ^ 63) where
  -- What has the name stands from `lo` on and before `hi`.
  abbrev Between : ℕ → ℕ → Type 0
  Between lo hi =
      (p : ℕ) (t : Tensor) → get_elem? tensors p ≡ some t → t.name ≡ name → (lo ≤ p) × (p < hi)

  same_place :
      (p : ℕ) (t u : Tensor)
      → get_elem? tensors p ≡ some t
      → get_elem? tensors p ≡ some u
      → u.name ≡ name
      → strcmp t.name name ≡ nought
  same_place p t u at there is =
      let e : some t ≡ some u = sym at ∙ there in
      let same : t ≡ u = cc e in
      ap (λ (v : Tensor). strcmp v.name name) same ∙ ap (λ x. strcmp x name) is ∙ strcmp_self name

  -- Behind a tensor with a smaller name stands what has the name.
  behind :
      (p q : ℕ) (t u : Tensor)
      → get_elem? tensors p ≡ some t
      → get_elem? tensors q ≡ some u
      → u.name ≡ name
      → strcmp t.name name ≡ minus
      → p < q
  behind p q t u at there is less = elim (dec_lt p q) [
    | yes after ↦ after
    | no not_after ↦ elim (ℕ_discrete q p) [
      | yes here ↦
          let same =
            same_place p t u at (subst (λ i. get_elem? tensors i ≡ some u) here there) is in
          absurd (cc (same, less))
      | no other ↦
          let flipped =
            strcmp_flip u.name t.name (sorted q p u t (omega (arith, not_after, other)) there at) in
          absurd (cc (ap (strcmp t.name) is, flipped, less))
    ]
  ]

  before :
      (p q : ℕ) (t u : Tensor)
      → get_elem? tensors p ≡ some t
      → get_elem? tensors q ≡ some u
      → u.name ≡ name
      → strcmp t.name name ≡ plus
      → q < p
  before p q t u at there is more = elim (dec_lt q p) [
    | yes first ↦ first
    | no not_first ↦ elim (ℕ_discrete q p) [
      | yes here ↦
          let same =
            same_place p t u at (subst (λ i. get_elem? tensors i ≡ some u) here there) is in
          absurd (cc (same, more))
      | no other ↦
          let less = sorted p q t u (omega (arith, not_first, other)) at there in
          absurd (cc (ap (strcmp t.name) is, less, more))
    ]
  ]

  -- What a round does with the order of the tensor in the middle.
  abbrev chosen : ℕ → ℕ → ℕ → Tensor → Sign → Option Tensor
  chosen left lo hi t nought = some t
  chosen left lo hi t minus = search_from left tensors name (add64 lo hi / 2 + 1) hi
  chosen left lo hi t plus = search_from left tensors name lo (add64 lo hi / 2)

  round_lem :
      (left lo hi : ℕ) (t : Tensor)
      → ltb lo hi ≡ true
      → get_elem? tensors (add64 lo hi / 2) ≡ some t
      → search_from (suc left) tensors name lo hi ≡ chosen left lo hi t (strcmp t.name name)
  unfolding search_from
  round_lem left lo hi t more at = rw (search_from, more, at) (go (strcmp t.name name))
    where
      go :
          (s : Sign)
          → (elim s [
            | nought ↦ some t
            | minus ↦ search_from left tensors name (add64 lo hi / 2 + 1) hi
            | plus ↦ search_from left tensors name lo (add64 lo hi / 2)
          ])
            ≡ chosen left lo hi t s
      go nought = refl
      go minus = refl
      go plus = refl

  search_from-Locates :
      (left lo hi : ℕ)
      → hi ≤ length tensors
      → hi ≤ lo + left
      → Between lo hi
      → Locates tensors name (search_from left tensors name lo hi)
  unfolding search_from
  search_from-Locates zero lo hi inside deep between =
      λ p t at is. absurd (omega (arith, between p t at is, deep))
  search_from-Locates (suc left) lo hi inside deep between = elim (Bool-cases (ltb lo hi)) [
    | inr empty ↦ rw (search_from, empty) (λ p t at is. absurd (ground (arith, between p t at is)))
    | inl more ↦
        let (t, at) = has_elem tensors (add64 lo hi / 2) (ground arith) in
        subst (Locates tensors name) (sym (round_lem left lo hi t more at)) (
          go t at (ground arith) (strcmp t.name name) refl
            (search_from-Locates left (add64 lo hi / 2 + 1) hi inside (ground arith))
            (search_from-Locates left lo (add64 lo hi / 2) (ground arith) (ground arith)))
  ]
    where
      go :
          (t : Tensor)
          → get_elem? tensors (add64 lo hi / 2) ≡ some t
          → add64 lo hi / 2 < hi
          → (s : Sign) → strcmp t.name name ≡ s
          → (Between (add64 lo hi / 2 + 1) hi
              → Locates tensors name (search_from left tensors name (add64 lo hi / 2 + 1) hi))
          → (Between lo (add64 lo hi / 2)
              → Locates tensors name (search_from left tensors name lo (add64 lo hi / 2)))
          → Locates tensors name (chosen left lo hi t s)
      go t at lt nought e above below = (add64 lo hi / 2, at, strcmp-same t.name name e)
      go t at lt minus e above below = above (λ p u there is.
          (omega (arith, behind (add64 lo hi / 2) p t u at there is e), (between p u there is).1))
      go t at lt plus e above below =
          below (λ p u there is.
            ((between p u there is).0, before (add64 lo hi / 2) p t u at there is e))

  -- The search finds the tensor of a name, or there is none.
  pub st_find_exact-Locates : Locates tensors name (st_find_exact tensors name)
  unfolding st_find_exact
  st_find_exact-Locates =
      search_from-Locates (length tensors) 0 (length tensors) (omega arith) (omega arith)
        (λ p t at is. (omega arith, elem-below tensors p t at))

-- A tensor of the name, or of the name with the prefix if there is none of the name itself.
abbrev pub Finds : List Tensor → List ℕ → Option (List ℕ) → Option Tensor → Type 0
Finds tensors name rest (some t) =
    Locates tensors name (some t)
    ⊎ (Locates tensors name none
        × (rest ≢ none)
        × Locates tensors (take 511 (language_model ++ name)) (some t))
Finds tensors name none none = Locates tensors name none
Finds tensors name (some rest) none =
    Locates tensors name none × Locates tensors (take 511 (language_model ++ name)) none

-- In fewer than 2 ^ 63 tensors that are sorted by different names, st_find of a name finds the
-- tensor of the name; if there is none and the name begins with "model.", it finds that of the
-- first 511 bytes of "language_model." and the name; and it finds none only where there is
-- neither.
pub st_find-Finds :
    (tensors : List Tensor) (name : List ℕ)
    → IsSorted tensors
    → length tensors < 2 ^ 63
    → Finds tensors name (behind_prefix model name) (st_find tensors name)
unfolding st_find
st_find-Finds tensors name sorted few =
    go (behind_prefix model name) (st_find_exact tensors name)
      (st_find_exact-Locates tensors sorted name few)
  where
    second :
        (rest : List ℕ) (o : Option Tensor)
        → Locates tensors name none
        → Locates tensors (take 511 (language_model ++ name)) o
        → Finds tensors name (some rest) o
    second rest none missing h = (missing, h)
    second rest (some t) missing h = inr (missing, (λ e. absurd (cc e)), h)

    go :
        (rest : Option (List ℕ)) (o : Option Tensor)
        → Locates tensors name o
        → Finds tensors name rest (elim o [
          | some t ↦ some t
          | none ↦ elim rest [
            | none ↦ none
            | some rest ↦ st_find_exact tensors (take 511 (language_model ++ name))
          ]
        ])
    go none (some t) h = inl h
    go (some rest) (some t) h = inl h
    go none none h = h
    go (some rest) none h =
        second rest (st_find_exact tensors (take 511 (language_model ++ name))) h
          (st_find_exact-Locates tensors sorted (take 511 (language_model ++ name)) few)
