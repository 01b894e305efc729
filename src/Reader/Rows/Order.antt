-- ===== src/Reader/Rows/Order.antt =====
-- The insertion sort of c/src/reader.c: `order` is ascending and has every index.
use qwen3_8_flash_next.Base.{
  ℕ, zero, suc, ◌+◌, ◌≤◌, ◌<◌, ◌≡◌, refl, ap, subst, arith, List, [], ◌∷◌, ltb, length, get_or, All,
  Any, Bool-cases, inl, inr, ◌⊎◌,
}
use qwen3_8_flash_next.Reader.Rows.{indices_from, shift_in, sort_onto, forwards, sorted_order}

pub All-map :
    {A : Type 0} (P Q : A → Type 0) → ((a : A) → P a → Q a) → (xs : List A) → All P xs → All Q xs
All-map P Q h [] all = tt
All-map P Q h (x ∷ xs) (p, all) = (h x p, All-map P Q h xs all)

module _ (rows : List ℕ) where
  abbrev pub row : ℕ → ℕ
  row o = get_or rows o 0

  -- Each element is not below those behind it.
  abbrev Descends : List ℕ → Type 0
  Descends [] = Unit
  Descends (o ∷ sorted) = All (λ p. row p ≤ row o) sorted × Descends sorted

  abbrev pub Ascends : List ℕ → Type 0
  Ascends [] = Unit
  Ascends (o ∷ order) = All (λ p. row o ≤ row p) order × Ascends order

  shift_in-All :
      (P : ℕ → Type 0) (key : ℕ) (sorted : List ℕ)
      → P key
      → All P sorted
      → All P (shift_in rows key sorted)
  unfolding shift_in
  shift_in-All P key [] p all = (p, tt)
  shift_in-All P key (o ∷ sorted) p (q, all) = elim (Bool-cases (ltb (row key) (row o))) [
    | inl less ↦ rw less (q, shift_in-All P key sorted p all)
    | inr here ↦ rw here (p, (q, all))
  ]

  shift_in-Any :
      (P : ℕ → Type 0) (key : ℕ) (sorted : List ℕ)
      → P key ⊎ Any P sorted
      → Any P (shift_in rows key sorted)
  unfolding shift_in
  shift_in-Any P key [] (inl p) = inl p
  shift_in-Any P key [] (inr any) = absurd any
  shift_in-Any P key (o ∷ sorted) h = elim (Bool-cases (ltb (row key) (row o))) [
    | inr here ↦ rw here h
    | inl less ↦ rw less (elim h [
      | inl p ↦ inr (shift_in-Any P key sorted (inl p))
      | inr (inl q) ↦ inl q
      | inr (inr any) ↦ inr (shift_in-Any P key sorted (inr any))
    ])
  ]

  shift_in-Descends :
      (key : ℕ) (sorted : List ℕ) → Descends sorted → Descends (shift_in rows key sorted)
  unfolding shift_in
  shift_in-Descends key [] h = (tt, tt)
  shift_in-Descends key (o ∷ sorted) (below, h) = elim (Bool-cases (ltb (row key) (row o))) [
    | inl less ↦ rw less (
      shift_in-All (λ p. row p ≤ row o) key sorted (ground arith) below,
      shift_in-Descends key sorted h,
    )
    | inr here ↦
        let le : row o ≤ row key = ground arith in
        rw here (
          (
            le,
            All-map (λ p. row p ≤ row o) (λ p. row p ≤ row key) (λ p q. omega arith) sorted below,
          ),
          (below, h),
        )
  ]

  sort_onto-Descends :
      (order sorted : List ℕ) → Descends sorted → Descends (sort_onto rows order sorted)
  unfolding sort_onto
  sort_onto-Descends [] sorted h = h
  sort_onto-Descends (key ∷ order) sorted h =
      sort_onto-Descends order (shift_in rows key sorted) (shift_in-Descends key sorted h)

  sort_onto-All :
      (P : ℕ → Type 0) (order sorted : List ℕ)
      → All P order
      → All P sorted
      → All P (sort_onto rows order sorted)
  unfolding sort_onto
  sort_onto-All P [] sorted all h = h
  sort_onto-All P (key ∷ order) sorted (p, all) h =
      sort_onto-All P order (shift_in rows key sorted) all (shift_in-All P key sorted p h)

  sort_onto-Any :
      (P : ℕ → Type 0) (order sorted : List ℕ)
      → Any P order ⊎ Any P sorted
      → Any P (sort_onto rows order sorted)
  unfolding sort_onto
  sort_onto-Any P [] sorted (inl any) = absurd any
  sort_onto-Any P [] sorted (inr h) = h
  sort_onto-Any P (key ∷ order) sorted h =
      sort_onto-Any P order (shift_in rows key sorted) (elim h [
        | inl (inl p) ↦ inr (shift_in-Any P key sorted (inl p))
        | inl (inr any) ↦ inl any
        | inr any ↦ inr (shift_in-Any P key sorted (inr any))
      ])

  forwards-All :
      (P : ℕ → Type 0) (sorted order : List ℕ)
      → All P sorted
      → All P order
      → All P (forwards sorted order)
  unfolding forwards
  forwards-All P [] order all h = h
  forwards-All P (o ∷ sorted) order (p, all) h = forwards-All P sorted (o ∷ order) all (p, h)

  forwards-Any :
      (P : ℕ → Type 0) (sorted order : List ℕ)
      → Any P sorted ⊎ Any P order
      → Any P (forwards sorted order)
  unfolding forwards
  forwards-Any P [] order (inl any) = absurd any
  forwards-Any P [] order (inr h) = h
  forwards-Any P (o ∷ sorted) order h =
      forwards-Any P sorted (o ∷ order)
        (elim h [ inl (inl p) ↦ inr (inl p) | inl (inr any) ↦ inl any | inr any ↦ inr (inr any) ])

  forwards-Ascends :
      (sorted order : List ℕ)
      → Descends sorted
      → Ascends order
      → All (λ p. All (λ q. row p ≤ row q) order) sorted
      → Ascends (forwards sorted order)
  unfolding forwards
  forwards-Ascends [] order d a h = a
  forwards-Ascends (o ∷ sorted) order (below, d) a (least, h) =
      forwards-Ascends sorted (o ∷ order) d (least, a) (both sorted below h)
    where
      both :
          (s : List ℕ)
          → All (λ p. row p ≤ row o) s
          → All (λ p. All (λ q. row p ≤ row q) order) s
          → All (λ p. All (λ q. row p ≤ row q) (o ∷ order)) s
      both [] le all = tt
      both (p ∷ s) (l, le) (q, all) = ((l, q), both s le all)

  indices_from-All : (n i : ℕ) → All (λ p. p < i + n) (indices_from n i)
  unfolding indices_from
  indices_from-All zero i = tt
  indices_from-All (suc n) i = (
    omega arith,
    subst (λ b. All (λ p. p < b) (indices_from n (i + 1)))
        (let z : i + 1 + n ≡ i + suc n = omega arith in z) (indices_from-All n (i + 1)),
  )

  indices_from-Any : (n i p : ℕ) → i ≤ p → p < i + n → Any (λ q. q ≡ p) (indices_from n i)
  unfolding indices_from
  indices_from-Any zero i p lo hi = absurd (omega arith)
  indices_from-Any (suc n) i p lo hi = elim (Bool-cases (ltb i p)) [
    | inr here ↦ inl (ground arith)
    | inl later ↦ inr (indices_from-Any n (i + 1) p (ground arith) (omega arith))
  ]

  abbrev sorted_back : List ℕ
  sorted_back = sort_onto rows (indices_from (length rows) 0) []

  sorted_back-Descends : Descends sorted_back
  sorted_back-Descends = sort_onto-Descends (indices_from (length rows) 0) [] tt

  pub sorted_order-Ascends : Ascends (sorted_order rows)
  unfolding sorted_order
  sorted_order-Ascends =
      forwards-Ascends sorted_back [] sorted_back-Descends tt (nothing sorted_back)
    where
      nothing : (s : List ℕ) → All (λ p. Unit {0}) s
      nothing [] = tt
      nothing (p ∷ s) = (tt, nothing s)

  pub sorted_order-All : All (λ p. p < length rows) (sorted_order rows)
  unfolding sorted_order
  sorted_order-All =
      forwards-All (λ p. p < length rows) sorted_back []
        (sort_onto-All (λ p. p < length rows) (indices_from (length rows) 0) []
          (subst (λ b. All (λ p. p < b) (indices_from (length rows) 0))
            (let z : 0 + length rows ≡ length rows = omega arith in z)
            (indices_from-All (length rows) 0))
          tt)
        tt

  pub sorted_order-Any : (p : ℕ) → p < length rows → Any (λ q. q ≡ p) (sorted_order rows)
  unfolding sorted_order
  sorted_order-Any p lt =
      forwards-Any (λ q. q ≡ p) sorted_back []
        (inl (
          sort_onto-Any (λ q. q ≡ p) (indices_from (length rows) 0) []
            (inl (indices_from-Any (length rows) 0 p (omega arith) (omega arith)))))

  length-indices_from : (n i : ℕ) → length (indices_from n i) ≡ n
  unfolding indices_from
  length-indices_from zero i = refl
  length-indices_from (suc n) i = ap suc (length-indices_from n (i + 1))

  length-shift_in :
      (key : ℕ) (sorted : List ℕ) → length (shift_in rows key sorted) ≡ suc (length sorted)
  unfolding shift_in
  length-shift_in key [] = refl
  length-shift_in key (o ∷ sorted) = elim (Bool-cases (ltb (row key) (row o))) [
    | inl less ↦ rw less (ap suc (length-shift_in key sorted))
    | inr here ↦ rw here refl
  ]

  length-sort_onto :
      (order sorted : List ℕ) → length (sort_onto rows order sorted) ≡ length order + length sorted
  unfolding sort_onto
  length-sort_onto [] sorted = omega arith
  length-sort_onto (key ∷ order) sorted =
      omega (arith, length-sort_onto order (shift_in rows key sorted), length-shift_in key sorted)

  length-forwards :
      (sorted order : List ℕ) → length (forwards sorted order) ≡ length sorted + length order
  unfolding forwards
  length-forwards [] order = omega arith
  length-forwards (o ∷ sorted) order = omega (arith, length-forwards sorted (o ∷ order))

  pub length-sorted_order : length (sorted_order rows) ≡ length rows
  unfolding sorted_order
  length-sorted_order = omega (
    arith,
    length-forwards sorted_back [],
    length-sort_onto (indices_from (length rows) 0) [],
    length-indices_from (length rows) 0,
  )
