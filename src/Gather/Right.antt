-- ===== src/Gather/Right.antt =====
-- The rows that are in their places, and that a copy of one more keeps them.
use qwen3_8_flash_next.Base.{
  ℕ, zero, suc, ◌+◌, ◌-◌, ◌*◌, ◌≤◌, ◌<◌, ◌≡◌, ◌≢◌, refl, sym, ap, ◌∙◌, subst, arith, true, false,
  ◌&&◌, List, [], ◌∷◌, ◌++◌, ltb, leb, length, get_or, take, drop, take_nil, drop-append,
  take-append, Any, inl, inr, ◌⊎◌, dec_lt, ℕ_discrete,
}
use qwen3_8_flash_next.Gather.{copy, put_row}
use qwen3_8_flash_next.Pread.Fill.{content, length-content, content-append, get_or-content}

pub mul_add : (a b c : ℕ) → (a + b) * c ≡ a * c + b * c
mul_add a b c = grind arith

pub mul_le : (a b c : ℕ) → a ≤ b → a * c ≤ b * c
mul_le a b c le = grind arith

length-take : (n : ℕ) (xs : List ℕ) → length (take n xs) ≤ n
length-take zero xs = omega arith
length-take (suc n) [] = omega arith
length-take (suc n) (x ∷ xs) = omega (arith, length-take n xs)

-- A stretch of a stretch.
pub content-slice :
    (file : ℕ → ℕ) (at n a m : ℕ)
    → a + m ≤ n
    → take m (drop a (content file at n)) ≡ content file (at + a) m
content-slice file at n a m le =
    let split : content file at n
        ≡ content file at a
          ++ (content file (at + a) m ++ content file (at + a + m) (n - (a + m))) =
      ap (content file at) (let z : n ≡ a + (m + (n - (a + m))) = omega arith in z)
      ∙ sym (content-append file at a (m + (n - (a + m))))
      ∙ ap (λ xs. content file at a ++ xs) (sym (content-append file (at + a) m (n - (a + m)))) in
    ap (λ xs. take m (drop a xs)) split
    ∙ ap (take m) (drop_front a (content file at a) _ (length-content file at a))
    ∙ take_front m (content file (at + a) m) _ (length-content file (at + a) m)
  where
    drop_front : (k : ℕ) (xs ys : List ℕ) → length xs ≡ k → drop k (xs ++ ys) ≡ ys
    drop_front k xs ys e = ap (λ i. drop i (xs ++ ys)) (sym e) ∙ drop-append xs ys

    take_front : (k : ℕ) (xs ys : List ℕ) → length xs ≡ k → take k (xs ++ ys) ≡ xs
    take_front k xs ys e = ap (λ i. take i (xs ++ ys)) (sym e) ∙ take-append xs ys

-- What stands in the first bytes stands in the whole.
pub take-drop-take :
    (xs : List ℕ) (a m n : ℕ) → a + m ≤ n → take m (drop a (take n xs)) ≡ take m (drop a xs)
take-drop-take [] a m n le = ap (λ ys. take m (drop a ys)) (take_nil n)
take-drop-take (x ∷ xs) a zero n le = refl
take-drop-take (x ∷ xs) a (suc m) zero le = absurd (omega arith)
take-drop-take (x ∷ xs) zero (suc m) (suc n) le =
    ap (λ ys. x ∷ ys) (take-drop-take xs zero m n (omega arith))
take-drop-take (x ∷ xs) (suc a) (suc m) (suc n) le = take-drop-take xs a (suc m) n (omega arith)

pub copy_inside :
    (out : ℕ → ℕ) (at : ℕ) (bytes : List ℕ) (j : ℕ)
    → j < length bytes
    → copy out at bytes (at + j) ≡ get_or bytes j 0
unfolding copy
copy_inside out at bytes j lt =
    let h : (leb at (at + j) && ltb (at + j) (at + length bytes)) ≡ true = ground arith in
    rw h (ap (λ i. get_or bytes i 0) (let z : at + j - at ≡ j = omega arith in z))

pub copy_outside :
    (out : ℕ → ℕ) (at : ℕ) (bytes : List ℕ) (p : ℕ)
    → (p < at) ⊎ (at + length bytes ≤ p)
    → copy out at bytes p ≡ out p
unfolding copy
copy_outside out at bytes p away =
    let h : (leb at p && ltb p (at + length bytes)) ≡ false = ground arith in rw h refl

module _ {A : Type 0} (row place : A → ℕ) (row_bytes : ℕ) (file : ℕ → ℕ) (base : ℕ) (wanted : ℕ → ℕ)
    (n : ℕ) where
  -- The bytes of the wanted row stand in their place.
  abbrev pub Right : (ℕ → ℕ) → ℕ → Type 0
  Right out i =
      (j : ℕ) → j < row_bytes → out (i * row_bytes + j) ≡ file (base + wanted i * row_bytes + j)

  -- The request is that for the row of place `i`.
  abbrev pub IsFor : ℕ → A → Type 0
  IsFor i a = (place a ≡ i) × (row a ≡ wanted i)

  -- Every place has its row, or a request that is still to be met; nothing behind the last place
  -- is touched.
  pub record Inv (before out : ℕ → ℕ) (left : List A) : Type 0 where
    pub each : (i : ℕ) → i < n → Right out i ⊎ Any (IsFor i) left
    pub behind : (p : ℕ) → n * row_bytes ≤ p → out p ≡ before p

  module _ (out : ℕ → ℕ) (a : A) (start count : ℕ) (lo : start ≤ row a) (hi : row a < start + count)
      (block : List ℕ)
      (holds : take (count * row_bytes) block
        ≡ content file (base + start * row_bytes) (count * row_bytes)) where
    bytes : List ℕ
    bytes = take row_bytes (drop ((row a - start) * row_bytes) block)

    bytes_are : bytes ≡ content file (base + row a * row_bytes) row_bytes
    unfolding bytes
    bytes_are =
        let delta : (row a - start) * row_bytes + start * row_bytes ≡ row a * row_bytes =
          sym (mul_add (row a - start) start row_bytes)
          ∙ ap (λ r. r * row_bytes) (let z : row a - start + start ≡ row a = omega arith in z) in
        let next : (row a - start) * row_bytes + row_bytes ≤ count * row_bytes = omega (
          arith,
          mul_le (row a - start + 1) count row_bytes (omega arith),
          mul_add (row a - start) 1 row_bytes,
        ) in
        sym (take-drop-take block ((row a - start) * row_bytes) row_bytes (count * row_bytes) next)
        ∙ ap (λ b. take row_bytes (drop ((row a - start) * row_bytes) b)) holds
        ∙ content-slice file (base + start * row_bytes) (count * row_bytes)
            ((row a - start) * row_bytes) row_bytes next
        ∙ ap (λ o. content file o row_bytes) (omega (arith, delta))

    length-bytes : length bytes ≡ row_bytes
    length-bytes = ap length bytes_are ∙ length-content file (base + row a * row_bytes) row_bytes

    put_row_lem :
        put_row row place row_bytes start block out a ≡ copy out (place a * row_bytes) bytes
    unfolding put_row bytes
    put_row_lem = refl

    put_row_here :
        row a ≡ wanted (place a) → Right (put_row row place row_bytes start block out a) (place a)
    put_row_here is_for j lt =
        ap (λ f. f (place a * row_bytes + j)) put_row_lem
        ∙ copy_inside out (place a * row_bytes) bytes j (omega (arith, lt, length-bytes))
        ∙ ap (λ xs. get_or xs j 0) bytes_are
        ∙ get_or-content file (base + row a * row_bytes) row_bytes j lt
        ∙ ap (λ r. file (base + r * row_bytes + j)) is_for

    put_row_away :
        (p : ℕ)
        → (p < place a * row_bytes) ⊎ (place a * row_bytes + row_bytes ≤ p)
        → put_row row place row_bytes start block out a p ≡ out p
    put_row_away p away =
        ap (λ f. f p) put_row_lem
        ∙ copy_outside out (place a * row_bytes) bytes p (
            subst (λ l. (p < place a * row_bytes) ⊎ (place a * row_bytes + l ≤ p))
              (sym length-bytes) away)

    -- The places do not overlap.
    elsewhere :
        (i j : ℕ)
        → i ≢ place a
        → j < row_bytes
        → (i * row_bytes + j < place a * row_bytes)
          ⊎ (place a * row_bytes + row_bytes ≤ i * row_bytes + j)
    elsewhere i j other lt = elim (dec_lt i (place a)) [
      | yes before ↦ inl (
          omega
            (arith, lt, mul_le (i + 1) (place a) row_bytes (omega arith), mul_add i 1 row_bytes))
      | no after ↦
          let above : place a + 1 ≤ i = ground (arith, other) in
          inr (omega (arith, mul_le (place a + 1) i row_bytes above, mul_add (place a) 1 row_bytes))
    ]

    put_row_keeps :
        (i : ℕ)
        → i ≢ place a
        → Right out i
        → Right (put_row row place row_bytes start block out a) i
    put_row_keeps i other right j lt =
        put_row_away (i * row_bytes + j) (elsewhere i j other lt) ∙ right j lt

  pub put_row-Inv :
      (before out : ℕ → ℕ) (a : A) (left : List A) (start count : ℕ) (block : List ℕ)
      → Inv before out (a ∷ left)
      → place a < n
      → row a ≡ wanted (place a)
      → start ≤ row a
      → row a < start + count
      → take (count * row_bytes) block ≡ content file (base + start * row_bytes) (count * row_bytes)
      → Inv before (put_row row place row_bytes start block out a) left
  put_row-Inv before out a left start count block inv inside is_for lo hi holds = record {
    each = λ i lt. elim (ℕ_discrete i (place a)) [
      | yes here ↦ inl (
          subst (Right (put_row row place row_bytes start block out a)) (sym here)
            (put_row_here out a start count lo hi block holds is_for))
      | no other ↦ elim (inv.each i lt) [
        | inl right ↦ inl (put_row_keeps out a start count lo hi block holds i other right)
        | inr (inl (is_place, is_row)) ↦ absurd (other (sym is_place))
        | inr (inr later) ↦ inr later
      ]
    ];
    behind = λ p le.
        put_row_away out a start count lo hi block holds p (
          inr (
            omega (
              arith,
              le,
              mul_le (place a + 1) n row_bytes (omega arith),
              mul_add (place a) 1 row_bytes,
            )))
        ∙ inv.behind p le;
  }

  -- Whatever the block holds, a row is put nowhere behind the last place.
  pub put_row_behind :
      (out : ℕ → ℕ) (a : A) (start : ℕ) (block : List ℕ) (p : ℕ)
      → place a < n
      → n * row_bytes ≤ p
      → put_row row place row_bytes start block out a p ≡ out p
  unfolding put_row
  put_row_behind out a start block p lt le =
      copy_outside out (place a * row_bytes)
        (take row_bytes (drop ((row a - start) * row_bytes) block)) p
        (inr (
          omega (
            arith,
            le,
            mul_le (place a + 1) n row_bytes (omega arith),
            mul_add (place a) 1 row_bytes,
            length-take row_bytes (drop ((row a - start) * row_bytes) block),
          )))
