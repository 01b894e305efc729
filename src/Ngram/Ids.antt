-- ===== src/Ngram/Ids.antt =====
-- The rows that `ngram_indices` of c/src/ngram.c asks for lie in the tables of their heads.
use native.Mathlib.Nat.{mod-lt, suc-mul, zero-mul}
use qwen3_8_flash_next.Base.{
  ℕ, zero, suc, ◌+◌, ◌-◌, ◌*◌, ◌%◌, ◌^◌, ◌≤◌, ◌<◌, ◌≡◌, refl, sym, ap, ◌∙◌, subst, arith, true,
  false, List, [], ◌∷◌, ◌++◌, ◌==◌, ltb, if◌then◌else◌, length, length-append, get_or, Bool-cases,
  inl, inr, ◌⊎◌, add64, dec_lt,
}
use qwen3_8_flash_next.Gather.Right.{mul_le}
use qwen3_8_flash_next.Ngram.{
  Geo, signed_mod, wrap, head_ids, row_from, rows_from, store_row, starts, mix, indices,
}

wrap-signed_mod_lt : (mixed size : ℕ) → 0 < size → wrap (signed_mod mixed size) size < size
unfolding wrap signed_mod
wrap-signed_mod_lt mixed size some_size = elim (Bool-cases (ltb mixed (2 ^ 63))) [
  | inl plain ↦ rw plain (mod-lt mixed some_size)
  | inr negative ↦ elim (Bool-cases ((2 ^ 64 - mixed) % size == 0)) [
    | inl none_left ↦ rw (negative, none_left) some_size
    | inr left ↦ rw (negative, left) (ground (arith, mod-lt (2 ^ 64 - mixed) some_size))
  ]
]

-- The table of a head.
abbrev pub InTable : Geo → ℕ → ℕ → Type 0
InTable g head v =
    (get_or g.offsets head 0 ≤ v) × (v < get_or g.offsets head 0 + get_or g.sizes head 0)

-- A list with one row for each head from `head` on.
abbrev Within : Geo → ℕ → List ℕ → Type 0
Within g head [] = Unit
Within g head (v ∷ vs) = InTable g head v × Within g (head + 1) vs

Within-append :
    (g : Geo) (head : ℕ) (xs ys : List ℕ)
    → Within g head xs
    → Within g (head + length xs) ys
    → Within g head (xs ++ ys)
Within-append g head [] ys w w' = subst (λ h. Within g h ys) (omega arith) w'
Within-append g head (x ∷ xs) ys (i, w) w' =
    (i, Within-append g (head + 1) xs ys w (subst (λ h. Within g h ys) (omega arith) w'))

-- The table has rows, and ends below 2 ^ 63.
abbrev pub IsTable : Geo → ℕ → Type 0
IsTable g k = (0 < get_or g.sizes k 0) × (get_or g.offsets k 0 + get_or g.sizes k 0 < 2 ^ 63)

-- A geometry as `ngram_geo_compute` makes it.
pub record IsGeo (g : Geo) : Type 0 where
  pub heads_are : g.ngram_heads ≡ (g.ngram_size - 1) * g.heads_per_ngram
  pub few_heads : g.ngram_heads ≤ 16
  pub tables : (k : ℕ) → k < g.ngram_heads → IsTable g k
  pub apart :
      (j k : ℕ)
      → j < k
      → k < g.ngram_heads
      → get_or g.offsets j 0 + get_or g.sizes j 0 ≤ get_or g.offsets k 0
  pub within :
      (k : ℕ) → k < g.ngram_heads → get_or g.offsets k 0 + get_or g.sizes k 0 ≤ g.total_rows
  pub all_multipliers : length g.multipliers ≡ g.ngram_size

-- A list of exactly `n` rows, one for each head from `head` on.
abbrev Rows : Geo → ℕ → ℕ → List ℕ → Type 0
Rows g head n xs = Within g head xs × (length xs ≡ n)

head_ids-Rows :
    (g : Geo) (mixed left head : ℕ)
    → ((k : ℕ) → head ≤ k → k < head + left → IsTable g k)
    → Rows g head left (head_ids g mixed left head)
unfolding head_ids
head_ids-Rows g mixed zero head some_size = (tt, refl)
head_ids-Rows g mixed (suc left) head some_size =
    let (w, len) =
      head_ids-Rows g mixed left (head + 1) (λ k lo hi. some_size k (omega arith) (omega arith)) in
    let size = get_or g.sizes head 0 in
    let lt = wrap-signed_mod_lt mixed size ((some_size head (omega arith) (omega arith)).0) in
    let (some_rows, ends) = some_size head (omega arith) (omega arith) in
    let exact : add64 (wrap (signed_mod mixed size) size) (get_or g.offsets head 0)
        ≡ wrap (signed_mod mixed size) size + get_or g.offsets head 0 =
      omega (arith, lt, ends) in
    (((omega (arith, exact), omega (arith, exact, lt)), w), ap suc len)

product : (p left n : ℕ) → p * n + n ≤ (p + suc left) * n
product p left n = grind arith

next_head : (p n : ℕ) → (p + 1) * n ≡ p * n + n
next_head p n = grind arith

row_from-Rows :
    (g : Geo) (tokens : List ℕ) (start t left p : ℕ)
    → ((k : ℕ) → k < (p + left) * g.heads_per_ngram → IsTable g k)
    → Rows g
        (p * g.heads_per_ngram)
        (left * g.heads_per_ngram)
        (row_from g tokens start t left (p + 1))
unfolding row_from
row_from-Rows g tokens start t zero p some_size = (tt, omega arith)
row_from-Rows g tokens start t (suc left) p some_size =
    let back : p + 1 - 1 ≡ p = omega arith in
    let hpn = g.heads_per_ngram in
    let mixed = mix g tokens start t (p + 1 + 1) 0 0 in
    let (w, len) =
      head_ids-Rows g mixed hpn (p * hpn)
        (λ k lo hi. some_size k (omega (arith, product p left hpn))) in
    let (w', len') =
      row_from-Rows g tokens start t left (p + 1)
        (λ k hi. some_size k (subst (λ n. k < n * hpn) (omega arith) hi)) in
    rw back (
      Within-append g (p * hpn) (head_ids g mixed hpn (p * hpn))
          (row_from g tokens start t left (p + 1 + 1)) w
          (subst (λ h. Within g h (row_from g tokens start t left (p + 1 + 1)))
            (next_head p hpn ∙ ap (λ n. p * hpn + n) (sym len)) w'),
      length-append (head_ids g mixed hpn (p * hpn)) (row_from g tokens start t left (p + 1 + 1))
          ∙ omega (arith, len, len', suc-mul left hpn),
    )

first_row :
    (g : Geo) (tokens : List ℕ) (start t : ℕ)
    → ((k : ℕ) → k < (g.ngram_size - 1) * g.heads_per_ngram → IsTable g k)
    → Rows g 0
        ((g.ngram_size - 1) * g.heads_per_ngram)
        (row_from g tokens start t (g.ngram_size - 1) 1)
first_row g tokens start t some_size =
    subst
      (λ h.
        Rows g h ((g.ngram_size - 1) * g.heads_per_ngram)
          (row_from g tokens start t (g.ngram_size - 1) 1))
      (zero-mul g.heads_per_ngram)
      (row_from-Rows g tokens start t (g.ngram_size - 1) 0
        (λ k lt. some_size k (subst (λ n. k < n * g.heads_per_ngram) (omega arith) lt)))

length-starts :
    (eos : ℕ) (tokens : List ℕ) (t start : ℕ) → length (starts eos tokens t start) ≡ length tokens
unfolding starts
length-starts eos [] t start = refl
length-starts eos (x ∷ xs) t start =
    ap suc (length-starts eos xs (t + 1) (if x == eos then t + 1 else start))

-- What a row leaves in its place, and what it leaves alone.
store_row-away :
    (out : ℕ → ℕ) (at : ℕ) (row : List ℕ) (i : ℕ)
    → (i < at) ⊎ (at + length row ≤ i)
    → store_row out at row i ≡ out i
unfolding store_row
store_row-away out at [] i away = refl
store_row-away out at (v ∷ row) i away =
    let other : (i == at) ≡ false = ground (arith, away) in
    store_row-away (λ j. if j == at then v else out j) (at + 1) row i (ground (arith, away))
    ∙ rw other refl

store_row-here :
    (out : ℕ → ℕ) (at : ℕ) (row : List ℕ) (j : ℕ)
    → j < length row
    → store_row out at row (at + j) ≡ get_or row j 0
unfolding store_row
store_row-here out at [] j lt = absurd (omega arith)
store_row-here out at (v ∷ row) zero lt =
    let same : (at + 0 == at) ≡ true = ground arith in
    store_row-away (λ i. if i == at then v else out i) (at + 1) row (at + 0) (inl (omega arith))
    ∙ rw same refl
store_row-here out at (v ∷ row) (suc j) lt =
    let e : at + suc j ≡ at + 1 + j = omega arith in
    ap (store_row (λ i. if i == at then v else out i) (at + 1) row) e
    ∙ store_row-here (λ i. if i == at then v else out i) (at + 1) row j (omega arith)

Within-at :
    (g : Geo) (head : ℕ) (row : List ℕ) (j : ℕ)
    → Within g head row
    → j < length row
    → InTable g (head + j) (get_or row j 0)
Within-at g head [] j w lt = absurd (omega arith)
Within-at g head (v ∷ row) zero (i, w) lt =
    subst (λ h. InTable g h v) (let z : head ≡ head + 0 = omega arith in z) i
Within-at g head (v ∷ row) (suc j) (i, w) lt =
    subst (λ h. InTable g h (get_or row j 0))
      (let z : head + 1 + j ≡ head + suc j = omega arith in z)
      (Within-at g (head + 1) row j w (omega arith))

module _ (g : Geo) (is_geo : IsGeo g) where
  abbrev pub heads : ℕ
  heads = g.ngram_heads

  -- The places of the tokens from `t` to before `u` hold rows of the tables of their heads.
  abbrev pub Filled : ℕ → ℕ → (ℕ → ℕ) → Type 0
  Filled t u out = (i j : ℕ) → t ≤ i → i < u → j < heads → InTable g j (out (i * heads + j))

  -- Outside of these places nothing has changed.
  abbrev pub Elsewhere : ℕ → ℕ → (ℕ → ℕ) → (ℕ → ℕ) → Type 0
  Elsewhere t u before out = (p : ℕ) → (p < t * heads) ⊎ (u * heads ≤ p) → out p ≡ before p

  row : List ℕ → ℕ → ℕ → List ℕ
  row tokens start t = row_from g tokens start t (g.ngram_size - 1) 1

  row-Rows : (tokens : List ℕ) (start t : ℕ) → Rows g 0 heads (row tokens start t)
  unfolding row
  row-Rows tokens start t =
      subst (λ n. Rows g 0 n (row_from g tokens start t (g.ngram_size - 1) 1))
        (sym is_geo.heads_are)
        (first_row g tokens start t (λ k lt. is_geo.tables k (omega (arith, is_geo.heads_are, lt))))

  rows_from-Filled :
      (tokens from : List ℕ) (t : ℕ) (out : ℕ → ℕ)
      → Filled t (t + length from) (rows_from g tokens from t out)
        × Elsewhere t (t + length from) out (rows_from g tokens from t out)
  unfolding rows_from row
  rows_from-Filled tokens [] t out = (λ i j lo hi lt. absurd (omega arith), λ p away. refl)
  rows_from-Filled tokens (start ∷ from) t out =
      let (w, len) = row-Rows tokens start t in
      let out' = store_row out (t * heads) (row tokens start t) in
      let (filled, away) = rows_from-Filled tokens from (t + 1) out' in
      let next : (t + 1) * heads ≡ t * heads + heads = next_head t heads in
      (
        λ i j lo hi lt. elim (dec_lt t i) [
          | yes later ↦ filled i j (omega (arith, later)) (omega (arith, hi)) lt
          | no first ↦
              let same : i ≡ t = omega (arith, lo, first) in
              let unchanged =
                away (t * heads + j) (inl (omega (arith, next, lt)))
                ∙ store_row-here out (t * heads) (row tokens start t) j (omega (arith, len, lt)) in
              subst (λ n. InTable g j (rows_from g tokens from (t + 1) out' (n * heads + j)))
                (sym same)
                (subst (InTable g j) (sym unchanged) (
                  subst (λ h. InTable g h (get_or (row tokens start t) j 0))
                    (let z : 0 + j ≡ j = omega arith in z)
                    (Within-at g 0 (row tokens start t) j w (omega (arith, len, lt)))))
        ],
        λ p outside.
            away p (elim outside [
              | inl below ↦ inl (omega (arith, next, below))
              | inr above ↦ inr (
                  subst (λ u. u * heads ≤ p)
                    (let z : t + suc (length from) ≡ t + 1 + length from = omega arith in z) above)
            ])
            ∙ store_row-away out (t * heads) (row tokens start t) p (elim outside [
              | inl below ↦ inl below
              | inr above ↦ inr (
                  omega (
                    arith,
                    len,
                    next,
                    mul_le (t + 1) (t + suc (length from)) heads (omega arith),
                    above,
                  ))
            ]),
      )

  -- In a geometry as ngram_geo_compute makes them, ngram_indices writes for each token t and head
  -- j, at the place t * ngram_heads + j of out, a row of the table of head j, from its offset to
  -- before its offset and size; and it changes no place behind those of the last token.
  pub indices-Filled :
      (tokens : List ℕ) (out : ℕ → ℕ)
      → Filled 0 (length tokens) (indices g tokens out)
        × Elsewhere 0 (length tokens) out (indices g tokens out)
  unfolding indices
  indices-Filled tokens out =
      subst (λ n. Filled 0 n (indices g tokens out) × Elsewhere 0 n out (indices g tokens out))
        (let z : 0 + length (starts g.eos_token_id tokens 0 0) ≡ length tokens =
            omega (arith, length-starts g.eos_token_id tokens 0 0) in
          z)
        (rows_from-Filled tokens (starts g.eos_token_id tokens 0 0) 0 out)
