-- ===== src/Reader/Rows/Runs.antt =====
-- The runs of consecutive rows in c/src/reader.c: how far they reach, and what they leave.
use qwen3_8_flash_next.Base.{
  ℕ, zero, suc, ◌+◌, ◌≤◌, ◌<◌, ◌≡◌, refl, sym, ap, ◌∙◌, subst, arith, true, false, List, [], ◌∷◌,
  ◌==◌, ==_refl, ltb, if◌then◌else◌, length, All, Bool-cases, inl, inr, ◌⊎◌,
}
use qwen3_8_flash_next.Reader.Rows.Order.{row, Ascends, All-map}
use qwen3_8_flash_next.Reader.Rows.{skip_equal, run_from, scatter}

module _ (rows : List ℕ) where
  -- What is left of an ascending order once the rows below `e` are gone.
  abbrev pub drop_below : ℕ → List ℕ → List ℕ
  drop_below e [] = []
  drop_below e (o ∷ order) = if ltb (row rows o) e then drop_below e order else o ∷ order

  drop_below_none :
      (e : ℕ) (order : List ℕ) → All (λ p. e ≤ row rows p) order → drop_below e order ≡ order
  drop_below_none e [] all = refl
  drop_below_none e (o ∷ order) (le, all) =
      let h : ltb (row rows o) e ≡ false = ground arith in rw h refl

  pub drop_below-All :
      (P : ℕ → Type 0) (e : ℕ) (order : List ℕ) → All P order → All P (drop_below e order)
  drop_below-All P e [] all = tt
  drop_below-All P e (o ∷ order) (p, all) = elim (Bool-cases (ltb (row rows o) e)) [
    | inl less ↦ rw less (drop_below-All P e order all)
    | inr stop ↦ rw stop (p, all)
  ]

  pub drop_below-Ascends :
      (e : ℕ) (order : List ℕ) → Ascends rows order → Ascends rows (drop_below e order)
  drop_below-Ascends e [] a = tt
  drop_below-Ascends e (o ∷ order) (least, a) = elim (Bool-cases (ltb (row rows o) e)) [
    | inl less ↦ rw less (drop_below-Ascends e order a)
    | inr stop ↦ rw stop (least, a)
  ]

  pub length-drop_below : (e : ℕ) (order : List ℕ) → length (drop_below e order) ≤ length order
  length-drop_below e [] = omega arith
  length-drop_below e (o ∷ order) = elim (Bool-cases (ltb (row rows o) e)) [
    | inl less ↦ rw less (omega (arith, length-drop_below e order))
    | inr stop ↦ rw stop (omega arith)
  ]

  -- Passing by the rows equal to `e` in an ascending order leaves the larger ones.
  skip_equal-above :
      (e : ℕ) (order : List ℕ)
      → Ascends rows order
      → All (λ p. e ≤ row rows p) order
      → All (λ p. e + 1 ≤ row rows p) (skip_equal rows e order)
        × Ascends rows (skip_equal rows e order)
  unfolding skip_equal
  skip_equal-above e [] a all = (tt, tt)
  skip_equal-above e (o ∷ order) (least, a) (le, all) = elim (Bool-cases (row rows o == e)) [
    | inl same ↦ rw same (skip_equal-above e order a all)
    | inr other ↦
        let lt : e + 1 ≤ row rows o = ground arith in
        rw other (
          (
            lt,
            All-map (λ p. row rows o ≤ row rows p) (λ p. e + 1 ≤ row rows p)
                (λ p h. omega (arith, h, lt)) order least,
          ),
          (least, a),
        )
  ]

  skip_equal-All :
      (P : ℕ → Type 0) (e : ℕ) (order : List ℕ) → All P order → All P (skip_equal rows e order)
  unfolding skip_equal
  skip_equal-All P e [] all = tt
  skip_equal-All P e (o ∷ order) (p, all) = elim (Bool-cases (row rows o == e)) [
    | inl same ↦ rw same (skip_equal-All P e order all)
    | inr other ↦ rw other (p, all)
  ]

  drop_below-skip_equal :
      (e e' : ℕ) (order : List ℕ)
      → e < e'
      → drop_below e' (skip_equal rows e order) ≡ drop_below e' order
  unfolding skip_equal
  drop_below-skip_equal e e' [] lt = refl
  drop_below-skip_equal e e' (o ∷ order) lt = elim (Bool-cases (row rows o == e)) [
    | inr other ↦ rw other refl
    | inl same ↦
        let h : ltb (row rows o) e' ≡ true = ground arith in
        rw same (rw h (drop_below-skip_equal e e' order lt))
  ]

  -- A run from `e` on: it leaves the rows from its end on, is no longer than the fuel, and ends
  -- below any bound of the rows.
  pub record Run (limit left e : ℕ) (order : List ℕ) (result : List ℕ × ℕ) : Type 0 where
    pub leaves : result.0 ≡ drop_below (result.1) order
    pub lower : e ≤ result.1
    pub short : result.1 ≤ e + left
    pub inside : (result.1 ≡ e) ⊎ (result.1 ≤ limit)

  run_step :
      (left e o : ℕ) (order : List ℕ)
      → (row rows o == e) ≡ true
      → run_from (suc left) rows (o ∷ order) e
        ≡ run_from left rows (skip_equal rows e (o ∷ order)) (e + 1)
  unfolding run_from
  run_step left e o order h =
      ap
        (λ b.
          if b then run_from left rows (skip_equal rows e (o ∷ order)) (e + 1) else (o ∷ order, e))
        h

  run_from-Run :
      (limit left e : ℕ) (order : List ℕ)
      → Ascends rows order
      → All (λ p. e ≤ row rows p) order
      → All (λ p. row rows p < limit) order
      → Run limit left e order (run_from left rows order e)
  unfolding run_from
  run_from-Run limit zero e order a all below = record {
    leaves = sym (drop_below_none e order all);
    lower = omega arith;
    short = omega arith;
    inside = inl refl;
  }
  run_from-Run limit (suc left) e [] a all below = record {
    leaves = refl;
    lower = omega arith;
    short = omega arith;
    inside = inl refl;
  }
  run_from-Run limit (suc left) e (o ∷ order) a all below = elim (Bool-cases (row rows o == e)) [
    | inr other ↦ rw other (record {
      leaves = sym (drop_below_none e (o ∷ order) all);
      lower = omega arith;
      short = omega arith;
      inside = inl refl;
    })
    | inl same ↦
        let (above, a') = skip_equal-above e (o ∷ order) a all in
        let r =
          run_from-Run limit left (e + 1) (skip_equal rows e (o ∷ order)) a' above
            (skip_equal-All (λ p. row rows p < limit) e (o ∷ order) below) in
        subst (Run limit (suc left) e (o ∷ order)) (sym (run_step left e o order same)) (record {
          leaves = r.leaves ∙ drop_below-skip_equal e _ (o ∷ order) (omega (arith, r.lower));
          lower = omega (arith, r.lower);
          short = omega (arith, r.short);
          inside =
              inr (elim r.inside [ inl here ↦ bound here (below.0) (ground arith) | inr le ↦ le ]);
        })
  ]
    where
      bound : {e' : ℕ} → e' ≡ e + 1 → row rows o < limit → row rows o ≡ e → e' ≤ limit
      bound here lt same = omega arith

  head_moves :
      (limit o : ℕ) (order : List ℕ)
      → Ascends rows (o ∷ order)
      → All (λ p. row rows p < limit) (o ∷ order)
      → row rows o < (run_from (suc (length order)) rows (o ∷ order) (row rows o)).1
  head_moves limit o order a below =
      let same : (row rows o == row rows o) ≡ true = ==_refl (row rows o) in
      let (above, a') = skip_equal-above (row rows o) (o ∷ order) a (omega arith, a.0) in
      let r =
        run_from-Run limit (length order) (row rows o + 1)
          (skip_equal rows (row rows o) (o ∷ order)) a' above
          (skip_equal-All (λ p. row rows p < limit) (row rows o) (o ∷ order) below) in
      omega (arith, r.lower, ap (λ x. x.1) (run_step (length order) (row rows o) o order same))

  -- The run at the head of the order is not empty.
  pub head_run-Run :
      (limit o : ℕ) (order : List ℕ)
      → Ascends rows (o ∷ order)
      → All (λ p. row rows p < limit) (o ∷ order)
      → Run limit
          (suc (length order))
          (row rows o)
          (o ∷ order)
          (run_from (suc (length order)) rows (o ∷ order) (row rows o))
        × (row rows o < (run_from (suc (length order)) rows (o ∷ order) (row rows o)).1)
        × ((run_from (suc (length order)) rows (o ∷ order) (row rows o)).1 ≤ limit)
  head_run-Run limit o order a below =
      let r =
        run_from-Run limit (suc (length order)) (row rows o) (o ∷ order) a (omega arith, a.0)
          below in
      let moved = head_moves limit o order a below in
      (r, moved, elim r.inside [ inl here ↦ absurd (omega (arith, here, moved)) | inr le ↦ le ])

  -- The walk over the order that copies the rows of a run.
  pub scatter_leaves :
      (row_bytes start expect : ℕ) (block : List ℕ) (order : List ℕ) (out : ℕ → ℕ)
      → (scatter rows row_bytes start expect block order out).1 ≡ drop_below expect order
  unfolding scatter
  scatter_leaves row_bytes start expect block [] out = refl
  scatter_leaves row_bytes start expect block (r ∷ order) out =
      elim (Bool-cases (ltb (row rows r) expect)) [
        | inr stop ↦ rw stop refl
        | inl more ↦ rw more (scatter_leaves row_bytes start expect block order _)
      ]
