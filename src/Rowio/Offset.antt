-- ===== src/Rowio/Offset.antt =====
-- `checked_offset` of native/rowio.c against exact arithmetic.
use native.Mathlib.Nat.{div-add-mod, mod-lt}
use qwen3_8_flash_next.Base.{
  ℕ, ◌+◌, ◌-◌, ◌*◌, ◌/◌, ◌≤◌, ◌<◌, ◌≡◌, ◌↔◌, refl, sym, ap, arith, true, false, ◌&&◌, not, none,
  some, ◌==◌, ltb, leb, if◌then◌else◌, add64, mul64, word, Bool-cases, inl, inr, dec_le,
}
use qwen3_8_flash_next.Rowio.{checked_offset, long_max}

-- The test by division tells whether the product fits.
pub quotient_iff : (top d x : ℕ) → 0 < d → (x ≤ top / d) ↔ (d * x ≤ top)
quotient_iff top d x pos =
    (λ le. grind (arith, div-add-mod top d, le), λ le. fits (dec_le x (top / d)) le)
  where
    fits : Dec (x ≤ top / d) → d * x ≤ top → x ≤ top / d
    fits (yes le) fit = le
    fits (no above) fit = absurd (
        let next : top / d + 1 ≤ x = omega arith in
        let product : d * (top / d + 1) ≤ d * x = grind arith in
        let rem = mod-lt top pos in grind (arith, div-add-mod top d, product, rem, fit))

no_product : (row row_bytes : ℕ) → (row == 0) ≡ true → row * row_bytes ≡ 0
no_product row row_bytes h = let is : row ≡ 0 = ground arith in rw is (omega arith)

-- The test of the source: the product fits exactly where it lets it pass.
test_passes :
    (row row_bytes : ℕ)
    → ((not (row == 0) && ltb ((word - 1) / row) row_bytes) ≡ false) ↔ (row * row_bytes < word)
test_passes row row_bytes = elim (Bool-cases (row == 0)) [
  | inl first ↦ (λ h. omega (arith, no_product row row_bytes first), λ lt. rw first refl)
  | inr later ↦
      let (to, from) = quotient_iff (word - 1) row row_bytes (ground arith) in
      (
        λ h. let le = to (ground arith) in omega (arith, le),
        λ lt. let le = from (omega (arith, lt)) in rw later (ground (arith, le)),
      )
]

-- Checked_offset of a base below 2 ^ 64 gives an offset exactly where it is the base plus the
-- row's bytes, without wrap, and at most 2 ^ 63 - 1.
pub checked_offset_iff :
    (base row row_bytes offset : ℕ)
    → base < word
    → (checked_offset base row row_bytes ≡ some offset)
      ↔ ((offset ≡ base + row * row_bytes) × (offset ≤ long_max))
unfolding checked_offset
checked_offset_iff base row row_bytes offset small_base =
    elim (Bool-cases (not (row == 0) && ltb ((word - 1) / row) row_bytes)) [
      | inl over ↦ rw over (
        λ h. absurd (cc h),
        λ (e, le). absurd (cc (over, (test_passes row row_bytes).1 (omega (arith, e, le)))),
      )
      | inr fits ↦
          let exact = (test_passes row row_bytes).0 fits in
          let relative : mul64 row row_bytes ≡ row * row_bytes = omega (arith, exact) in
          rw fits (rw relative (sum (row * row_bytes) exact))
    ]
  where
    sum :
        (relative : ℕ)
        → relative < word
        → ((if ltb (word - 1 - relative) base
              then none
              else if leb (add64 base relative) long_max
              then some (add64 base relative)
              else none)
            ≡ some offset)
          ↔ ((offset ≡ base + relative) × (offset ≤ long_max))
    sum relative lt = elim (Bool-cases (ltb (word - 1 - relative) base)) [
      | inl over ↦ rw over (λ h. absurd (cc h), λ (e, le). absurd (ground arith))
      | inr fits ↦
          let exact : add64 base relative ≡ base + relative = ground arith in
          rw fits (
            rw exact (elim (Bool-cases (leb (base + relative) long_max)) [
              | inl small ↦ rw small (
                λ h. (let e : base + relative ≡ offset = cc h in (sym e, ground arith)),
                λ (e, le). ap some (sym e),
              )
              | inr large ↦ rw large (λ h. absurd (cc h), λ (e, le). absurd (ground arith))
            ]))
    ]
