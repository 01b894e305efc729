-- ===== src/Probe/Backshift.antt =====
-- Removal by shifting: the scan ends, it keeps every entry, and every entry is again reached
-- from its home.
use native.Mathlib.Nat.{mod-lt}
use qwen3_8_flash_next.Base.{
  ℕ, zero, suc, ◌+◌, ◌%◌, ◌<◌, true, false, none, some, ◌≡◌, ◌≢◌, refl, sym, ap, ◌∙◌, arith, inl,
  inr, ℕ_discrete, Option-cases,
}
use qwen3_8_flash_next.Probe.Circle.{can_move_lem}
use qwen3_8_flash_next.Probe.Find.{Stored, used}
use qwen3_8_flash_next.Probe.Insert.{put_at-cases, put_at_self, put_at_ne, used-put, used-clear}
use qwen3_8_flash_next.Probe.Line.{
  Sweep, IsLine, Sweep-stop, moved, Sweep-HomeAt, Sweep-keep, Sweep-move, Sweep-inside,
}
use qwen3_8_flash_next.Probe.Rehash.{IsDistinct}
use qwen3_8_flash_next.Probe.Walk.{IsPow, IsPow-pos, masked-eq-mod, next-mod}
use qwen3_8_flash_next.Probe.{Slots, masked, next, put_at, can_move, backshift}

module _ {ℓ} {E : Type ℓ} (home : E → ℕ) where
  backshift_stop :
      (fuel : ℕ) (s : Slots E) (n i j : ℕ) → s j ≡ none → backshift home (suc fuel) s n i j ≡ some s
  unfolding backshift
  backshift_stop fuel s n i j free = rw (free, backshift)

  backshift_keep :
      (fuel : ℕ) (s : Slots E) (n i j : ℕ) (e : E)
      → s j ≡ some e
      → can_move n i j (masked n (home e)) ≡ false
      → backshift home (suc fuel) s n i j ≡ backshift home fuel s n i (next n j)
  unfolding backshift
  backshift_keep fuel s n i j e at no_move = rw (at, backshift, no_move)

  backshift_move :
      (fuel : ℕ) (s : Slots E) (n i j : ℕ) (e : E)
      → s j ≡ some e
      → can_move n i j (masked n (home e)) ≡ true
      → backshift home (suc fuel) s n i j
        ≡ backshift home fuel (put_at (put_at s i (some e)) j none) n j (next n j)
  unfolding backshift
  backshift_move fuel s n i j e at move = rw (at, backshift, move, at)

module _ {ℓ κ} {E : Type ℓ} {K : Type κ} (tag : E → K) where
  -- Two tables hold the same entries, as many, and no tag twice if the first does not.
  pub record SameEntries (s t : Slots E) (n : ℕ) : Type (ℓ ⊔ κ) where
    pub kept : (q : ℕ) (e : E) → Stored s n q e → (r : ℕ) × Stored t n r e
    pub source : (q : ℕ) (e : E) → Stored t n q e → (r : ℕ) × Stored s n r e
    pub count : used t n ≡ used s n
    pub distinct : IsDistinct tag s n → IsDistinct tag t n

  SameEntries-refl : (s : Slots E) (n : ℕ) → SameEntries s s n
  SameEntries-refl s n = record {
    kept = λ q e st. (q, st);
    source = λ q e st. (q, st);
    count = refl;
    distinct = λ d. d;
  }

  SameEntries-trans :
      (s t u : Slots E) (n : ℕ) → SameEntries s t n → SameEntries t u n → SameEntries s u n
  SameEntries-trans s t u n a b = record {
    kept = λ q e st. b.kept _ e (a.kept q e st).1;
    source = λ q e st. a.source _ e (b.source q e st).1;
    count = b.count ∙ a.count;
    distinct = λ d. b.distinct (a.distinct d);
  }

  -- An entry of one table moves to a free slot.
  data Moved (s : Slots E) (i j : ℕ) (e : E) (q : ℕ) : Type ℓ where
    filled : q ≡ i → put_at (put_at s i (some e)) j none q ≡ some e → Moved s i j e q
    emptied : q ≡ j → put_at (put_at s i (some e)) j none q ≡ none → Moved s i j e q
    same : q ≢ i → q ≢ j → put_at (put_at s i (some e)) j none q ≡ s q → Moved s i j e q

  move-Moved : (s : Slots E) (i j : ℕ) (e : E) (q : ℕ) → i ≢ j → Moved s i j e q
  move-Moved s i j e q ij = elim (put_at-cases (put_at s i (some e)) j q none) [
    | inl (is_j, at) ↦ emptied (sym is_j) at
    | inr (no_j, at) ↦ elim (put_at-cases s i q (some e)) [
      | inl (is_i, at') ↦ filled (sym is_i) (at ∙ at')
      | inr (no_i, at') ↦ same (λ x. no_i (sym x)) (λ x. no_j (sym x)) (at ∙ at')
    ]
  ]

  move-SameEntries :
      (s : Slots E) (n i j : ℕ) (e : E)
      → i < n
      → j < n
      → s i ≡ none
      → s j ≡ some e
      → SameEntries s (put_at (put_at s i (some e)) j none) n
  move-SameEntries s n i j e hi hj free at = record {
    kept = kept;
    source = λ q e' st. origin q e' st (move-Moved s i j e q i_j);
    count = fewer;
    distinct = λ d q r a b sa sb eq.
        apart d q r a b sa sb (move-Moved s i j e q i_j) (move-Moved s i j e r i_j) eq;
  }
    where
      t : Slots E
      t = put_at (put_at s i (some e)) j none

      i_j : i ≢ j
      i_j = λ x. cc (free, at)

      at' : put_at s i (some e) j ≡ some e
      at' = put_at_ne s i j (some e) i_j ∙ at

      fewer : used t n ≡ used s n
      fewer = omega (arith, used-clear (put_at s i (some e)) n j e hj at', used-put s n i e hi free)

      kept : (q : ℕ) (e' : E) → Stored s n q e' → (r : ℕ) × Stored t n r e'
      kept q e' st = elim (ℕ_discrete q j) [
        | yes is_j ↦ (
          i,
          (
            hi,
            put_at_ne (put_at s i (some e)) j i none (λ x. i_j (sym x))
                ∙ put_at_self s i (some e)
                ∙ sym at
                ∙ rw is_j at st.1,
          ),
        )
        | no no_j ↦ elim (move-Moved s i j e q i_j) [
          | filled is_i _ ↦ absurd (cc (free, st.1))
          | emptied is_j _ ↦ absurd (no_j is_j)
          | same _ _ eq ↦ (q, (st.0, eq ∙ st.1))
        ]
      ]

      origin : (q : ℕ) (e' : E) → Stored t n q e' → Moved s i j e q → (r : ℕ) × Stored s n r e'
      origin q e' st (filled _ eq) = (j, (hj, at ∙ sym eq ∙ st.1))
      origin q e' st (emptied _ eq) = absurd (cc (eq, st.1))
      origin q e' st (same _ _ eq) = (q, (st.0, sym eq ∙ st.1))

      apart :
          IsDistinct tag s n
          → (q r : ℕ) (a b : E) → Stored t n q a
          → Stored t n r b
          → Moved s i j e q
          → Moved s i j e r
          → tag a ≡ tag b
          → q ≡ r
      apart d q r a b sa sb (emptied _ eq) _ x = absurd (cc (eq, sa.1))
      apart d q r a b sa sb _ (emptied _ eq) x = absurd (cc (eq, sb.1))
      apart d q r a b sa sb (filled is_q _) (filled is_r _) x = is_q ∙ sym is_r
      apart d q r a b sa sb (filled _ eq) (same _ no_j eq') x =
          absurd (no_j (sym (d j r a b (hj, at ∙ sym eq ∙ sa.1) (sb.0, sym eq' ∙ sb.1) x)))
      apart d q r a b sa sb (same _ no_j eq) (filled _ eq') x =
          absurd (no_j (d q j a b (sa.0, sym eq ∙ sa.1) (hj, at ∙ sym eq' ∙ sb.1) x))
      apart d q r a b sa sb (same _ _ eq) (same _ _ eq') x =
          d q r a b (sa.0, sym eq ∙ sa.1) (sb.0, sym eq' ∙ sb.1) x

module _ {ℓ κ} {E : Type ℓ} {K : Type κ} (home : E → ℕ) (tag : E → K) where
  pub record Shifted (fuel n z i j : ℕ) (s : Slots E) : Type (ℓ ⊔ κ) where
    pub table : Slots E
    pub result : backshift home fuel s n i j ≡ some table
    pub line : IsLine home n z table
    pub entries : SameEntries tag s table n

  -- The scan from `b` with the hole at `a` ends.
  pub backshift-Shifted :
      (fuel n z : ℕ) (s : Slots E) (a b : ℕ)
      → IsPow n
      → Sweep home n z s a b
      → n < b + fuel
      → Shifted fuel n z ((z + a) % n) ((z + b) % n) s
  backshift-Shifted zero n z s a b p sc enough = let h = sc.inside in absurd (omega arith)
  backshift-Shifted (suc fuel) n z s a b p sc enough = elim (Option-cases (s ((z + b) % n))) [
    | inl free ↦ record {
      table = s;
      result = backshift_stop home fuel s n ((z + a) % n) ((z + b) % n) free;
      line = Sweep-stop home n z s a b sc free;
      entries = SameEntries-refl tag s n;
    }
    | inr (e, at) ↦
        let (h, hm) = Sweep-HomeAt home n z s a b e sc at in
        let bn = Sweep-inside home n z s a b e sc at in
        let is_home : masked n (home e) ≡ (z + h) % n = masked-eq-mod (home e) p ∙ hm.is_home in
        let nx : next n ((z + b) % n) ≡ (z + suc b) % n =
          next-mod (z + b) p ∙ ap (λ k. k % n) (let w : z + b + 1 ≡ z + suc b = omega arith in w) in
        elim (can_move_lem z a b h p sc.ahead bn hm.before) [
          | inr (lt, no_move) ↦
              let r =
                backshift-Shifted fuel n z s a (suc b) p (Sweep-keep home n z s a b e h sc at hm lt)
                  (omega arith) in
              record {
                table = r.table;
                result =
                    backshift_keep home fuel s n ((z + a) % n) ((z + b) % n) e at
                      (rw is_home no_move)
                    ∙ rw nx r.result;
                line = r.line;
                entries = r.entries;
              }
          | inl (le, move) ↦
              let r =
                backshift-Shifted fuel n z (moved home n z s a b e) b (suc b) p
                  (Sweep-move home n z s a b e h sc at hm le) (omega arith) in
              record {
                table = r.table;
                result =
                    backshift_move home fuel s n ((z + a) % n) ((z + b) % n) e at (rw is_home move)
                    ∙ rw nx r.result;
                line = r.line;
                entries =
                    SameEntries-trans tag s (moved home n z s a b e) r.table n
                      (move-SameEntries tag s n ((z + a) % n) ((z + b) % n) e
                        (mod-lt (z + a) (IsPow-pos p)) (mod-lt (z + b) (IsPow-pos p)) sc.hole at)
                      r.entries;
              }
        ]
  ]
