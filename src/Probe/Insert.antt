-- ===== src/Probe/Insert.antt =====
-- Filling a free slot of a probed table, and moving all entries to a larger one.
use native.Mathlib.Nat.{mod-lt}
use qwen3_8_flash_next.Base.{
  Bool, subst, ap, ℕ, zero, suc, ◌+◌, ◌%◌, ◌≤◌, ◌<◌, false, Option, none, some, ◌≡◌, ◌≢◌, refl, sym,
  ◌∙◌, arith, inl, inr, ◌⊎◌, ℕ_discrete,
}
use qwen3_8_flash_next.Probe.Find.{Stored, Occupied, IsProbed, used_from, used, search_ends}
use qwen3_8_flash_next.Probe.Walk.{IsPow-pos, masked-eq-mod, Walk, StopsAt}
use qwen3_8_flash_next.Probe.{Slots, masked, put_at, probe, reinsert}

module _ {ℓ} {E : Type ℓ} where
  pub put_at_self : (s : Slots E) (p : ℕ) (v : Option E) → put_at s p v p ≡ v
  unfolding put_at
  put_at_self s p v = ground arith

  pub put_at_ne : (s : Slots E) (p q : ℕ) (v : Option E) → p ≢ q → put_at s p v q ≡ s q
  unfolding put_at
  put_at_ne s p q v ne = ground arith

  pub put_at-cases :
      (s : Slots E) (p q : ℕ) (v : Option E)
      → ((p ≡ q) × (put_at s p v q ≡ v)) ⊎ ((p ≢ q) × (put_at s p v q ≡ s q))
  put_at-cases s p q v = elim (ℕ_discrete p q) [
    | yes e ↦ inl (e, rw (← e) (put_at_self s p v))
    | no ne ↦ inr (ne, put_at_ne s p q v ne)
  ]

  used_from-put_outside :
      (s : Slots E) (p i left : ℕ) (v : Option E)
      → (p < i) ⊎ (i + left ≤ p)
      → used_from (put_at s p v) i left ≡ used_from s i left
  used_from-put_outside s p i zero v h = refl
  used_from-put_outside s p i (suc left) v h =
      rw (put_at_ne s p i v (omega arith), used_from-put_outside s p (i + 1) left v (omega arith))

  used_from-put :
      (s : Slots E) (p i left : ℕ) (e : E)
      → i ≤ p
      → p < i + left
      → s p ≡ none
      → used_from (put_at s p (some e)) i left ≡ used_from s i left + 1
  used_from-put s p i zero e lo hi free = absurd (omega arith)
  used_from-put s p i (suc left) e lo hi free = elim (put_at-cases s p i (some e)) [
    | inl (same, at) ↦
        let empty : s i ≡ none = rw same at free in
        rw (at, used_from-put_outside s p (i + 1) left (some e) (inl (omega arith)), empty)
          (omega arith)
    | inr (other, at) ↦
        rw (at, used_from-put s p (i + 1) left e (omega arith) (omega arith) free) (omega arith)
  ]

  -- The entries after a free slot was filled: those before, and the new one.
  pub Stored-put :
      (s : Slots E) (n p q : ℕ) (e e' : E)
      → Stored (put_at s p (some e)) n q e'
      → ((p ≡ q) × (e ≡ e')) ⊎ Stored s n q e'
  Stored-put s n p q e e' st = elim (put_at-cases s p q (some e)) [
    | inl (same, at) ↦ inl (same, cc (at, st.1))
    | inr (other, at) ↦ inr (st.0, cc (at, st.1))
  ]

  pub put-Stored :
      (s : Slots E) (n p q : ℕ) (e e' : E)
      → s p ≡ none
      → Stored s n q e'
      → Stored (put_at s p (some e)) n q e'
  put-Stored s n p q e e' free st = elim (put_at-cases s p q (some e)) [
    | inl (same, at) ↦ absurd (cc (rw same at free, st.1))
    | inr (other, at) ↦ (st.0, at ∙ st.1)
  ]

  put-ne-none : (s : Slots E) (p q : ℕ) (e : E) → s q ≢ none → put_at s p (some e) q ≢ none
  put-ne-none s p q e ne = elim (put_at-cases s p q (some e)) [
    | inl (same, at) ↦ λ z. cc (at, z)
    | inr (other, at) ↦ λ z. ne (sym at ∙ z)
  ]

  pub used-put :
      (s : Slots E) (n p : ℕ) (e : E)
      → p < n
      → s p ≡ none
      → used (put_at s p (some e)) n ≡ used s n + 1
  used-put s n p e lt free = used_from-put s p 0 n e (omega arith) (omega arith) free

  -- A free slot at which a search from the entry's home stopped gets the entry: every entry is
  -- still reached from its home.
  pub fill-IsProbed :
      (home : E → ℕ) (stop : E → Bool) (s : Slots E) (n p : ℕ) (e : E)
      → IsProbed home s n
      → used s n + 1 < n
      → (w : Walk stop n s n (home e)) → (home e + w.steps) % n ≡ p
      → s p ≡ none
      → IsProbed home (put_at s p (some e)) n
  fill-IsProbed home stop s n p e i room w is_p empty = record {
    size = i.size;
    room =
        omega
          (arith, used-put s n p e (subst (λ q. q < n) is_p (mod-lt _ (IsPow-pos i.size))) empty);
    reach = λ q e' lt at. from q e' (Stored-put s n p q e e' (lt, at));
  }
    where
      passed : (k : ℕ) → k < w.steps → s ((home e + k) % n) ≢ none
      passed k lt = λ z. cc ((w.passed k lt).1, z)

      from :
          (q : ℕ) (e' : E)
          → ((p ≡ q) × (e ≡ e')) ⊎ Stored s n q e'
          → (d : ℕ) × ((home e' + d) % n ≡ q) × Occupied (put_at s p (some e)) n (home e') d
      from q e' (inl (same, is_e)) = (
        w.steps,
        rw (← is_e) (is_p ∙ same),
        rw (← is_e) (λ k lt. put-ne-none s p _ e (passed k lt)),
      )
      from q e' (inr st) =
          let (d, at, before) = i.reach q e' st.0 st.1 in
          (d, at, λ k lt. put-ne-none s p _ e (before k lt))

  pub record Inserted (home : E → ℕ) (s : Slots E) (n : ℕ) (e : E) : Type ℓ where
    pub place : ℕ
    pub place_lt : place < n
    pub was_free : s place ≡ none
    pub result : reinsert home s n e ≡ some (put_at s place (some e))
    pub probed : IsProbed home (put_at s place (some e)) n
    pub one_more : used (put_at s place (some e)) n ≡ used s n + 1

  reinsert_of_probe :
      (home : E → ℕ) (s : Slots E) (n : ℕ) (e : E) (p : ℕ)
      → probe (λ _. false) n s n (masked n (home e)) ≡ some p
      → reinsert home s n e ≡ some (put_at s p (some e))
  unfolding reinsert
  reinsert_of_probe home s n e p r = rw (r, reinsert)

  -- In a table with two free slots where every entry is reached from its home, the search for a
  -- place for a new entry ends at a free slot, the table then has one entry more, and every entry
  -- is reached from its home.
  pub reinsert-Inserted :
      (home : E → ℕ) (s : Slots E) (n : ℕ) (e : E)
      → IsProbed home s n
      → used s n + 1 < n
      → Inserted home s n e
  reinsert-Inserted home s n e i room = record {
    place = p;
    place_lt = p_lt;
    was_free = empty;
    result = reinsert_of_probe home s n e p (rw (masked-eq-mod (home e) i.size) w.result);
    probed = fill-IsProbed home (λ _. false) s n p e i room w refl empty;
    one_more = used-put s n p e p_lt empty;
  }
    where
      w : Walk (λ _. false) n s n (home e)
      w = search_ends (λ _. false) s n (home e) i.size i.room

      p : ℕ
      p = (home e + w.steps) % n

      p_lt : p < n
      p_lt = mod-lt (home e + w.steps) (IsPow-pos i.size)

      open_at : (o : Option E) → s p ≡ o → StopsAt (λ _. false) o → s p ≡ none
      open_at none at h = at
      open_at (some e') at h = cc

      empty : s p ≡ none
      empty = open_at (s p) refl w.stopped

module _ {ℓ} {E : Type ℓ} where
  -- Emptying a slot in use leaves one entry less.
  used_from-clear :
      (s : Slots E) (p i left : ℕ) (e : E)
      → i ≤ p
      → p < i + left
      → s p ≡ some e
      → used_from (put_at s p none) i left + 1 ≡ used_from s i left
  used_from-clear s p i zero e lo hi at = absurd (omega arith)
  used_from-clear s p i (suc left) e lo hi at = elim (put_at-cases s p i none) [
    | inl (same, empty) ↦
        let full : s i ≡ some e = rw same at at in
        rw (empty, used_from-put_outside s p (i + 1) left none (inl (omega arith)), full)
          (omega arith)
    | inr (other, kept) ↦
        let rest = used_from-clear s p (i + 1) left e (omega arith) (omega arith) at in
        rw kept (omega (arith, rest))
  ]

  pub used-clear :
      (s : Slots E) (n p : ℕ) (e : E)
      → p < n
      → s p ≡ some e
      → used (put_at s p none) n + 1 ≡ used s n
  used-clear s n p e lt at = used_from-clear s p 0 n e (omega arith) (omega arith) at

  -- An entry in the place of another with the same home.
  used_from-replace :
      (s : Slots E) (p i left : ℕ) (e e' : E)
      → s p ≡ some e
      → used_from (put_at s p (some e')) i left ≡ used_from s i left
  used_from-replace s p i zero e e' at = refl
  used_from-replace s p i (suc left) e e' at = elim (put_at-cases s p i (some e')) [
    | inl (same, at') ↦
        let full : s i ≡ some e = rw same at at in
        rw (at', full) (omega (arith, used_from-replace s p (i + 1) left e e' at))
    | inr (other, kept) ↦ rw kept (omega (arith, used_from-replace s p (i + 1) left e e' at))
  ]

  pub replace-IsProbed :
      (home : E → ℕ) (s : Slots E) (n p : ℕ) (e e' : E)
      → IsProbed home s n
      → Stored s n p e
      → home e' ≡ home e
      → IsProbed home (put_at s p (some e')) n × (used (put_at s p (some e')) n ≡ used s n)
  replace-IsProbed home s n p e e' i st same = (
    record {
      size = i.size;
      room = omega (arith, used_from-replace s p 0 n e e' st.1, i.room);
      reach = λ q x lt at. from q x (Stored-put s n p q e' x (lt, at));
    },
    used_from-replace s p 0 n e e' st.1,
  )
    where
      from :
          (q : ℕ) (x : E)
          → ((p ≡ q) × (e' ≡ x)) ⊎ Stored s n q x
          → (d : ℕ) × ((home x + d) % n ≡ q) × Occupied (put_at s p (some e')) n (home x) d
      from q x (inl (at_q, is_x)) =
          let (d, at, before) = i.reach p e st.0 st.1 in
          let home_x : home x ≡ home e = ap home (sym is_x) ∙ same in
          (d, rw home_x (at ∙ at_q), rw home_x (λ k lt. put-ne-none s p _ e' (before k lt)))
      from q x (inr st') =
          let (d, at, before) = i.reach q x st'.0 st'.1 in
          (d, at, λ k lt. put-ne-none s p _ e' (before k lt))
