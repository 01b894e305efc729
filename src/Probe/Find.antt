-- ===== src/Probe/Find.antt =====
-- A search of a probed table: it ends, and it finds exactly what is stored.
use native.Mathlib.Nat.{mod-lt}
use qwen3_8_flash_next.Base.{
  ℕ, ◌+◌, ◌%◌, ◌<◌, Bool, true, false, Option, none, some, ◌≡◌, ◌≢◌, refl, sym, ◌∙◌, ap, arith, inl,
  inr, ◌⊎◌, zero, suc, ◌≤◌, Option-cases,
}
use qwen3_8_flash_next.Probe.Walk.{
  IsPow, IsPow-pos, masked-eq-mod, reaches, Walk, StopsAt, probe-Walk,
}
use qwen3_8_flash_next.Probe.{Slots, masked, probe, find}

module _ {ℓ} {E : Type ℓ} where
  abbrev pub Stored : Slots E → ℕ → ℕ → E → Type ℓ
  Stored s n p e = (p < n) × (s p ≡ some e)

  -- The slots from `h` on for `d` places are all in use.
  abbrev pub Occupied : Slots E → ℕ → ℕ → ℕ → Type ℓ
  Occupied s n h d = (k : ℕ) → k < d → s ((h + k) % n) ≢ none

  -- How many of the `left` slots from `i` on are in use.
  abbrev pub used_from : Slots E → ℕ → ℕ → ℕ
  used_from s i zero = 0
  used_from s i (suc left) = elim (s i) [ none ↦ 0 | some e ↦ 1 ] + used_from s (i + 1) left

  abbrev pub used : Slots E → ℕ → ℕ
  used s n = used_from s 0 n

  free_from :
      (s : Slots E) (i left : ℕ)
      → used_from s i left < left
      → (z : ℕ) × (i ≤ z) × (z < i + left) × (s z ≡ none)
  free_from s i zero h = elim h [ ]
  free_from s i (suc left) h = elim (Option-cases (s i)) [
    | inl free ↦ (i, omega arith, omega arith, free)
    | inr (e, at) ↦
        let (z, lo, hi, free) = free_from s (i + 1) left (let h' = rw at at h in omega arith) in
        (z, omega arith, omega arith, free)
  ]

  -- Fewer entries than slots leave a slot free.
  pub free_slot : (s : Slots E) (n : ℕ) → used s n < n → (z : ℕ) × (z < n) × (s z ≡ none)
  free_slot s n h = let (z, _, lt, free) = free_from s 0 n h in (z, omega arith, free)

  -- A probe from its home reaches every entry, and a slot is free.
  pub record IsProbed (home : E → ℕ) (s : Slots E) (n : ℕ) : Type ℓ where
    pub size : IsPow n
    pub room : used s n < n
    pub reach :
        (p : ℕ) (e : E)
        → p < n
        → s p ≡ some e
        → (d : ℕ) × ((home e + d) % n ≡ p) × Occupied s n (home e) d

  -- With a free slot every search ends.
  pub search_ends :
      (stop : E → Bool) (s : Slots E) (n h : ℕ) → IsPow n → used s n < n → Walk stop n s n h
  search_ends stop s n h p room = elim (probe-Walk stop n s n h p) [
    | inl w ↦ w
    | inr all ↦
        let (free, lt, is_free) = free_slot s n room in
        let (d, d_lt, at) = reaches n h free lt in
        let (e, stored, _) = all d d_lt in absurd (cc (is_free, rw at at stored))
  ]

  -- A search from an entry's home that stops at no other entry stops at that entry.
  pub probe_stored :
      (home : E → ℕ) (stop : E → Bool) (s : Slots E) (n p : ℕ) (e : E)
      → IsProbed home s n
      → ((q : ℕ) (e' : E) → Stored s n q e' → stop e' ≡ true → q ≡ p)
      → Stored s n p e
      → stop e ≡ true
      → probe stop n s n (masked n (home e)) ≡ some p
  probe_stored home stop s n p e i only st yes_e =
      rw (masked-eq-mod (home e) i.size, w.result) (ap some (same (order w.steps d)))
    where
      w : Walk stop n s n (home e)
      w = search_ends stop s n (home e) i.size i.room

      d : ℕ
      d = (i.reach p e st.0 st.1).0

      at : (home e + d) % n ≡ p
      at = (i.reach p e st.0 st.1).1

      before : Occupied s n (home e) d
      before = (i.reach p e st.0 st.1).2

      early :
          (o : Option E)
          → s ((home e + w.steps) % n) ≡ o
          → o ≢ none
          → StopsAt stop o
          → (home e + w.steps) % n ≡ p
      early none at' used halt = absurd (used refl)
      early (some e') at' used halt =
          only _ e' (mod-lt (home e + w.steps) (IsPow-pos i.size), at') halt

      order : (a b : ℕ) → (a < b) ⊎ ((b < a) ⊎ (a ≡ b))
      order a b = omega arith

      same : (w.steps < d) ⊎ ((d < w.steps) ⊎ (w.steps ≡ d)) → (home e + w.steps) % n ≡ p
      same (inl lt) = early (s ((home e + w.steps) % n)) refl (before w.steps lt) w.stopped
      same (inr (inl gt)) =
          let (e', stored, no_e) = w.passed d gt in absurd (cc (rw at at stored, st.1))
      same (inr (inr eq)) = rw eq at

  find_of_probe :
      (stop : E → Bool) (h : ℕ) (s : Slots E) (n p : ℕ)
      → probe stop n s n (masked n h) ≡ some p
      → find stop h s n ≡ s p
  unfolding find
  find_of_probe stop h s n p r = rw (r, find)

  -- What a search returns is stored and is what it looks for.
  pub find_sound :
      (stop : E → Bool) (h : ℕ) (s : Slots E) (n : ℕ) (e : E)
      → IsPow n
      → used s n < n
      → find stop h s n ≡ some e
      → (p : ℕ) × Stored s n p e × (stop e ≡ true)
  find_sound stop h s n e p room found = go (s ((h + w.steps) % n)) refl w.stopped
    where
      w : Walk stop n s n h
      w = search_ends stop s n h p room

      at : s ((h + w.steps) % n) ≡ some e
      at = sym (find_of_probe stop h s n _ (rw (masked-eq-mod h p) w.result)) ∙ found

      go :
          (o : Option E)
          → s ((h + w.steps) % n) ≡ o
          → StopsAt stop o
          → (q : ℕ) × Stored s n q e × (stop e ≡ true)
      go none at' halt = absurd (cc (at, at'))
      go (some e') at' halt =
          ((h + w.steps) % n, (mod-lt (h + w.steps) (IsPow-pos p), at), cc (at, at', halt))

  -- An entry is found from its home, if the search stops at no other.
  pub find_complete :
      (home : E → ℕ) (stop : E → Bool) (s : Slots E) (n p : ℕ) (e : E)
      → IsProbed home s n
      → ((q : ℕ) (e' : E) → Stored s n q e' → stop e' ≡ true → q ≡ p)
      → Stored s n p e
      → stop e ≡ true
      → find stop (home e) s n ≡ some e
  find_complete home stop s n p e i only st yes_e =
      find_of_probe stop (home e) s n p (probe_stored home stop s n p e i only st yes_e) ∙ st.1

  -- A search that nothing stored can stop finds nothing.
  pub find_absent :
      (stop : E → Bool) (h : ℕ) (s : Slots E) (n : ℕ)
      → IsPow n
      → used s n < n
      → ((q : ℕ) (e : E) → Stored s n q e → stop e ≡ false)
      → find stop h s n ≡ none
  find_absent stop h s n p room never = elim (Option-cases (find stop h s n)) [
    | inl miss ↦ miss
    | inr (e, hit) ↦
        let (q, st, yes_e) = find_sound stop h s n e p room hit in absurd (cc (never q e st, yes_e))
  ]

  -- Only the homes of stored entries matter.
  pub IsProbed-home :
      (home home' : E → ℕ) (s : Slots E) (n : ℕ)
      → ((q : ℕ) (e : E) → Stored s n q e → home e ≡ home' e)
      → IsProbed home s n
      → IsProbed home' s n
  IsProbed-home home home' s n same i = record {
    size = i.size;
    room = i.room;
    reach = λ p e lt at. rw (← same p e (lt, at)) (i.reach p e lt at);
  }
