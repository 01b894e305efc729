-- ===== src/Table/Grow.antt =====
-- `vmap_grow` and `mmap_grow`: the map at twice its size holds the same.
use qwen3_8_flash_next.Base.{
  ℕ, ◌*◌, ◌^◌, ◌≤◌, ◌≡◌, ◌↔◌, refl, sym, ◌∙◌, arith, Bool, true, false, none, some, inl, inr, ◌==◌,
}
use qwen3_8_flash_next.Probe.Empty.{used-empty, empty-IsProbed, double-IsPow}
use qwen3_8_flash_next.Probe.Find.{Stored}
use qwen3_8_flash_next.Probe.Rehash.{Rehashed, rehash-Rehashed}
use qwen3_8_flash_next.Probe.{Slots, rehash_from}
use qwen3_8_flash_next.Table.Valid.{IsValid, presence, get-found, get-missing}
use qwen3_8_flash_next.Table.{Slot, Table, get, grow, home}

module _ {ℓ κ} {K : Type ℓ} {V : Type κ} (hash : K → ℕ) (same : K → K → Bool)
    (same_iff : (a b : K) → (same a b ≡ true) ↔ (a ≡ b)) (t : Table K V) (v : IsValid hash same t)
    (small : t.nslots ≤ 2 ^ 60) where
  pub record Grown : Type (ℓ ⊔ κ) where
    pub after : Table K V
    pub result : grow hash same t ≡ some after
    pub valid : IsValid hash same after
    pub twice : after.nslots ≡ t.nslots * 2
    pub count : after.count ≡ t.count
    pub same-get : (k : K) → get hash same after k ≡ get hash same t k

  rehashed :
      Rehashed (home {V = V} hash same) (λ w. w.key) t.slots 0 t.nslots (λ _. none) (t.nslots * 2)
  rehashed =
      rehash-Rehashed (home hash same) (λ w. w.key) t.nslots 0 t.slots (λ _. none) t.nslots
        (t.nslots * 2) (omega arith)
        (empty-IsProbed (home hash same) (t.nslots * 2) (double-IsPow v.probed.size small)
          (omega (arith, v.enough)))
        (λ p q e e' st. absurd (cc (st.1))) v.keys (λ p q e e' st. absurd (cc (st.1)))
        (omega (arith, used-empty (Slot K V) 0 (t.nslots * 2), v.probed.room, v.enough))

  abbrev bigger : Table K V
  bigger = record t { slots = rehashed.table; nslots = t.nslots * 2 }

  grow_of_rehash :
      (s : Slots (Slot K V))
      → rehash_from (home {V = V} hash same) t.nslots 0 t.slots (λ _. none) (t.nslots * 2) ≡ some s
      → (t.nslots == 0) ≡ false
      → grow hash same t ≡ some (record t { slots = s; nslots = t.nslots * 2 })
  unfolding grow
  grow_of_rehash s r h = rw (h, grow, r, h)

  bigger-IsValid : IsValid hash same bigger
  bigger-IsValid = record {
    probed = rehashed.probed;
    keys = rehashed.distinct;
    counted = omega (arith, rehashed.count, used-empty (Slot K V) 0 (t.nslots * 2), v.counted);
    enough = omega (arith, v.enough);
  }

  came_from :
      (q : ℕ) (e : Slot K V)
      → Stored rehashed.table (t.nslots * 2) q e
      → (p : ℕ) × Stored t.slots t.nslots p e
  came_from q e st = elim (rehashed.source q e st) [
    | inl before ↦ absurd (cc (before.1))
    | inr (p, _, lt, at) ↦ (p, (omega arith, at))
  ]

  same-get : (k : K) → get hash same bigger k ≡ get hash same t k
  same-get k = elim (presence hash same same_iff t v k) [
    | inl (e, p, st, is_k) ↦
        let (q, st') = rehashed.moved p e (omega arith) (let lt = st.0 in omega arith) st.1 in
        get-found hash same same_iff bigger bigger-IsValid k q e st' is_k
        ∙ sym (get-found hash same same_iff t v k p e st is_k)
    | inr f ↦
        get-missing hash same same_iff bigger bigger-IsValid k
          (λ q e st. let (p, st') = came_from q e st in f.absent p e st')
        ∙ sym (get-missing hash same same_iff t v k f.absent)
  ]

  pub grow-Grown : Grown
  grow-Grown = record {
    after = bigger;
    result = grow_of_rehash rehashed.table rehashed.result (ground (arith, v.enough));
    valid = bigger-IsValid;
    twice = refl;
    count = refl;
    same-get = same-get;
  }
