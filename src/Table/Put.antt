-- ===== src/Table/Put.antt =====
-- `vmap_put` and `mmap_put`: the key gets the value, and no other key changes.
use native.Mathlib.Nat.{mod-lt}
use qwen3_8_flash_next.Base.{
  subst, ℕ, ◌+◌, ◌≤◌, ◌<◌, ◌≡◌, ◌≢◌, ◌↔◌, refl, sym, ap, ◌∙◌, arith, Bool, true, false, Option,
  none, some, inl, inr, ◌⊎◌, Bool-cases, if◌then◌else◌,
}
use qwen3_8_flash_next.Probe.Find.{Stored, used}
use qwen3_8_flash_next.Probe.Insert.{
  Stored-put, put-Stored, put_at_self, put_at_ne, used-put, fill-IsProbed, replace-IsProbed,
}
use qwen3_8_flash_next.Probe.Rehash.{IsDistinct, put-IsDistinct}
use qwen3_8_flash_next.Probe.{probe, masked, put_at}
use qwen3_8_flash_next.Table.Valid.{IsValid, Free, presence, get-found, get-missing, at_key}
use qwen3_8_flash_next.Table.{Slot, Table, found, get, write, assign, home, is_key}

module _ {ℓ κ} {K : Type ℓ} {V : Type κ} (hash : K → ℕ) (same : K → K → Bool)
    (same_iff : (a b : K) → (same a b ≡ true) ↔ (a ≡ b)) (t : Table K V) (v : IsValid hash same t)
    (k : K) (x : V) where
  abbrev new : Slot K V
  new = record { key = k; value = x }

  -- What an assignment leaves: a valid map with the value at the key, and all else as before.
  pub record Assigned (r : Option (Table K V)) : Type (ℓ ⊔ κ) where
    pub after : Table K V
    pub result : r ≡ some after
    pub valid : IsValid hash same after
    pub size : after.nslots ≡ t.nslots
    pub counts : after.count ≤ t.count + 1
    pub place : ℕ
    pub here : Stored after.slots after.nslots place (record { key = k; value = x })
    pub others :
        (q : ℕ) (e : Slot K V)
        → Stored after.slots after.nslots q e
        → ((place ≡ q) × (new ≡ e)) ⊎ Stored t.slots t.nslots q e
    pub kept :
        (q : ℕ) (e : Slot K V)
        → Stored t.slots t.nslots q e
        → e.key ≢ k
        → Stored after.slots after.nslots q e

  assign_at :
      (p : ℕ)
      → probe (is_key {V = V} hash same k) t.nslots t.slots t.nslots (masked t.nslots (hash k))
        ≡ some p
      → assign hash same t k x ≡ some (write t p k x)
  unfolding assign
  assign_at p r = rw (r, assign)

  write_old :
      (p : ℕ) (e : Slot K V)
      → t.slots p ≡ some e
      → e.key ≡ k
      → write t p k x ≡ record t { slots = put_at t.slots p (some new) }
  unfolding write
  write_old p e at is_k =
      rw (at, write)
        (ap (λ w. record t { slots = put_at t.slots p (some (record { key = w; value = x })) })
          is_k)

  write-new :
      (p : ℕ)
      → t.slots p ≡ none
      → write t p k x ≡ record t { slots = put_at t.slots p (some new); count = t.count + 1 }
  unfolding write
  write-new p at = rw (at, write)

  Assigned-old :
      (e : Slot K V) (p : ℕ)
      → Stored t.slots t.nslots p e
      → e.key ≡ k
      → Assigned (assign hash same t k x)
  Assigned-old e p st is_k =
      let (probed, same_used) =
        replace-IsProbed (home hash same) t.slots t.nslots p e new v.probed st
          (ap hash (sym is_k)) in
      record {
        after = record t { slots = put_at t.slots p (some new) };
        result =
            assign_at p (at_key hash same same_iff t v k p e st is_k)
            ∙ ap some (write_old p e st.1 is_k);
        valid = record {
          probed = probed;
          keys = distinct;
          counted = same_used ∙ v.counted;
          enough = v.enough;
        };
        size = refl;
        counts = omega arith;
        place = p;
        here = (st.0, put_at_self t.slots p (some new));
        others = λ q e' st'. Stored-put t.slots t.nslots p q new e' st';
        kept = λ q e' st' other. (
          st'.0,
          put_at_ne t.slots p q (some new) (λ is_q. other (at_place e' (rw (sym is_q) at st'.1)))
              ∙ st'.1,
        );
      }
    where
      at_place : (e' : Slot K V) → t.slots p ≡ some e' → e'.key ≡ k
      at_place e' at = let same_e : e' ≡ e = cc (at, st.1) in ap (λ w. w.key) same_e ∙ is_k

      distinct : IsDistinct {E = Slot K V} (λ w. w.key) (put_at t.slots p (some new)) t.nslots
      distinct q r a b sa sb eq =
          go (Stored-put t.slots t.nslots p q new a sa) (Stored-put t.slots t.nslots p r new b sb)
        where
          go :
              ((p ≡ q) × (new ≡ a)) ⊎ Stored t.slots t.nslots q a
              → ((p ≡ r) × (new ≡ b)) ⊎ Stored t.slots t.nslots r b
              → q ≡ r
          go (inl (is_q, _)) (inl (is_r, _)) = sym is_q ∙ is_r
          go (inl (is_q, is_a)) (inr st') =
              sym is_q ∙ v.keys p r e b st st' (is_k ∙ ap (λ w. w.key) is_a ∙ eq)
          go (inr st') (inl (is_r, is_b)) =
              v.keys q p a e st' st (eq ∙ sym (ap (λ w. w.key) is_b) ∙ sym is_k) ∙ is_r
          go (inr st') (inr st'') = v.keys q r a b st' st'' eq

  Assigned-new :
      used t.slots t.nslots + 1 < t.nslots
      → Free hash same same_iff t v k
      → Assigned (assign hash same t k x)
  Assigned-new room f = record {
    after = record t { slots = put_at t.slots f.place (some new); count = t.count + 1 };
    result = assign_at f.place f.result ∙ ap some (write-new f.place f.is_free);
    valid = record {
      probed =
          fill-IsProbed (home hash same) (is_key hash same k) t.slots t.nslots f.place new v.probed
            room f.walk f.is_place f.is_free;
      keys =
          put-IsDistinct (home hash same) (λ w. w.key) t.slots t.nslots f.place new v.keys
            (λ q e st. f.absent q e st);
      counted =
          used-put t.slots t.nslots f.place new place_lt f.is_free ∙ ap (λ n. n + 1) v.counted;
      enough = v.enough;
    };
    size = refl;
    counts = omega arith;
    place = f.place;
    here = (place_lt, put_at_self t.slots f.place (some new));
    others = λ q e st. Stored-put t.slots t.nslots f.place q new e st;
    kept = λ q e st _. put-Stored t.slots t.nslots f.place q new e f.is_free st;
  }
    where
      place_lt : f.place < t.nslots
      place_lt = subst (λ q. q < t.nslots) f.is_place (mod-lt _ (omega (arith, v.enough)))

  pub assign-Assigned : used t.slots t.nslots + 1 < t.nslots → Assigned (assign hash same t k x)
  assign-Assigned room = elim (presence hash same same_iff t v k) [
    | inl (e, p, st, is_k) ↦ Assigned-old e p st is_k
    | inr f ↦ Assigned-new room f
  ]

  -- After an assignment the key has the value, and every other key what it had.
  pub Assigned-get :
      (a : Assigned (assign hash same t k x)) (k' : K)
      → get hash same a.after k' ≡ (if same k k' then found x else get hash same t k')
  Assigned-get a k' = elim (Bool-cases (same k k')) [
    | inl yes_k ↦ rw yes_k (
        get-found hash same same_iff a.after a.valid k' a.place new a.here
          ((same_iff k k').0 yes_k))
    | inr other ↦ rw other (elim (presence hash same same_iff t v k') [
      | inl (e, p, st, is_k') ↦
          get-found hash same same_iff a.after a.valid k' p e
            (a.kept p e st (λ is_k. differ other (sym is_k ∙ is_k'))) is_k'
          ∙ sym (get-found hash same same_iff t v k' p e st is_k')
      | inr f ↦
          get-missing hash same same_iff a.after a.valid k' (λ q e st is_k'.
            elim (a.others q e st) [
              | inl (_, is_new) ↦ differ other (ap (λ w. w.key) is_new ∙ is_k')
              | inr before ↦ f.absent q e before is_k'
            ])
          ∙ sym (get-missing hash same same_iff t v k' f.absent)
    ])
  ]
    where
      differ : same k k' ≡ false → k ≡ k' → ⊥
      differ other eq = let eq' = (same_iff k k').1 eq in cc
