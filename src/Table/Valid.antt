-- ===== src/Table/Valid.antt =====
-- The invariant of the hash maps of c/src/tokenizer.c, and what a map holds.
use native.Mathlib.Nat.{mod-lt}
use qwen3_8_flash_next.Base.{
  ◌==◌, false, ℕ, ◌+◌, ◌%◌, ◌≤◌, ◌≡◌, ◌≢◌, ◌↔◌, refl, sym, ap, ◌∙◌, arith, Bool, true, Option, none,
  some, inl, inr, ◌⊎◌,
}
use qwen3_8_flash_next.Probe.Find.{Stored, IsProbed, used, search_ends, probe_stored}
use qwen3_8_flash_next.Probe.Rehash.{IsDistinct}
use qwen3_8_flash_next.Probe.Walk.{Walk, StopsAt, masked-eq-mod}
use qwen3_8_flash_next.Probe.{probe, masked}
use qwen3_8_flash_next.Table.{Slot, Table, missing, found, get, home, is_key}

module _ {ℓ κ} {K : Type ℓ} {V : Type κ} (hash : K → ℕ) (same : K → K → Bool) where
  -- Every entry is reached from its home, no key is stored twice, and `count` counts.
  pub record IsValid (t : Table K V) : Type (ℓ ⊔ κ) where
    pub probed : IsProbed (home {V = V} hash same) t.slots t.nslots
    pub keys : IsDistinct {E = Slot K V} (λ e. e.key) t.slots t.nslots
    pub counted : used t.slots t.nslots ≡ t.count
    pub enough : 4 ≤ t.nslots

  -- The map sends the key to the value.
  abbrev pub Holds : Table K V → K → V → Type (ℓ ⊔ κ)
  Holds t k v = (p : ℕ) × Stored t.slots t.nslots p (record { key = k; value = v })

  module _ (same_iff : (a b : K) → (same a b ≡ true) ↔ (a ≡ b)) (t : Table K V) (v : IsValid t)
      (k : K) where
    -- Nothing in the map has the key.
    abbrev pub Absent : Type (ℓ ⊔ κ)
    Absent = (q : ℕ) (e : Slot K V) → Stored t.slots t.nslots q e → e.key ≢ k

    pub at_key :
        (p : ℕ) (e : Slot K V)
        → Stored t.slots t.nslots p e
        → e.key ≡ k
        → probe (is_key {V = V} hash same k) t.nslots t.slots t.nslots (masked t.nslots (hash k))
          ≡ some p
    at_key p e st is_k =
        ap
          (λ x.
            probe (is_key {V = V} hash same k) t.nslots t.slots t.nslots (masked t.nslots (hash x)))
          (sym is_k)
        ∙ probe_stored (home {V = V} hash same) (is_key {V = V} hash same k) t.slots t.nslots p e
            v.probed
            (λ q e' st' stop. v.keys q p e' e st' st ((same_iff e'.key k).0 stop ∙ sym is_k)) st
            ((same_iff e.key k).1 is_k)

    pub record Free : Type (ℓ ⊔ κ) where
      pub walk : Walk (is_key {V = V} hash same k) t.nslots t.slots t.nslots (hash k)
      pub place : ℕ
      pub is_place : (hash k + walk.steps) % t.nslots ≡ place
      pub is_free : t.slots place ≡ none
      pub result :
          probe (is_key {V = V} hash same k) t.nslots t.slots t.nslots (masked t.nslots (hash k))
          ≡ some place
      pub absent : Absent

    -- A key is stored with a value, or a search ends at a free slot and nothing has the key.
    pub presence : ((e : Slot K V) × (p : ℕ) × Stored t.slots t.nslots p e × (e.key ≡ k)) ⊎ Free
    presence = go (t.slots place) refl w.stopped
      where
        w : Walk (is_key {V = V} hash same k) t.nslots t.slots t.nslots (hash k)
        w = search_ends (is_key hash same k) t.slots t.nslots (hash k) v.probed.size v.probed.room

        place : ℕ
        place = (hash k + w.steps) % t.nslots

        result :
            probe (is_key {V = V} hash same k) t.nslots t.slots t.nslots (masked t.nslots (hash k))
            ≡ some place
        result = rw (masked-eq-mod (hash k) v.probed.size) w.result

        go :
            (o : Option (Slot K V))
            → t.slots place ≡ o
            → StopsAt (is_key hash same k) o
            → ((e : Slot K V) × (p : ℕ) × Stored t.slots t.nslots p e × (e.key ≡ k)) ⊎ Free
        go (some e) at stop =
            inl (e, place, (mod-lt _ (omega (arith, v.enough)), at), (same_iff e.key k).0 stop)
        go none at stop = inr (record {
          walk = w;
          place = place;
          is_place = refl;
          is_free = at;
          result = result;
          absent = λ q e st is_k. cc (at, st.1, at_key q e st is_k, result);
        })

    some_slots : (t.nslots == 0) ≡ false
    some_slots = ground (arith, v.enough)

    pub get-found :
        (p : ℕ) (e : Slot K V)
        → Stored t.slots t.nslots p e
        → e.key ≡ k
        → get hash same t k ≡ found e.value
    unfolding get
    get-found p e st is_k = rw (some_slots, at_key p e st is_k, get, st.1)

    get_of_place :
        (p : ℕ)
        → probe (is_key {V = V} hash same k) t.nslots t.slots t.nslots (masked t.nslots (hash k))
          ≡ some p
        → t.slots p ≡ none
        → get hash same t k ≡ missing
    unfolding get
    get_of_place p r free = rw (some_slots, r, get, free)

    pub get-missing : Absent → get hash same t k ≡ missing
    get-missing none_has = elim presence [
      | inl (e, p, st, is_k) ↦ absurd (none_has p e st is_k)
      | inr f ↦ get_of_place f.place f.result f.is_free
    ]
