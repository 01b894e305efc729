-- ===== src/Table/Map.antt =====
-- `vmap_init`, `vmap_put` and their twins as a whole: a hash map is a finite map.
use native.Mathlib.Nat.{pow-suc}
use qwen3_8_flash_next.Base.{
  ℕ, zero, suc, ◌+◌, ◌-◌, ◌*◌, ◌^◌, ◌≤◌, ◌<◌, ◌≡◌, ◌↔◌, refl, sym, ap, ◌∙◌, arith, Bool, true,
  false, some, inl, inr, Bool-cases, if◌then◌else◌, ◌==◌, ltb, leb, pow_two_add, pow_two_pos,
  dec_le,
}
use qwen3_8_flash_next.Probe.Empty.{used-empty, empty-IsProbed}
use qwen3_8_flash_next.Probe.Walk.{IsPow}
use qwen3_8_flash_next.Table.Grow.{grow-Grown}
use qwen3_8_flash_next.Table.Put.{assign-Assigned, Assigned-get}
use qwen3_8_flash_next.Table.Valid.{IsValid, get-missing}
use qwen3_8_flash_next.Table.{
  Slot, Table, missing, found, pow2_from, next_pow2, empty, init, get, grow, assign, make_room, put,
  home,
}

small_exponent : (e : ℕ) → 2 ^ e < 2 ^ 63 → e < 63
small_exponent e lt = elim (dec_le 63 e) [
  | no less ↦ omega arith
  | yes le ↦
      let sum : 2 ^ e ≡ 2 ^ 63 * 2 ^ (e - 63) =
        ap (λ k. 2 ^ k) (let z : e ≡ 63 + (e - 63) = omega arith in z) ∙ pow_two_add 63 (e - 63) in
      absurd (omega (arith, sum, pow_two_pos (e - 63)))
]

pow2_from-IsPow :
    (fuel e v : ℕ)
    → v < fuel + 2 ^ e
    → 0 < fuel
    → v ≤ 2 ^ 63
    → e ≤ 64
    → (n : ℕ) × (pow2_from fuel (2 ^ e) v ≡ some n) × IsPow n × (v ≤ n)
unfolding pow2_from
pow2_from-IsPow zero e v lt pos le small = absurd (omega arith)
pow2_from-IsPow (suc fuel) e v lt pos le small = elim (Bool-cases (ltb (2 ^ e) v)) [
  | inr enough ↦
      (2 ^ e, rw enough refl, record { exponent = e; fits = small; power = refl }, ground arith)
  | inl less ↦
      let below : 2 ^ e < v = ground arith in
      let (n, result, pow, room) =
        pow2_from-IsPow fuel (suc e) v (omega (arith, pow-suc 2 e, pow_two_pos e)) (omega arith) le
          (omega (arith, small_exponent e (omega arith))) in
      (n, rw less (ap (λ p. pow2_from fuel p v) (sym (pow-suc 2 e)) ∙ result), pow, room)
]

module _ {ℓ κ} {K : Type ℓ} {V : Type κ} (hash : K → ℕ) (same : K → K → Bool)
    (same_iff : (a b : K) → (same a b ≡ true) ↔ (a ≡ b)) where
  pub empty-IsValid : (n : ℕ) → IsPow n → 4 ≤ n → IsValid hash same (empty {K = K} {V = V} n)
  unfolding empty
  empty-IsValid n pow le = record {
    probed = empty-IsProbed (home hash same) n pow (omega arith);
    keys = λ p q a b sa sb eq. absurd (cc (sa.1));
    counted = used-empty (Slot K V) 0 n;
    enough = le;
  }

  pub get-empty : (n : ℕ) → IsPow n → 4 ≤ n → (k : K) → get hash same (empty {V = V} n) k ≡ missing
  unfolding empty
  get-empty n pow le k =
      get-missing hash same same_iff (empty n) (empty-IsValid n pow le) k
        (λ q e st. absurd (cc (st.1)))

  init_of_pow :
      (want n : ℕ)
      → 4 ≤ want
      → pow2_from (suc want) 1 want ≡ some n
      → init {K = K} {V = V} want ≡ some (empty n)
  unfolding init next_pow2
  init_of_pow want n le r = let h : (want == 0) ≡ false = ground arith in rw (h, init, r)

  -- Vmap_init and mmap_init with a wanted size from 4 to 2 ^ 63 end with a valid map in which no
  -- key is found.
  pub init-empty :
      (want : ℕ)
      → 4 ≤ want
      → want ≤ 2 ^ 63
      → (t : Table K V) × (init want ≡ some t)
        × IsValid hash same t
        × ((k : K) → get hash same t k ≡ missing)
  init-empty want le small =
      let (n, result, pow, room) =
        pow2_from-IsPow (suc want) 0 want (omega arith) (omega arith) small (omega arith) in
      (
        empty n,
        init_of_pow want n le result,
        empty-IsValid n pow (omega arith),
        get-empty n pow (omega arith),
      )

  module _ (t : Table K V) (k : K) (x : V) where
    put_of_room :
        (t' t'' : Table K V)
        → (t.nslots == 0) ≡ false
        → make_room hash same t ≡ some t'
        → assign hash same t' k x ≡ some t''
        → put hash same t k x ≡ some t''
    unfolding put
    put_of_room t' t'' h m a = rw (h, put, m, a)

    room_by_grow :
        (t' : Table K V)
        → leb (t.nslots * 3) (t.count * 4) ≡ true
        → grow hash same t ≡ some t'
        → make_room hash same t ≡ some t'
    unfolding make_room
    room_by_grow t' full g = rw (full, make_room, g)

    room_as_is : leb (t.nslots * 3) (t.count * 4) ≡ false → make_room hash same t ≡ some t
    unfolding make_room
    room_as_is free = rw (free, make_room)

    -- In a valid map of at most 2 ^ 60 slots, vmap_put and mmap_put end with a valid map in which
    -- the put key has the put value and each other key what it had. The count grows by one at
    -- most, the slots double at most, and stay where the count is below three quarters of them.
    pub put-get :
        IsValid hash same t
        → t.nslots ≤ 2 ^ 60
        → (t' : Table K V) × (put hash same t k x ≡ some t')
          × IsValid hash same t'
          × ((k' : K) → get hash same t' k' ≡ (if same k k' then found x else get hash same t k'))
          × (t'.count ≤ t.count + 1)
          × (t'.nslots ≤ t.nslots * 2)
          × (t.count * 4 < t.nslots * 3 → t'.nslots ≡ t.nslots)
    put-get v small = elim (Bool-cases (leb (t.nslots * 3) (t.count * 4))) [
      | inr free ↦
          let a =
            assign-Assigned hash same same_iff t v k x (ground (arith, v.counted, v.enough)) in
          (
            a.after,
            put_of_room t a.after set_up (room_as_is free) a.result,
            a.valid,
            Assigned-get hash same same_iff t v k x a,
            a.counts,
            omega (arith, a.size),
            λ _. a.size,
          )
      | inl full ↦
          let g = grow-Grown hash same same_iff t v small in
          let a = assign-Assigned hash same same_iff g.after g.valid k x (
            omega (arith, g.valid.counted, g.count, v.counted, v.probed.room, g.twice, v.enough)) in
          (
            a.after,
            put_of_room g.after a.after set_up (room_by_grow g.after full g.result) a.result,
            a.valid,
            λ k'.
                Assigned-get hash same same_iff g.after g.valid k x a k'
                ∙ ap (λ r. if same k k' then found x else r) (g.same-get k'),
            omega (arith, a.counts, g.count),
            omega (arith, a.size, g.twice),
            λ lt. absurd (ground arith),
          )
    ]
      where
        set_up : (t.nslots == 0) ≡ false
        set_up = ground (arith, v.enough)
