-- ===== src/Probe/Remove.antt =====
-- `remove_from_table` takes out one entry, and every other stays and is found.
use native.Mathlib.Nat.{mod-lt, mod-add-mod, add-mod_right, mod-eq_of_lt}
use qwen3_8_flash_next.Base.{
  ℕ, suc, ◌+◌, ◌-◌, ◌%◌, ◌≤◌, ◌<◌, Bool, true, none, some, ◌≡◌, ◌≢◌, sym, ap, subst, ◌∙◌, arith,
  inl, inr, ◌⊎◌, ℕ_discrete,
}
use qwen3_8_flash_next.Probe.Backshift.{Shifted, backshift-Shifted}
use qwen3_8_flash_next.Probe.Circle.{mod-injective}
use qwen3_8_flash_next.Probe.Find.{Stored, Occupied, IsProbed, used, free_slot, probe_stored}
use qwen3_8_flash_next.Probe.Insert.{put_at-cases, put_at_self, put_at_ne, used-clear}
use qwen3_8_flash_next.Probe.Line.{Line, Sweep, IsLine}
use qwen3_8_flash_next.Probe.Rehash.{IsDistinct}
use qwen3_8_flash_next.Probe.Walk.{IsPow, IsPow-pos, next-mod, reaches}
use qwen3_8_flash_next.Probe.{Slots, masked, next, put_at, probe, backshift, remove}

-- A walk from a home that is at coordinate `h`.
walk_from : (n z x h k : ℕ) → x % n ≡ (z + h) % n → (x + k) % n ≡ (z + (h + k)) % n
walk_from n z x h k e =
    sym (mod-add-mod x n k) ∙ rw e (mod-add-mod (z + h) n k ∙ ap (λ t. t % n) (omega arith))

module _ {ℓ} {E : Type ℓ} (home : E → ℕ) (n z : ℕ) where
  -- On the line, a home lies at or before its entry.
  home_before :
      (s : Slots E) (c : ℕ) (e : E)
      → z < n
      → c < n
      → s z ≡ none
      → IsProbed home s n
      → Line home n z s c ≡ some e
      → (h : ℕ) × (h ≤ c)
        × (home e % n ≡ (z + h) % n)
        × ((x : ℕ) → h ≤ x → x < c → Line home n z s x ≢ none)
  home_before s c e hz hc free i at = (h, omega (arith, h_d), sym is_h, full)
    where
      h : ℕ
      h = (reaches n z (home e % n) (mod-lt (home e) (IsPow-pos i.size))).0

      h_lt : h < n
      h_lt = (reaches n z (home e % n) (mod-lt (home e) (IsPow-pos i.size))).1

      is_h : (z + h) % n ≡ home e % n
      is_h = (reaches n z (home e % n) (mod-lt (home e) (IsPow-pos i.size))).2

      d : ℕ
      d = (i.reach _ e (mod-lt (z + c) (IsPow-pos i.size)) at).0

      comes : (home e + d) % n ≡ (z + c) % n
      comes = (i.reach _ e (mod-lt (z + c) (IsPow-pos i.size)) at).1

      before : Occupied s n (home e) d
      before = (i.reach _ e (mod-lt (z + c) (IsPow-pos i.size)) at).2

      round : (k : ℕ) → h + k ≡ n → (home e + k) % n ≡ z
      round k eq =
          walk_from n z (home e) h k (sym is_h) ∙ rw eq (add-mod_right z n ∙ mod-eq_of_lt hz)

      not_round : (h + d < n) ⊎ (n ≤ h + d) → h + d < n
      not_round (inl lt) = lt
      not_round (inr ge) = elim (ℕ_discrete (h + d) n) [
        | yes eq ↦ absurd (cc (free, ap s (sym (round d eq) ∙ comes), at))
        | no ne ↦
            absurd
              (before (n - h) (omega (arith, h_lt)) (rw (round (n - h) (omega (arith, h_lt))) free))
      ]

      h_d : h + d ≡ c
      h_d =
          mod-injective n z (h + d) c (not_round (omega arith)) hc
            (sym (walk_from n z (home e) h d (sym is_h)) ∙ comes)

      full : (x : ℕ) → h ≤ x → x < c → Line home n z s x ≢ none
      full x lo hi =
          let eq : h + (x - h) ≡ x = omega arith in
          let w : (home e + (x - h)) % n ≡ (z + x) % n =
            walk_from n z (home e) h (x - h) (sym is_h) ∙ ap (λ t. (z + t) % n) eq in
          rw (← w) (before (x - h) (omega (arith, h_d)))

  -- The slot of an entry is emptied: a hole, with nothing scanned behind it yet.
  first_Sweep :
      (s : Slots E) (a : ℕ) (e : E)
      → z < n
      → a < n
      → s z ≡ none
      → IsProbed home s n
      → Line home n z s a ≡ some e
      → Sweep home n z (put_at s ((z + a) % n) none) a (suc a)
  first_Sweep s a e hz ha free i at = record {
    start = elim (put_at-cases s ((z + a) % n) ((z + 0) % n) none) [
      | inl (_, eq) ↦ eq
      | inr (_, eq) ↦ eq ∙ start
    ];
    positive = pos (ℕ_discrete a 0);
    ahead = omega arith;
    inside = ha;
    hole = put_at_self s ((z + a) % n) none;
    run = λ c lo hi. absurd (omega arith);
    reach = λ c e' cn at'. elim (put_at-cases s ((z + a) % n) ((z + c) % n) none) [
      | inl (_, eq) ↦ absurd (cc (eq, at'))
      | inr (_, eq) ↦
          let (h, le, is_home, full) = home_before s c e' hz cn free i (sym eq ∙ at') in
          (
            h,
            le,
            is_home,
            (λ x lo hi ne. other x (omega arith) ne (full x lo hi)),
            (λ lo hi. absurd (omega arith)),
          )
    ];
  }
    where
      start : s ((z + 0) % n) ≡ none
      start = ap s (ap (λ t. t % n) (omega arith) ∙ mod-eq_of_lt hz) ∙ free

      pos : Dec (a ≡ 0) → 0 < a
      pos (yes is_0) = absurd (cc (start, ap (λ t. s ((z + t) % n)) is_0, at))
      pos (no ne) = omega arith

      other :
          (x : ℕ)
          → x < n
          → x ≢ a
          → Line home n z s x ≢ none
          → put_at s ((z + a) % n) none ((z + x) % n) ≢ none
      other x xn ne used_x = elim (put_at-cases s ((z + a) % n) ((z + x) % n) none) [
        | inl (eq, _) ↦ absurd (ne (sym (mod-injective n z a x ha xn eq)))
        | inr (_, eq) ↦ λ none_x. used_x (sym eq ∙ none_x)
      ]

  line-IsProbed :
      (s : Slots E) → z < n → IsPow n → used s n < n → IsLine home n z s → IsProbed home s n
  line-IsProbed s hz p room l = record {
    size = p;
    room = room;
    reach = λ q e hq at.
        let (c, hc, c_q) = reaches n z q hq in
        let (h, le, is_home, full) = l.reach c e hc (ap s c_q ∙ at) in
        (
          c - h,
          walk_from n z (home e) h (c - h) is_home ∙ ap (λ t. (z + t) % n) (omega arith) ∙ c_q,
          λ k lt free.
              full (h + k) (omega arith) (omega arith)
                (ap s (sym (walk_from n z (home e) h k is_home)) ∙ free),
        );
  }

module _ {ℓ κ} {E : Type ℓ} {K : Type κ} (home : E → ℕ) (tag : E → K) where
  -- What is left of a table `s` when the entry at `p` is taken out.
  pub record Removed (is_it : E → Bool) (h : ℕ) (s : Slots E) (n p : ℕ) : Type (ℓ ⊔ κ) where
    pub table : Slots E
    pub result : remove home is_it h s n ≡ some table
    pub probed : IsProbed home table n
    pub count : used table n + 1 ≡ used s n
    pub kept : (q : ℕ) (e : E) → Stored s n q e → q ≢ p → (r : ℕ) × Stored table n r e
    pub source : (q : ℕ) (e : E) → Stored table n q e → (r : ℕ) × Stored s n r e × (r ≢ p)
    pub distinct : IsDistinct tag s n → IsDistinct tag table n

  remove_of_probe :
      (is_it : E → Bool) (h : ℕ) (s : Slots E) (n p : ℕ) (e : E)
      → probe is_it n s n (masked n h) ≡ some p
      → s p ≡ some e
      → remove home is_it h s n ≡ backshift home n (put_at s p none) n p (next n p)
  unfolding remove
  remove_of_probe is_it h s n p e r at = rw (r, remove, at)

  clear-IsDistinct :
      (s : Slots E) (n p : ℕ) → IsDistinct tag s n → IsDistinct tag (put_at s p none) n
  clear-IsDistinct s n p d q r a b sa sb same = elim (put_at-cases s p q none) [
    | inl (_, eq) ↦ absurd (cc (eq, sa.1))
    | inr (_, eq) ↦ elim (put_at-cases s p r none) [
      | inl (_, eq') ↦ absurd (cc (eq', sb.1))
      | inr (_, eq') ↦ d q r a b (sa.0, sym eq ∙ sa.1) (sb.0, sym eq' ∙ sb.1) same
    ]
  ]

  remove_at :
      (is_it : E → Bool) (s : Slots E) (n z a : ℕ) (e : E)
      → z < n
      → a < n
      → s z ≡ none
      → IsProbed home s n
      → ((q : ℕ) (e' : E) → Stored s n q e' → is_it e' ≡ true → q ≡ (z + a) % n)
      → s ((z + a) % n) ≡ some e
      → is_it e ≡ true
      → Removed is_it (home e) s n ((z + a) % n)
  remove_at is_it s n z a e hz ha free i only at yes_e = record {
    table = sh.table;
    result =
        remove_of_probe is_it (home e) s n p e
          (probe_stored home is_it s n p e i only (p_lt, at) yes_e) at
        ∙ rw
            (next-mod (z + a) i.size
              ∙ ap (λ k. k % n) (let w : z + a + 1 ≡ z + suc a = omega arith in w))
            sh.result;
    probed =
        line-IsProbed home n z sh.table hz i.size (let r = i.room in omega (arith, fewer)) sh.line;
    count = fewer;
    kept = λ q e' st no_p.
        sh.entries.kept q e' (st.0, put_at_ne s p q none (λ x. no_p (sym x)) ∙ st.1);
    source = λ q e' st. source (sh.entries.source q e' st).0 e' (sh.entries.source q e' st).1;
    distinct = λ d. sh.entries.distinct (clear-IsDistinct s n p d);
  }
    where
      p : ℕ
      p = (z + a) % n

      p_lt : p < n
      p_lt = mod-lt (z + a) (IsPow-pos i.size)

      sh : Shifted home tag n n z p ((z + suc a) % n) (put_at s p none)
      sh =
          backshift-Shifted home tag n n z (put_at s p none) a (suc a) i.size
            (first_Sweep home n z s a e hz ha free i at) (omega arith)

      fewer : used sh.table n + 1 ≡ used s n
      fewer = ap (λ k. k + 1) sh.entries.count ∙ used-clear s n p e p_lt at

      source :
          (r : ℕ) (e' : E) → Stored (put_at s p none) n r e' → (r : ℕ) × Stored s n r e' × (r ≢ p)
      source r e' st = elim (put_at-cases s p r none) [
        | inl (_, eq) ↦ absurd (cc (eq, st.1))
        | inr (ne, eq) ↦ (r, (st.0, sym eq ∙ st.1), λ x. ne (sym x))
      ]

  -- In a table whose entries are all reached from their homes, if the search stops at the entry
  -- of slot p alone, then the removal of that entry ends; the table has one entry less, it has
  -- the other entries and no others, no tag becomes doubled, and every entry is still reached
  -- from its home.
  pub remove-Removed :
      (is_it : E → Bool) (s : Slots E) (n p : ℕ) (e : E)
      → IsProbed home s n
      → ((q : ℕ) (e' : E) → Stored s n q e' → is_it e' ≡ true → q ≡ p)
      → Stored s n p e
      → is_it e ≡ true
      → Removed is_it (home e) s n p
  remove-Removed is_it s n p e i only st yes_e =
      let (z, hz, free) = free_slot s n i.room in
      let (a, ha, a_p) = reaches n z p st.0 in
      subst (λ q. Removed is_it (home e) s n q) a_p
        (remove_at is_it s n z a e hz ha free i (λ q e' st' y. only q e' st' y ∙ sym a_p)
          (ap s a_p ∙ st.1) yes_e)
