-- ===== src/Probe/Rehash.antt =====
-- Moving every entry of a table into a larger one keeps the entries.
use qwen3_8_flash_next.Base.{
  ℕ, zero, suc, ◌+◌, ◌≤◌, ◌<◌, none, some, ◌≡◌, ◌≢◌, refl, sym, ap, ◌∙◌, arith, inl, inr, ◌⊎◌,
  Option-cases, ℕ_discrete,
}
use qwen3_8_flash_next.Probe.Find.{Stored, IsProbed, used_from, used}
use qwen3_8_flash_next.Probe.Insert.{
  Stored-put, put-Stored, Inserted, reinsert-Inserted, put_at_self,
}
use qwen3_8_flash_next.Probe.{Slots, put_at, reinsert, rehash_from}

module _ {ℓ κ} {E : Type ℓ} {K : Type κ} (tag : E → K) where
  -- No two slots hold entries of one tag.
  abbrev pub IsDistinct : Slots E → ℕ → Type (ℓ ⊔ κ)
  IsDistinct s n = (p q : ℕ) (e e' : E) → Stored s n p e → Stored s n q e' → tag e ≡ tag e' → p ≡ q

  -- No entry of the first table has the tag of one of `left` slots of the second from `i` on.
  abbrev pub IsApart : Slots E → ℕ → Slots E → ℕ → ℕ → Type (ℓ ⊔ κ)
  IsApart s n old i left =
      (p q : ℕ) (e e' : E)
      → Stored s n p e
      → i ≤ q
      → q < i + left
      → old q ≡ some e'
      → tag e ≢ tag e'

module _ {ℓ κ} {E : Type ℓ} {K : Type κ} (home : E → ℕ) (tag : E → K) where
  pub record Rehashed (old : Slots E) (i left : ℕ) (s : Slots E) (n : ℕ) : Type (ℓ ⊔ κ) where
    pub table : Slots E
    pub result : rehash_from home left i old s n ≡ some table
    pub probed : IsProbed home table n
    pub distinct : IsDistinct tag table n
    pub count : used table n ≡ used s n + used_from old i left
    pub kept : (q : ℕ) (e : E) → Stored s n q e → Stored table n q e
    pub moved :
        (p : ℕ) (e : E) → i ≤ p → p < i + left → old p ≡ some e → (q : ℕ) × Stored table n q e
    pub source :
        (q : ℕ) (e : E)
        → Stored table n q e
        → Stored s n q e ⊎ ((p : ℕ) × (i ≤ p) × (p < i + left) × (old p ≡ some e))

  pub put-IsDistinct :
      (s : Slots E) (n p : ℕ) (e : E)
      → IsDistinct tag s n
      → ((q : ℕ) (e' : E) → Stored s n q e' → tag e' ≢ tag e)
      → IsDistinct tag (put_at s p (some e)) n
  put-IsDistinct s n p e d fresh q r a b sa sb same =
      go (Stored-put s n p q e a sa) (Stored-put s n p r e b sb)
    where
      go : ((p ≡ q) × (e ≡ a)) ⊎ Stored s n q a → ((p ≡ r) × (e ≡ b)) ⊎ Stored s n r b → q ≡ r
      go (inl (x, _)) (inl (y, _)) = sym x ∙ y
      go (inl (_, is_a)) (inr st) = absurd (fresh r b st (rw is_a (sym same)))
      go (inr st) (inl (_, is_b)) = absurd (fresh q a st (rw is_b same))
      go (inr st) (inr st') = d q r a b st st' same

  rehash_skip :
      (left i : ℕ) (old s : Slots E) (n : ℕ)
      → old i ≡ none
      → rehash_from home (suc left) i old s n ≡ rehash_from home left (i + 1) old s n
  unfolding rehash_from
  rehash_skip left i old s n h = rw (h, rehash_from)

  rehash_move :
      (left i : ℕ) (old s : Slots E) (n : ℕ) (e : E) (s' : Slots E)
      → old i ≡ some e
      → reinsert home s n e ≡ some s'
      → rehash_from home (suc left) i old s n ≡ rehash_from home left (i + 1) old s' n
  unfolding rehash_from
  rehash_move left i old s n e s' h r = rw (h, rehash_from, r)

  Rehashed-skip :
      (left i : ℕ) (old s : Slots E) (n : ℕ)
      → old i ≡ none
      → Rehashed old (i + 1) left s n
      → Rehashed old i (suc left) s n
  Rehashed-skip left i old s n free r = record {
    table = r.table;
    result = rehash_skip left i old s n free ∙ r.result;
    probed = r.probed;
    distinct = r.distinct;
    count = rw free (omega (arith, r.count));
    kept = r.kept;
    moved = λ p e lo hi at. elim (ℕ_discrete p i) [
      | yes here ↦ absurd (cc (free, rw here at at))
      | no ne ↦ r.moved p e (omega arith) (omega arith) at
    ];
    source = λ q e st. elim (r.source q e st) [
      | inl before ↦ inl before
      | inr (p, lo, hi, at) ↦ inr (p, omega arith, omega arith, at)
    ];
  }

  Rehashed-move :
      (left i : ℕ) (old s : Slots E) (n : ℕ) (e : E)
      → old i ≡ some e
      → (ins : Inserted home s n e) → Rehashed old (i + 1) left (put_at s ins.place (some e)) n
      → Rehashed old i (suc left) s n
  Rehashed-move left i old s n e here ins r = record {
    table = r.table;
    result = rehash_move left i old s n e _ here ins.result ∙ r.result;
    probed = r.probed;
    distinct = r.distinct;
    count = rw here (omega (arith, r.count, ins.one_more));
    kept = λ q e' st. r.kept q e' (put-Stored s n ins.place q e e' ins.was_free st);
    moved = λ p e' lo hi at. elim (ℕ_discrete p i) [
      | yes same ↦ (
        ins.place,
        r.kept ins.place e'
            (ins.place_lt, put_at_self s ins.place (some e) ∙ sym here ∙ rw same at at),
      )
      | no ne ↦ r.moved p e' (omega arith) (omega arith) at
    ];
    source = λ q e' st. elim (r.source q e' st) [
      | inl before ↦ elim (Stored-put s n ins.place q e e' before) [
        | inl (_, is_e) ↦ inr (i, omega arith, omega arith, here ∙ ap some is_e)
        | inr st' ↦ inl st'
      ]
      | inr (p, lo, hi, at) ↦ inr (p, omega arith, omega arith, at)
    ];
  }

  put-IsApart :
      (left i : ℕ) (old s : Slots E) (m n : ℕ) (e : E) (place : ℕ)
      → i + suc left ≤ m
      → old i ≡ some e
      → IsDistinct tag old m
      → IsApart tag s n old i (suc left)
      → IsApart tag (put_at s place (some e)) n old (i + 1) left
  put-IsApart left i old s m n e place le here dold apart p q a b st lo hi at same =
      elim (Stored-put s n place p e a st) [
        | inl (_, is_e) ↦
            let z : i ≡ q =
              dold i q e b (omega arith, here) (omega arith, at) (ap tag is_e ∙ same) in
            absurd (omega arith)
        | inr st' ↦ apart p q a b st' (omega arith) (omega arith) at same
      ]

  -- The loop of grow_table over `left` slots of the old table from slot i on, into a table where
  -- every entry is reached from its home, with room for them, and with tags that are distinct and
  -- apart: it ends, the new table has what it had and the entries of those slots and nothing
  -- else, the tags stay distinct, and every entry is reached from its home.
  pub rehash-Rehashed :
      (left i : ℕ) (old s : Slots E) (m n : ℕ)
      → i + left ≤ m
      → IsProbed home s n
      → IsDistinct tag s n
      → IsDistinct tag old m
      → IsApart tag s n old i left
      → used s n + used_from old i left < n
      → Rehashed old i left s n
  unfolding rehash_from
  rehash-Rehashed zero i old s m n le pr ds dold apart room = record {
    table = s;
    result = refl;
    probed = pr;
    distinct = ds;
    count = omega arith;
    kept = λ q e st. st;
    moved = λ p e lo hi at. absurd (omega arith);
    source = λ q e st. inl st;
  }
  rehash-Rehashed (suc left) i old s m n le pr ds dold apart room = elim (Option-cases (old i)) [
    | inl free ↦
        let z = rw free at room in
        Rehashed-skip left i old s n free (
          rehash-Rehashed left (i + 1) old s m n (omega arith) pr ds dold
            (λ p q e e' st lo hi. apart p q e e' st (omega arith) (omega arith)) (omega arith))
    | inr (e, at) ↦
        let z = rw at at room in
        let ins = reinsert-Inserted home s n e pr (omega arith) in
        Rehashed-move left i old s n e at ins (
          rehash-Rehashed left (i + 1) old (put_at s ins.place (some e)) m n (omega arith)
            ins.probed
            (put-IsDistinct s n ins.place e ds
              (λ q e' st. apart q i e' e st (omega arith) (omega arith) at))
            dold (put-IsApart left i old s m n e ins.place le at dold apart)
            (omega (arith, ins.one_more)))
  ]
