-- ===== src/Tokenizer/Bpe/Spells.antt =====
-- What the ids of c/src/tokenizer.c spell: `encode_chunk` ends, and its ids spell the chunk.
use qwen3_8_flash_next.Base.{
  ℕ, zero, suc, ◌+◌, ◌≤◌, ◌<◌, ◌≡◌, ◌≢◌, refl, sym, ap, ◌∙◌, subst, arith, some, List, [], ◌∷◌,
  ◌++◌, ltb, if◌then◌else◌, length, get_or, Bool-cases, inl, inr, ◌⊎◌,
}
use qwen3_8_flash_next.Table.{Fault, Lookup, fault, missing, found}
use qwen3_8_flash_next.Tokenizer.Bpe.Ends.{merge_all-Merged}
use qwen3_8_flash_next.Tokenizer.Bpe.{
  Tokenizer, Coded, coded, failed, stuck, ids_of, merge_at, merge_all, within, encode_chunk, key_of,
}
use qwen3_8_flash_next.Tokenizer.Form.{byte_form}
use qwen3_8_flash_next.Tokenizer.Vocab.{Merge, vmap_get, mmap_find}

-- The key that spells some bytes.
abbrev pub forms : List ℕ → List ℕ
forms [] = []
forms (b ∷ bytes) = byte_form b ++ forms bytes

pub append_assoc {ℓ} : {A : Type ℓ} (xs ys zs : List A) → (xs ++ ys) ++ zs ≡ xs ++ (ys ++ zs)
append_assoc [] ys zs = refl
append_assoc (x ∷ xs) ys zs = ap (λ w. x ∷ w) (append_assoc xs ys zs)

pub append_nil {ℓ} : {A : Type ℓ} (xs : List A) → xs ++ [] ≡ xs
append_nil [] = refl
append_nil (x ∷ xs) = ap (λ w. x ∷ w) (append_nil xs)

forms-append : (xs ys : List ℕ) → forms (xs ++ ys) ≡ forms xs ++ forms ys
forms-append [] ys = refl
forms-append (b ∷ xs) ys =
    ap (λ w. byte_form b ++ w) (forms-append xs ys)
    ∙ sym (append_assoc (byte_form b) (forms xs) (forms ys))

-- What the loader makes sure of: no search of the two maps faults, an id that the vocabulary has
-- for a byte has its form as key, and a merged id has the keys of the pair, joined, as key.
pub record IsConsistent (t : Tokenizer) : Type 0 where
  pub vocab_total : (k : List ℕ) (f : Fault) → vmap_get t.vocab k ≢ fault f
  pub merges_total : (a b : ℕ) (f : Fault) → mmap_find t.merges a b ≢ fault f
  pub vocab_keys :
      (b id : ℕ) → vmap_get t.vocab (byte_form b) ≡ found id → key_of t id ≡ some (byte_form b)
  pub merge_keys :
      (a b id : ℕ) (merge : Merge) (x y : List ℕ)
      → mmap_find t.merges a b ≡ found merge
      → merge.merged ≡ some id
      → key_of t a ≡ some x
      → key_of t b ≡ some y
      → key_of t id ≡ some (x ++ y)

-- The keys of the ids, one behind the other, spell the bytes.
abbrev pub Spells : Tokenizer → List ℕ → List ℕ → Type 0
Spells t [] s = s ≡ []
Spells t (id ∷ ids) s =
    (seg : List ℕ) × (rest : List ℕ) × (s ≡ seg ++ rest)
    × (key_of t id ≡ some (forms seg))
    × Spells t ids rest

module _ (t : Tokenizer) (c : IsConsistent t) where
  merge_at-Spells :
      (i id : ℕ) (cur s : List ℕ) (merge : Merge)
      → i + 1 < length cur
      → mmap_find t.merges (get_or cur i 0) (get_or cur (i + 1) 0) ≡ found merge
      → merge.merged ≡ some id
      → Spells t cur s
      → Spells t (merge_at i id cur) s
  unfolding merge_at
  merge_at-Spells i id [] s merge lt at has_id h = absurd (omega arith)
  merge_at-Spells i id (a ∷ []) s merge lt at has_id h = absurd (omega arith)
  merge_at-Spells zero id (a ∷ b ∷ cur) s merge lt at has_id
        (x, rest, e, key_a, (y, rest', e', key_b, h)) =
      (
        x ++ y,
        rest',
        e ∙ ap (λ w. x ++ w) e' ∙ sym (append_assoc x y rest'),
        c.merge_keys a b id merge (forms x) (forms y) at has_id key_a key_b
            ∙ ap some (sym (forms-append x y)),
        h,
      )
  merge_at-Spells (suc i) id (a ∷ b ∷ cur) s merge lt at has_id (x, rest, e, key_a, h) = (
    x,
    rest,
    e,
    key_a,
    merge_at-Spells i id (b ∷ cur) rest merge (omega arith)
        (ap (λ j. mmap_find t.merges (get_or (b ∷ cur) i 0) (get_or (a ∷ b ∷ cur) j 0))
            (let z : suc (i + 1) ≡ suc i + 1 = omega arith in z)
          ∙ at)
        has_id h,
  )

  -- The ids that the loop starts from, or the failure.
  abbrev Spelled : List ℕ → Coded → Type 0
  Spelled s (coded ids) = Spells t ids s
  Spelled s failed = Unit
  Spelled s stuck = ⊥

  ids_of_next :
      (b id : ℕ) (bytes ids : List ℕ)
      → vmap_get t.vocab (byte_form b) ≡ found id
      → ids_of t.vocab bytes ≡ coded ids
      → ids_of t.vocab (b ∷ bytes) ≡ coded (id ∷ ids)
  unfolding ids_of
  ids_of_next b id bytes ids h e = rw (h, ids_of, e)

  ids_of_failed :
      (b id : ℕ) (bytes : List ℕ)
      → vmap_get t.vocab (byte_form b) ≡ found id
      → ids_of t.vocab bytes ≡ failed
      → ids_of t.vocab (b ∷ bytes) ≡ failed
  unfolding ids_of
  ids_of_failed b id bytes h e = rw (h, ids_of, e)

  ids_of_missing :
      (b : ℕ) (bytes : List ℕ)
      → vmap_get t.vocab (byte_form b) ≡ missing
      → ids_of t.vocab (b ∷ bytes) ≡ failed
  unfolding ids_of
  ids_of_missing b bytes h = rw (h, ids_of)

  ids_of-Spelled : (s : List ℕ) → Spelled s (ids_of t.vocab s)
  unfolding ids_of
  ids_of-Spelled [] = refl
  ids_of-Spelled (b ∷ bytes) =
      byte (vmap_get t.vocab (byte_form b)) refl (ids_of t.vocab bytes) refl (ids_of-Spelled bytes)
    where
      byte :
          (l : Lookup ℕ)
          → vmap_get t.vocab (byte_form b) ≡ l
          → (r : Coded) → ids_of t.vocab bytes ≡ r
          → Spelled bytes r
          → Spelled (b ∷ bytes) (ids_of t.vocab (b ∷ bytes))
      byte (fault f) e r e' h = absurd (c.vocab_total (byte_form b) f e)
      byte missing e r e' h = subst (Spelled (b ∷ bytes)) (sym (ids_of_missing b bytes e)) tt
      byte (found id) e stuck e' h = absurd h
      byte (found id) e failed e' h =
          subst (Spelled (b ∷ bytes)) (sym (ids_of_failed b id bytes e e')) tt
      byte (found id) e (coded ids) e' h =
          subst (Spelled (b ∷ bytes)) (sym (ids_of_next b id bytes ids e e'))
            (b ∷ [], bytes, refl, c.vocab_keys b id e ∙ ap some (sym (append_nil (byte_form b))), h)

  encode_of_failed :
      (s : List ℕ) (room : ℕ) → ids_of t.vocab s ≡ failed → encode_chunk t s room ≡ failed
  unfolding encode_chunk
  encode_of_failed s room h = rw (h, encode_chunk)

  encode_of_ids :
      (s cur ids : List ℕ) (room : ℕ)
      → ids_of t.vocab s ≡ coded cur
      → merge_all t.merges cur ≡ coded ids
      → encode_chunk t s room ≡ within room (coded ids)
  unfolding encode_chunk
  encode_of_ids s cur ids room h e = rw (h, encode_chunk, e)

  -- Either some byte has no id or the ids do not fit, or the ids spell the bytes.
  pub encode_chunk-Spells :
      (s : List ℕ) (room : ℕ)
      → (encode_chunk t s room ≡ failed)
        ⊎ ((ids : List ℕ) × (encode_chunk t s room ≡ coded ids)
            × Spells t ids s
            × (length ids ≤ room))
  encode_chunk-Spells s room = go (ids_of t.vocab s) refl (ids_of-Spelled s)
    where
      go :
          (r : Coded)
          → ids_of t.vocab s ≡ r
          → Spelled s r
          → (encode_chunk t s room ≡ failed)
            ⊎ ((ids : List ℕ) × (encode_chunk t s room ≡ coded ids)
                × Spells t ids s
                × (length ids ≤ room))
      go stuck e h = absurd h
      go failed e h = inl (encode_of_failed s room e)
      go (coded cur) e h =
          let (ids, e', spells) =
            merge_all-Merged t.merges c.merges_total (λ w. Spells t w s)
              (λ w i id merge lt at has_id p. merge_at-Spells i id w s merge lt at has_id p) cur
              h in
          elim (Bool-cases (ltb room (length ids))) [
            | inl long ↦
                inl (
                  encode_of_ids s cur ids room e e'
                  ∙ ap (λ b. if b then failed else coded ids) long)
            | inr fits ↦ inr (
              ids,
              encode_of_ids s cur ids room e e' ∙ ap (λ b. if b then failed else coded ids) fits,
              spells,
              ground arith,
            )
          ]
