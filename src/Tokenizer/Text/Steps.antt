-- ===== src/Tokenizer/Text/Steps.antt =====
-- The steps of `tokenizer_encode` of c/src/tokenizer.c, and what their ids decode to.
use qwen3_8_flash_next.Base.{
  ℕ, suc, ◌+◌, ◌-◌, ◌≤◌, ◌<◌, ◌≡◌, refl, sym, ap, ◌∙◌, arith, true, false, Option, none, some, List,
  [], ◌∷◌, ◌++◌, ltb, length, take, drop, length-append, take_add, drop_add, inl, inr,
}
use qwen3_8_flash_next.Tokenizer.Bpe.Spells.{append_assoc}
use qwen3_8_flash_next.Tokenizer.Bpe.{
  Tokenizer, Coded, stuck, failed, coded, encode_chunk, decode, decode_key, key_of, append?,
}
use qwen3_8_flash_next.Tokenizer.Split.Progress.{IsPlain, pretoken_end-Ahead, next_cp-bounds}
use qwen3_8_flash_next.Tokenizer.Split.{Chars}
use qwen3_8_flash_next.Tokenizer.Text.{
  slice, added_at, limit, append_coded, chunk_end, encode_chunks, encode_from,
}

pub slice-append :
    (s : List ℕ) (i e lim : ℕ) → i ≤ e → e ≤ lim → slice s i e ++ slice s e lim ≡ slice s i lim
slice-append s i e lim lo hi =
    let split : lim - i ≡ (e - i) + (lim - e) = omega arith in
    let there : e ≡ i + (e - i) = omega arith in
    ap (λ xs. slice s i e ++ take (lim - e) xs) (ap (λ j. drop j s) there ∙ drop_add i (e - i) s)
    ∙ sym (take_add (e - i) (lim - e) (drop i s))
    ∙ ap (λ n. take n (drop i s)) (sym split)

pub slice_none : (s : List ℕ) (i : ℕ) → slice s i i ≡ []
slice_none s i = ap (λ n. take n (drop i s)) (let z : i - i ≡ 0 = omega arith in z)

append?_assoc : (x y z : Option (List ℕ)) → append? (append? x y) z ≡ append? x (append? y z)
append?_assoc none y z = refl
append?_assoc (some x) none z = refl
append?_assoc (some x) (some y) none = refl
append?_assoc (some x) (some y) (some z) = ap some (append_assoc x y z)

append?_nil : (y : Option (List ℕ)) → append? (some []) y ≡ y
append?_nil none = refl
append?_nil (some y) = refl

decode-append :
    (t : Tokenizer) (xs ys : List ℕ) → decode t (xs ++ ys) ≡ append? (decode t xs) (decode t ys)
unfolding decode
decode-append t [] ys = sym (append?_nil (decode t ys))
decode-append t (x ∷ xs) ys = go (key_of t x) (decode-append t xs ys)
  where
    go :
        (o : Option (List ℕ))
        → decode t (xs ++ ys) ≡ append? (decode t xs) (decode t ys)
        → (elim o [
          | none ↦ decode t (xs ++ ys)
          | some key ↦ append? (decode_key t.uni key) (decode t (xs ++ ys))
        ])
          ≡ append?
              (elim o [
                | none ↦ decode t xs
                | some key ↦ append? (decode_key t.uni key) (decode t xs)
              ])
              (decode t ys)
    go none e = e
    go (some key) e =
        ap (append? (decode_key t.uni key)) e
        ∙ sym (append?_assoc (decode_key t.uni key) (decode t xs) (decode t ys))

-- What comes out are ids, no more than there is room for, that are decoded to `piece`.
abbrev pub Decodes : Tokenizer → ℕ → List ℕ → Coded → Type 0
Decodes t room piece stuck = ⊥
Decodes t room piece failed = Unit
Decodes t room piece (coded ids) = (length ids ≤ room) × (decode t ids ≡ some piece)

pub decode_nil : (t : Tokenizer) → decode t [] ≡ some []
unfolding decode
decode_nil t = refl

pub append_coded-Decodes :
    (t : Tokenizer) (room : ℕ) (ids a b : List ℕ) (r : Coded)
    → length ids ≤ room
    → decode t ids ≡ some a
    → Decodes t (room - length ids) b r
    → Decodes t room (a ++ b) (append_coded ids r)
append_coded-Decodes t room ids a b stuck le e h = h
append_coded-Decodes t room ids a b failed le e h = tt
append_coded-Decodes t room ids a b (coded rest) le e (le', e') =
    (omega (arith, length-append ids rest), decode-append t ids rest ∙ rw (e, e') refl)

module _ (cs : Chars) (t : Tokenizer) (s : List ℕ) where
  pub chunk_end-bounds :
      (lim i : ℕ)
      → IsPlain cs s lim
      → i < lim
      → (i < chunk_end cs t s lim i) × (chunk_end cs t s lim i ≤ lim)
  unfolding chunk_end
  chunk_end-bounds lim i plain lt =
      let next = next_cp-bounds s lim i lt in
      elim (pretoken_end-Ahead cs s lim plain i lt) [
        | inl nothing ↦ rw nothing (ground (arith, next))
        | inr (lo, hi) ↦ ground (arith, lo, hi)
      ]

  pub chunks_none :
      (fuel lim i room : ℕ)
      → ltb i lim ≡ false
      → encode_chunks cs t s (suc fuel) lim i room ≡ coded []
  unfolding encode_chunks
  chunks_none fuel lim i room h = rw (h, encode_chunks)

  pub chunks_failed :
      (fuel lim i room : ℕ)
      → ltb i lim ≡ true
      → encode_chunk t (slice s i (chunk_end cs t s lim i)) room ≡ failed
      → encode_chunks cs t s (suc fuel) lim i room ≡ failed
  unfolding encode_chunks
  chunks_failed fuel lim i room h e = rw (h, encode_chunks, e)

  pub chunks_next :
      (fuel lim i room : ℕ) (ids : List ℕ)
      → ltb i lim ≡ true
      → encode_chunk t (slice s i (chunk_end cs t s lim i)) room ≡ coded ids
      → encode_chunks cs t s (suc fuel) lim i room
        ≡ append_coded ids
            (encode_chunks cs t s fuel lim (chunk_end cs t s lim i) (room - length ids))
  unfolding encode_chunks
  chunks_next fuel lim i room ids h e = rw (h, encode_chunks, e)

  module _ (rounds : ℕ) where
    pub from_none :
        (fuel i room : ℕ)
        → ltb i (length s) ≡ false
        → encode_from cs t s rounds (suc fuel) i room ≡ coded []
    unfolding encode_from
    from_none fuel i room h = rw (h, encode_from)

    pub from_added :
        (fuel i room id : ℕ)
        → ltb i (length s) ≡ true
        → (added_at t s (length s) i).0 ≡ some id
        → ltb room 1 ≡ false
        → encode_from cs t s rounds (suc fuel) i room
          ≡ append_coded
              (id ∷ [])
              (encode_from cs t s rounds fuel (i + (added_at t s (length s) i).1) (room - 1))
    unfolding encode_from
    from_added fuel i room id h e r = rw (h, encode_from, e, r)

    pub from_full :
        (fuel i room id : ℕ)
        → ltb i (length s) ≡ true
        → (added_at t s (length s) i).0 ≡ some id
        → ltb room 1 ≡ true
        → encode_from cs t s rounds (suc fuel) i room ≡ failed
    unfolding encode_from
    from_full fuel i room id h e r = rw (h, encode_from, e, r)

    pub from_failed :
        (fuel i room : ℕ)
        → ltb i (length s) ≡ true
        → (added_at t s (length s) i).0 ≡ none
        → encode_chunks cs t s rounds (limit t s (length s) i) i room ≡ failed
        → encode_from cs t s rounds (suc fuel) i room ≡ failed
    unfolding encode_from
    from_failed fuel i room h e r = rw (h, encode_from, e, r)

    pub from_chunks :
        (fuel i room : ℕ) (ids : List ℕ)
        → ltb i (length s) ≡ true
        → (added_at t s (length s) i).0 ≡ none
        → encode_chunks cs t s rounds (limit t s (length s) i) i room ≡ coded ids
        → encode_from cs t s rounds (suc fuel) i room
          ≡ append_coded ids
              (encode_from cs t s rounds fuel (limit t s (length s) i) (room - length ids))
    unfolding encode_from
    from_chunks fuel i room ids h e r = rw (h, encode_from, e, r)
