-- ===== src/Tokenizer/Bpe/Decode.antt =====
-- `tokenizer_decode` of c/src/tokenizer.c gives back what the ids spell.
use qwen3_8_flash_next.Base.{
  ℕ, zero, suc, ◌≤◌, ◌<◌, ◌%◌, ◌≡◌, refl, sym, ap, ◌∙◌, subst, arith, Bool, true, false, some, List,
  [], ◌∷◌, ◌++◌, ltb, not, ◌&&◌, length, get_or, All, inl, inr, ◌⊎◌,
}
use qwen3_8_flash_next.Table.{found}
use qwen3_8_flash_next.Tokenizer.Bpe.Spells.{forms, Spells, IsConsistent, encode_chunk-Spells}
use qwen3_8_flash_next.Tokenizer.Bpe.{
  Tokenizer, coded, failed, encode_chunk, decode, decode_key, raw_or, cons?, key_of,
}
use qwen3_8_flash_next.Tokenizer.Form.{byte_form, forms_from}
use qwen3_8_flash_next.Tokenizer.Vocab.{VocabMap, vmap_get}

-- A form is one byte below 128, or two of which the first is not.
abbrev is_form : List ℕ → Bool
is_form (x ∷ []) = ltb x 128
is_form (x ∷ y ∷ []) = not (ltb x 128)
is_form _ = false

all_forms : List (List ℕ) → Bool
all_forms [] = true
all_forms (f ∷ fs) = is_form f && all_forms fs

all_forms_at :
    (fs : List (List ℕ)) (j : ℕ)
    → all_forms fs ≡ true
    → j < length fs
    → is_form (get_or fs j []) ≡ true
unfolding all_forms
all_forms_at [] j h lt = absurd (omega arith)
all_forms_at (f ∷ fs) zero h lt = ground arith
all_forms_at (f ∷ fs) (suc j) h lt = all_forms_at fs j (ground arith) (omega arith)

bytes_are_forms : all_forms (forms_from 256 0 0) ≡ true
unfolding all_forms forms_from
bytes_are_forms = refl

byte_is_form : (b : ℕ) → b < 256 → is_form (byte_form b) ≡ true
unfolding byte_form forms_from
byte_is_form b lt = all_forms_at (forms_from 256 0 0) b bytes_are_forms lt

abbrev pub IsByte : ℕ → Type 0
IsByte b = b < 256

-- The map of the loader: each form stands for its byte.
abbrev pub IsUni : VocabMap → Type 0
IsUni uni = (b : ℕ) → b < 256 → vmap_get uni (byte_form b) ≡ found b

module _ (uni : VocabMap) (is_uni : IsUni uni) where
  decode_short :
      (x b : ℕ) (rest bytes : List ℕ)
      → ltb x 128 ≡ true
      → b < 256
      → vmap_get uni (x ∷ []) ≡ found b
      → decode_key uni rest ≡ some bytes
      → decode_key uni (x ∷ rest) ≡ some (b ∷ bytes)
  unfolding decode_key
  decode_short x b [] bytes h lt e r =
      let small : b % 256 ≡ b = omega arith in
      let nil : bytes ≡ [] = cc r in
      ap (λ l. cons? (raw_or l x) (some [])) e
      ∙ ap (λ w. some (w ∷ [])) small
      ∙ ap (λ w. some (b ∷ w)) (sym nil)
  decode_short x b (y ∷ rest) bytes h lt e r =
      let small : b % 256 ≡ b = omega arith in rw (h, decode_key, e, r, small)

  decode_long :
      (x y b : ℕ) (rest bytes : List ℕ)
      → ltb x 128 ≡ false
      → b < 256
      → vmap_get uni (x ∷ y ∷ []) ≡ found b
      → decode_key uni rest ≡ some bytes
      → decode_key uni (x ∷ y ∷ rest) ≡ some (b ∷ bytes)
  unfolding decode_key
  decode_long x y b rest bytes h lt e r =
      let small : b % 256 ≡ b = omega arith in rw (h, decode_key, e, r, small)

  -- The key that spells some bytes is decoded to them.
  decode_key-forms : (s : List ℕ) → All IsByte s → decode_key uni (forms s) ≡ some s
  unfolding decode_key
  decode_key-forms [] all = refl
  decode_key-forms (b ∷ s) (lt, all) =
      go (byte_form b) (byte_is_form b lt) (is_uni b lt) (decode_key-forms s all)
    where
      go :
          (f : List ℕ)
          → is_form f ≡ true
          → vmap_get uni f ≡ found b
          → decode_key uni (forms s) ≡ some s
          → decode_key uni (f ++ forms s) ≡ some (b ∷ s)
      go [] h e r = cc
      go (x ∷ []) h e r = decode_short x b (forms s) s h lt e r
      go (x ∷ y ∷ []) h e r = decode_long x y b (forms s) s (ground arith) lt e r
      go (x ∷ y ∷ z ∷ f) h e r = cc

All-append_left : (xs ys : List ℕ) → All IsByte (xs ++ ys) → All IsByte xs × All IsByte ys
All-append_left [] ys h = (tt, h)
All-append_left (x ∷ xs) ys (h, hs) = let (l, r) = All-append_left xs ys hs in ((h, l), r)

module _ (t : Tokenizer) (is_uni : IsUni t.uni) where
  decode_next :
      (id : ℕ) (ids key bytes rest : List ℕ)
      → key_of t id ≡ some key
      → decode_key t.uni key ≡ some bytes
      → decode t ids ≡ some rest
      → decode t (id ∷ ids) ≡ some (bytes ++ rest)
  unfolding decode
  decode_next id ids key bytes rest h k r = rw (h, decode, k, r)

  -- Ids that spell some bytes are decoded to them.
  pub decode-Spells : (ids s : List ℕ) → All IsByte s → Spells t ids s → decode t ids ≡ some s
  unfolding decode
  decode-Spells [] s all h = ap some (sym h)
  decode-Spells (id ∷ ids) s all (seg, rest, e, key, h) =
      let (all_seg, all_rest) = All-append_left seg rest (subst (All IsByte) e all) in
      decode_next id ids (forms seg) seg rest key (decode_key-forms t.uni is_uni seg all_seg)
        (decode-Spells ids rest all_rest h)
      ∙ ap some (sym e)

  -- In a tokenizer whose maps agree with its keys and whose uni map is the loader's, encode_chunk
  -- of any bytes fails, or it returns no more ids than there is room for and tokenizer_decode
  -- gives back the bytes. It ends in both cases.
  pub decode-encode_chunk :
      IsConsistent t
      → (s : List ℕ) (room : ℕ) → All IsByte s
      → (encode_chunk t s room ≡ failed)
        ⊎ ((ids : List ℕ) × (encode_chunk t s room ≡ coded ids)
            × (length ids ≤ room)
            × (decode t ids ≡ some s))
  decode-encode_chunk c s room all = elim (encode_chunk-Spells t c s room) [
    | inl no_ids ↦ inl no_ids
    | inr (ids, result, spells, fits) ↦ inr (ids, result, fits, decode-Spells ids s all spells)
  ]
