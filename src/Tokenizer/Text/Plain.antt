-- ===== src/Tokenizer/Text/Plain.antt =====
-- An added token of visible ASCII, whose key is its own text, decodes to this text in
-- c/src/tokenizer.c: its bytes are their own forms.
use qwen3_8_flash_next.Base.{
  ℕ, zero, suc, ◌+◌, ◌≤◌, ◌<◌, ◌≡◌, refl, sym, ap, ◌∙◌, arith, Bool, true, ◌&&◌, ◌||◌, some, List,
  [], ◌∷◌, ◌++◌, ltb, length, get_or, All,
}
use qwen3_8_flash_next.Tokenizer.Bpe.Decode.{IsByte, IsUni, decode-Spells}
use qwen3_8_flash_next.Tokenizer.Bpe.Spells.{forms}
use qwen3_8_flash_next.Tokenizer.Bpe.{Tokenizer, decode, key_of}
use qwen3_8_flash_next.Tokenizer.Form.{byte_form, forms_from}
use qwen3_8_flash_next.Tokenizer.Vocab.{equal_bytes, equal_bytes_iff}

abbrev IsVisible : ℕ → Type 0
IsVisible b = (0x21 ≤ b) × (b ≤ 0x7E)

-- The key of the token is its text.
abbrev pub IsPlainToken : Tokenizer → List ℕ × ℕ → Type 0
IsPlainToken t (bytes, id) = (key_of t id ≡ some bytes) × All IsVisible bytes

-- The visible bytes among those from `b` on are their own forms.
own_forms : List (List ℕ) → ℕ → Bool
unfolding equal_bytes
own_forms [] b = true
own_forms (f ∷ fs) b = (ltb b 0x21 || ltb 0x7E b || equal_bytes f (b ∷ [])) && own_forms fs (b + 1)

own_forms_lem : own_forms (forms_from 256 0 0) 0 ≡ true
unfolding own_forms forms_from
own_forms_lem = refl

own_forms_at :
    (fs : List (List ℕ)) (b j : ℕ)
    → own_forms fs b ≡ true
    → j < length fs
    → IsVisible (b + j)
    → get_or fs j [] ≡ (b + j) ∷ []
unfolding own_forms
own_forms_at [] b j h lt v = absurd (omega arith)
own_forms_at (f ∷ fs) b zero h lt v =
    let same : equal_bytes f (b ∷ []) ≡ true = ground (arith, h, v) in
    (equal_bytes_iff f (b ∷ [])).0 same ∙ ap (λ n. n ∷ []) (let z : b ≡ b + 0 = omega arith in z)
own_forms_at (f ∷ fs) b (suc j) h lt (lo, hi) =
    let e : b + suc j ≡ b + 1 + j = omega arith in
    own_forms_at fs (b + 1) j (ground (arith, h)) (omega arith)
      (omega (arith, lo), omega (arith, hi))
    ∙ ap (λ n. n ∷ []) (sym e)

visible_form : (b : ℕ) → IsVisible b → byte_form b ≡ b ∷ []
unfolding byte_form forms_from
visible_form b (lo, hi) =
    let e : 0 + b ≡ b = omega arith in
    own_forms_at (forms_from 256 0 0) 0 b own_forms_lem (omega (arith, hi))
      (omega (arith, lo), omega (arith, hi))
    ∙ ap (λ n. n ∷ []) e

visible_forms : (bytes : List ℕ) → All IsVisible bytes → forms bytes ≡ bytes
visible_forms [] all = refl
visible_forms (b ∷ bytes) (v, all) =
    ap (λ f. f ++ forms bytes) (visible_form b v) ∙ ap (λ w. b ∷ w) (visible_forms bytes all)

visible_bytes : (bytes : List ℕ) → All IsVisible bytes → All IsByte bytes
visible_bytes [] all = tt
visible_bytes (b ∷ bytes) ((lo, hi), all) = (omega (arith, hi), visible_bytes bytes all)

append_nil : (xs : List ℕ) → xs ≡ xs ++ []
append_nil [] = refl
append_nil (x ∷ xs) = ap (λ w. x ∷ w) (append_nil xs)

module _ (t : Tokenizer) (is_uni : IsUni t.uni) where
  pub added-decode :
      (added : List (List ℕ × ℕ))
      → All (IsPlainToken t) added
      → All (λ e. decode t (e.1 ∷ []) ≡ some e.0) added
  added-decode [] all = tt
  added-decode ((bytes, id) ∷ added) ((key, visible), all) = (
    decode-Spells t is_uni (id ∷ []) bytes (visible_bytes bytes visible)
        (bytes, [], append_nil bytes, key ∙ ap some (sym (visible_forms bytes visible)), refl),
    added-decode added all,
  )
