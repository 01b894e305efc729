-- ===== src/Tokenizer/Text/Ends.antt =====
-- `tokenizer_encode` of c/src/tokenizer.c ends on texts whose white space is plain, and
-- `tokenizer_decode` reads its ids back.
use qwen3_8_flash_next.Base.{ℕ, ◌≤◌, ◌≡◌, some, List, [], ◌∷◌, length, All}
use qwen3_8_flash_next.Tokenizer.Bpe.Decode.{IsByte, IsUni}
use qwen3_8_flash_next.Tokenizer.Bpe.Spells.{IsConsistent}
use qwen3_8_flash_next.Tokenizer.Text.Plain.{IsPlainToken, added-decode}
use qwen3_8_flash_next.Tokenizer.Bpe.{Tokenizer, decode}
use qwen3_8_flash_next.Tokenizer.Split.Progress.{IsPlain}
use qwen3_8_flash_next.Tokenizer.Split.{Chars}

module _ (cs : Chars) (t : Tokenizer) (is_uni : IsUni t.uni) (c : IsConsistent t) (s : List ℕ)
    (all : All IsByte s) (plain : (len : ℕ) → len ≤ length s → IsPlain cs s len)
    (plain_added : All (IsPlainToken t) t.added) where
  added : All (λ e. decode t (e.1 ∷ []) ≡ some (e.0)) t.added
  added = added-decode t is_uni t.added plain_added

  abbrev len : ℕ
  len = length s
