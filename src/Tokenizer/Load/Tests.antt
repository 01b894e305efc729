-- ===== src/Tokenizer/Load/Tests.antt =====
-- `parse_added_tokens` on `[{"id":5,"content":"a"}]`, with a `strtol` that reads one digit.
use qwen3_8_flash_next.Base.{
  ℤ, pos, ℕ, ◌-◌, ◌≡◌, ap, arith, Bool, ◌&&◌, Option, none, some, List, [], ◌∷◌, ◌==◌, leb,
  if◌then◌else◌, length, Bool-cases, inl, inr,
}
use qwen3_8_flash_next.Tokenizer.Load.Added.Ends.{
  Loads, IsForward, AreAdded, parse_added_tokens-Loads,
}
use qwen3_8_flash_next.Tokenizer.Load.Added.{parse_added_tokens}
use qwen3_8_flash_next.Tokenizer.Load.{AddedTokens}

abbrev blank : ℕ → Bool
blank c = c == 32

abbrev one_digit : List ℕ → Option (ℤ × List ℕ)
one_digit [] = none
one_digit (c ∷ text) = if leb 48 c && leb c 57 then some (pos (c - 48), text) else none

one_digit-IsForward : IsForward one_digit
one_digit-IsForward [] z rest e = absurd (cc e)
one_digit-IsForward (c ∷ text) z rest e = elim (Bool-cases (leb 48 c && leb c 57)) [
  | inl d ↦ let e' = rw d at e in let same : text ≡ rest = cc e' in omega (arith, ap length same)
  | inr other ↦ let e' = rw other at e in absurd (cc e')
]

abbrev no_tokens : AddedTokens
no_tokens = record { tokens = []; max_id = 0 }

no_tokens-AreAdded : AreAdded no_tokens
no_tokens-AreAdded = record { each = tt; small = omega arith }

abbrev one_token : List ℕ
one_token =
    91 ∷ 123 ∷ 34 ∷ 105 ∷ 100 ∷ 34 ∷ 58 ∷ 53 ∷ 44 ∷ 34 ∷ 99 ∷ 111 ∷ 110 ∷ 116 ∷ 101 ∷ 110 ∷ 116 ∷ 34
    ∷ 58 ∷ 34 ∷ 97 ∷ 34 ∷ 125 ∷ 93 ∷ []

parse_added_tokens-Loads_example :
    Loads AreAdded (length one_token) (parse_added_tokens blank one_digit one_token no_tokens)
parse_added_tokens-Loads_example =
    parse_added_tokens-Loads blank one_digit one_digit-IsForward one_token no_tokens
      no_tokens-AreAdded
