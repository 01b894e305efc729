-- ===== src/Json/Text.antt =====
-- The strings of c/src/json.c: the loop of `jparse_string` ends, and reads back any text that is
-- written with its quotes and backslashes escaped.
use qwen3_8_flash_next.Base.{
  ℕ, zero, suc, ◌≤◌, ◌<◌, ◌≡◌, refl, sym, ap, subst, ◌∙◌, arith, true, false, ◌||◌, List, [], ◌∷◌,
  ◌++◌, ◌==◌, ltb, leb, ◌&&◌, if◌then◌else◌, length, length-drop, drop, Bool-cases, Option-cases,
  inl, inr, ◌⊎◌,
}
use qwen3_8_flash_next.Json.{
  Message, Parsed, parsed, failed, unfinished, escape, string_from, parse_string, plain_escape,
  code_point, low_surrogate, hex_from,
}

-- A text between quotes, as JSON writes it.
abbrev pub quoted : List ℕ → List ℕ
quoted [] = 34 ∷ []
quoted (c ∷ text) = if c == 34 || c == 92 then 92 ∷ c ∷ quoted text else c ∷ quoted text

append_assoc : (xs : List ℕ) (x : ℕ) (ys : List ℕ) → (xs ++ x ∷ []) ++ ys ≡ xs ++ x ∷ ys
append_assoc [] x ys = refl
append_assoc (z ∷ xs) x ys = ap (λ w. z ∷ w) (append_assoc xs x ys)

append_nil : (xs : List ℕ) → xs ++ [] ≡ xs
append_nil [] = refl
append_nil (x ∷ xs) = ap (λ w. x ∷ w) (append_nil xs)

escaped :
    (c : ℕ) (text : List ℕ) → (c == 34 || c == 92) ≡ true → escape c text ≡ parsed (c ∷ []) text
unfolding escape plain_escape
escaped c text h = elim (Bool-cases (c == 34)) [
  | inl quote ↦ let same : c ≡ 34 = ground arith in rw same refl
  | inr other ↦
      let slash : (c == 92) ≡ true = rw other at h in
      let same : c ≡ 92 = ground arith in rw same refl
]

-- One round of the loop.
string_from_end :
    (fuel : ℕ) (rest buf : List ℕ) → string_from (suc fuel) (34 ∷ rest) buf ≡ parsed buf rest
unfolding string_from
string_from_end fuel rest buf = refl

string_from_plain :
    (fuel c : ℕ) (text buf : List ℕ)
    → (c == 34) ≡ false
    → (c == 92) ≡ false
    → string_from (suc fuel) (c ∷ text) buf ≡ string_from fuel text (buf ++ c ∷ [])
unfolding string_from
string_from_plain fuel c text buf h h' = rw (h, string_from, h')

string_from-escape :
    (fuel c : ℕ) (text buf bytes rest : List ℕ)
    → escape c text ≡ parsed bytes rest
    → string_from (suc fuel) (92 ∷ c ∷ text) buf ≡ string_from fuel rest (buf ++ bytes)
unfolding string_from
string_from-escape fuel c text buf bytes rest h = rw (h, string_from)

string_from-quoted :
    (fuel : ℕ) (s rest buf : List ℕ)
    → length s < fuel
    → string_from fuel (quoted s ++ rest) buf ≡ parsed (buf ++ s) rest
string_from-quoted zero s rest buf lt = absurd (omega arith)
string_from-quoted (suc fuel) [] rest buf lt =
    string_from_end fuel rest buf ∙ ap (λ w. parsed w rest) (sym (append_nil buf))
string_from-quoted (suc fuel) (c ∷ s) rest buf lt =
    let next : string_from fuel (quoted s ++ rest) (buf ++ c ∷ []) ≡ parsed (buf ++ c ∷ s) rest =
      string_from-quoted fuel s rest (buf ++ c ∷ []) (omega arith)
      ∙ ap (λ w. parsed w rest) (append_assoc buf c s) in
    elim (Bool-cases (c == 34 || c == 92)) [
      | inl special ↦ rw special (
          string_from-escape fuel c (quoted s ++ rest) buf (c ∷ []) (quoted s ++ rest)
            (escaped c _ special)
          ∙ next)
      | inr plain ↦
          rw plain
            (string_from_plain fuel c (quoted s ++ rest) buf (ground arith) (ground arith) ∙ next)
    ]

length-quoted : (s rest : List ℕ) → length s ≤ length (quoted s ++ rest)
length-quoted [] rest = omega arith
length-quoted (c ∷ s) rest = elim (Bool-cases (c == 34 || c == 92)) [
  | inl special ↦ rw special (omega (arith, length-quoted s rest))
  | inr plain ↦ rw plain (omega (arith, length-quoted s rest))
]

-- Jparse_string reads back any text that is written between quotes with a backslash before each
-- quote and backslash, and leaves what stands behind.
pub parse_string-quoted : (s rest : List ℕ) → parse_string (34 ∷ (quoted s ++ rest)) ≡ parsed s rest
unfolding parse_string
parse_string-quoted s rest =
    string_from-quoted (suc (length (quoted s ++ rest))) s rest []
      (omega (arith, length-quoted s rest))

-- A run has ended, and no more than `n` bytes are left.
abbrev pub Ends {ℓ} : {A : Type ℓ} → ℕ → Parsed A → Type 0
Ends n (parsed a rest) = length rest ≤ n
Ends n (failed m at) = Unit
Ends n unfinished = ⊥

code_point-le : (cp : ℕ) (text : List ℕ) → length (code_point cp text).1 ≤ length text
unfolding code_point
code_point-le cp text = elim (Bool-cases (leb 0xD800 cp && leb cp 0xDBFF)) [
  | inr plain ↦ rw plain (omega arith)
  | inl high ↦ elim (Option-cases (low_surrogate text)) [
    | inl alone ↦ rw (high, alone) (omega arith)
    | inr (lo, pair) ↦ rw (high, pair) (omega (arith, length-drop 6 text))
  ]
]

pub escape-Ends : (esc : ℕ) (text : List ℕ) → Ends (length text) (escape esc text)
unfolding escape
escape-Ends esc text = elim (Bool-cases (esc == 117)) [
  | inl unicode ↦ elim (Bool-cases (ltb (length text) 4)) [
    | inl short ↦ rw (unicode, short) tt
    | inr enough ↦ elim (Option-cases (hex_from 4 text 0)) [
      | inl bad ↦ rw (unicode, enough, bad) tt
      | inr (cp, good) ↦
          rw (unicode, enough, good)
            (omega (arith, code_point-le cp (drop 4 text), length-drop 4 text))
    ]
  ]
  | inr plain ↦ elim (Option-cases (plain_escape esc)) [
    | inl bad ↦ rw (plain, bad) tt
    | inr (c, good) ↦ rw (plain, good) (omega arith)
  ]
]

Ends-le : {A : Type 0} (m n : ℕ) (r : Parsed A) → m ≤ n → Ends m r → Ends n r
Ends-le m n (parsed a rest) le h = omega arith
Ends-le m n (failed x at) le h = tt
Ends-le m n unfinished le h = h

Parsed-cases :
    {A : Type 0} (r : Parsed A)
    → ((a : A) × (rest : List ℕ) × (r ≡ parsed a rest))
      ⊎ (((m : Message) × (at : List ℕ) × (r ≡ failed m at)) ⊎ (r ≡ unfinished))
Parsed-cases (parsed a rest) = inl (a, rest, refl)
Parsed-cases (failed m at) = inr (inl (m, at, refl))
Parsed-cases unfinished = inr (inr refl)

-- A backslash, where the loop ends on any shorter text.
slash_case :
    (fuel : ℕ) (text buf : List ℕ)
    → ((rest buf' : List ℕ) → length rest < fuel → Ends (length rest) (string_from fuel rest buf'))
    → length text < fuel
    → Ends (suc (length text)) (string_from (suc fuel) (92 ∷ text) buf)
unfolding string_from
slash_case fuel [] buf shorter lt = tt
slash_case fuel (esc ∷ more) buf shorter lt = elim (Parsed-cases (escape esc more)) [
  | inl (bytes, rest, e) ↦
      let le : length rest ≤ length more = subst (Ends (length more)) e (escape-Ends esc more) in
      rw (e, Ends)
        (Ends-le (length rest) (suc (suc (length more))) _ (omega arith)
          (shorter rest (buf ++ bytes) (omega arith)))
  | inr (inl (m, at, e)) ↦ rw (e, Ends) tt
  | inr (inr e) ↦ absurd (subst (Ends (length more)) e (escape-Ends esc more))
]

string_from-Ends :
    (fuel : ℕ) (text buf : List ℕ)
    → length text < fuel
    → Ends (length text) (string_from fuel text buf)
unfolding string_from
string_from-Ends zero text buf lt = absurd (omega arith)
string_from-Ends (suc fuel) [] buf lt = tt
string_from-Ends (suc fuel) (c ∷ text) buf lt = elim (Bool-cases (c == 34)) [
  | inl quote ↦ rw (quote, Ends) (omega arith)
  | inr other ↦ elim (Bool-cases (c == 92)) [
    | inr plain ↦
        rw (other, Ends, plain)
          (Ends-le (length text) (suc (length text)) _ (omega arith)
            (string_from-Ends fuel text (buf ++ c ∷ []) (omega arith)))
    | inl slash ↦
        let slash_at : c ≡ 92 = ground arith in
        rw slash_at (
          slash_case fuel text buf (λ rest buf' lt'. string_from-Ends fuel rest buf' lt')
            (omega arith))
  ]
]

-- Jparse_string ends on every text, with a failure or with a result, and then no more text is
-- left than there was.
pub parse_string-Ends : (text : List ℕ) → Ends (length text) (parse_string text)
unfolding parse_string
parse_string-Ends [] = tt
parse_string-Ends (c ∷ text) = elim (Bool-cases (c == 34)) [
  | inl quote ↦ rw quote (
      Ends-le (length text) (suc (length text)) _ (omega arith)
        (string_from-Ends (suc (length text)) text [] (omega arith)))
  | inr other ↦ rw other tt
]
