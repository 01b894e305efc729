-- ===== src/Tokenizer/Scan/Ends.antt =====
-- How much text the scanner of c/src/tokenizer.c leaves.
use qwen3_8_flash_next.Base.{
  ℕ, zero, suc, ◌+◌, ◌-◌, ◌≤◌, ◌<◌, ◌≡◌, sym, ap, ◌∙◌, subst, arith, Bool, true, false, ◌||◌,
  Option, none, some, List, [], ◌∷◌, ◌++◌, ◌==◌, ltb, if◌then◌else◌, length, drop, Bool-cases, inl,
  inr,
}
use qwen3_8_flash_next.Json.Text.{Ends, escape-Ends}
use qwen3_8_flash_next.Json.{Parsed, parsed, failed, unfinished, escape}
use qwen3_8_flash_next.Tokenizer.Scan.Steps.{
  of_parsed, same_escape, add, add_escape, raw_quote, raw_plain, raw_end, raw-raw_escape,
}
use qwen3_8_flash_next.Tokenizer.Scan.{
  Raw, raw, broken, full, raw_from, quoted_raw, skip_string, opens, closes, skip_nested, js_skip_ws,
  starts_with, js_peek, expect, js_expect, js_string_raw, skip_scalar, skip_any, js_skip_value,
}

-- A result with no more than `n` bytes behind it, if it has one.
abbrev pub Leaves : ℕ → Option (List ℕ) → Type 0
Leaves n none = Unit
Leaves n (some rest) = length rest ≤ n

pub Leaves-le : (m n : ℕ) (o : Option (List ℕ)) → m ≤ n → Leaves m o → Leaves n o
Leaves-le m n none le h = tt
Leaves-le m n (some rest) le h = omega arith

-- A read string ends, and leaves no more than `n` bytes.
abbrev pub RawEnds : ℕ → Raw → Type 0
RawEnds n (raw bytes rest) = length rest ≤ n
RawEnds n (full rest) = length rest ≤ n
RawEnds n broken = Unit
RawEnds n Raw.unfinished = ⊥

pub RawEnds-le : (m n : ℕ) (r : Raw) → m ≤ n → RawEnds m r → RawEnds n r
RawEnds-le m n (raw bytes rest) le h = omega arith
RawEnds-le m n (full rest) le h = omega arith
RawEnds-le m n broken le h = tt
RawEnds-le m n Raw.unfinished le h = absurd h

raw_from-RawEnds :
    (room fuel : ℕ) (text out : List ℕ)
    → length text < fuel
    → RawEnds (length text) (raw_from room fuel text out)
unfolding raw_from
raw_from-RawEnds room zero text out lt = absurd (omega arith)
raw_from-RawEnds room (suc fuel) [] out lt = tt
raw_from-RawEnds room (suc fuel) (c ∷ text) out lt = elim (Bool-cases (c == 34)) [
  | inl q ↦
      subst (RawEnds (suc (length text))) (sym (raw_quote room fuel out c text q)) (omega arith)
  | inr q ↦ elim (Bool-cases (c == 92)) [
    | inr b ↦ subst (RawEnds (suc (length text))) (sym (raw_plain room fuel out c text q b)) (
        added (ltb room (length out + 1)) (c ∷ []) (c ∷ text) text (omega arith) (
          RawEnds-le (length text) (suc (length text)) _ (omega arith)
            (raw_from-RawEnds room fuel text (out ++ c ∷ []) (omega arith))))
    | inl b ↦ escaped text q b (omega arith) (λ t o h. raw_from-RawEnds room fuel t o h)
  ]
]
  where
    added :
        (over : Bool) (bytes at rest : List ℕ)
        → length at ≤ suc (length text)
        → RawEnds (suc (length text)) (raw_from room fuel rest (out ++ bytes))
        → RawEnds (suc (length text)) (add room fuel out over bytes at rest)
    added true bytes at rest le h = le
    added false bytes at rest le h = h

    escaped :
        (more : List ℕ)
        → (c == 34) ≡ false
        → (c == 92) ≡ true
        → length more ≤ fuel
        → ((t o : List ℕ) → length t < fuel → RawEnds (length t) (raw_from room fuel t o))
        → RawEnds (suc (length more)) (raw_from room (suc fuel) (c ∷ more) out)
    escaped [] q b le rec = subst (RawEnds 1) (sym (raw_end room fuel out c q b)) tt
    escaped (esc ∷ more) q b le rec =
        subst (RawEnds (suc (suc (length more))))
          (sym (
            raw-raw_escape room fuel out c esc more q b
            ∙ ap (add_escape room fuel out) (same_escape esc more).0))
          (go (escape esc more) (escape-Ends esc more))
      where
        go :
            (r : Parsed (List ℕ))
            → Ends (length more) r
            → RawEnds (suc (suc (length more))) (add_escape room fuel out (of_parsed r))
        go (parsed bytes rest) h = pick (ltb room (length out + length bytes))
          where
            pick :
                (over : Bool)
                → RawEnds (suc (suc (length more))) (add room fuel out over bytes rest rest)
            pick true = omega arith
            pick false =
                RawEnds-le (length rest) (suc (suc (length more))) _ (omega arith)
                  (rec rest (out ++ bytes) (omega arith))
        go (failed m at) h = tt
        go unfinished h = absurd h

Leaves-if :
    (n : ℕ) (b : Bool) (x y : Option (List ℕ))
    → Leaves n x
    → Leaves n y
    → Leaves n (if b then x else y)
Leaves-if n true x y h k = h
Leaves-if n false x y h k = k

skip_string-Leaves : (text : List ℕ) → Leaves (length text) (skip_string text)
unfolding skip_string
skip_string-Leaves [] = tt
skip_string-Leaves (c ∷ []) = Leaves-if 1 (c == 34) (some []) none (omega arith) tt
skip_string-Leaves (c ∷ d ∷ text) =
    let n = suc (suc (length text)) in
    Leaves-if n (c == 34) _ _ (omega arith) (
      Leaves-if n (c == 92) _ _
        (Leaves-le (length text) n _ (omega arith) (skip_string-Leaves text))
        (Leaves-le (suc (length text)) n _ (omega arith) (skip_string-Leaves (d ∷ text))))

skip_nested-Leaves :
    (quoted : Bool) (text : List ℕ) (depth : ℕ)
    → Leaves (length text) (skip_nested quoted text depth)
unfolding skip_nested
skip_nested-Leaves true [] depth = tt
skip_nested-Leaves false [] depth = tt
skip_nested-Leaves true (c ∷ []) depth = tt
skip_nested-Leaves true (c ∷ d ∷ text) depth =
    let n = suc (suc (length text)) in
    Leaves-if n (c == 34) _ _
      (Leaves-le (suc (length text)) n _ (omega arith) (skip_nested-Leaves false (d ∷ text) depth))
      (Leaves-if n (c == 92) _ _
        (Leaves-le (length text) n _ (omega arith) (skip_nested-Leaves true text depth))
        (Leaves-le (suc (length text)) n _ (omega arith)
          (skip_nested-Leaves true (d ∷ text) depth)))
skip_nested-Leaves false (c ∷ text) depth =
    let n = suc (length text) in
    Leaves-if n (c == 34) _ _
      (Leaves-le (length text) n _ (omega arith) (skip_nested-Leaves true text depth))
      (Leaves-if n (opens c) _ _
        (Leaves-le (length text) n _ (omega arith) (skip_nested-Leaves false text (depth + 1)))
        (Leaves-if n (closes c) _ _
          (Leaves-if n (depth - 1 == 0) _ _ (omega arith)
            (Leaves-le (length text) n _ (omega arith) (skip_nested-Leaves false text (depth - 1))))
          (Leaves-le (length text) n _ (omega arith) (skip_nested-Leaves false text depth))))

module _ (is_space : ℕ → Bool) where
  pub js_skip_ws-le : (text : List ℕ) → length (js_skip_ws is_space text) ≤ length text
  unfolding js_skip_ws
  js_skip_ws-le [] = omega arith
  js_skip_ws-le (c ∷ text) = elim (Bool-cases (is_space c)) [
    | inl space ↦ rw space (omega (arith, js_skip_ws-le text))
    | inr solid ↦ rw solid (omega arith)
  ]

  -- A byte that is expected is used up.
  pub js_expect-Leaves :
      (text : List ℕ) (c n : ℕ) → length text ≤ suc n → Leaves n (js_expect is_space text c)
  unfolding js_expect
  js_expect-Leaves text c n le = go (js_skip_ws is_space text) (omega (arith, js_skip_ws-le text))
    where
      go : (t : List ℕ) → length t ≤ suc n → Leaves n (expect is_space c t)
      go [] h = tt
      go (d ∷ t) h = Leaves-if n (d == c) _ _ (omega arith) tt

  -- A byte that a peek has seen is there.
  pub js_peek-drop :
      (text : List ℕ) (c : ℕ)
      → js_peek is_space text c ≡ true
      → length (drop 1 (js_skip_ws is_space text)) < length text
  unfolding js_peek
  js_peek-drop text c h = go (js_skip_ws is_space text) h (js_skip_ws-le text)
    where
      go :
          (t : List ℕ)
          → starts_with is_space c t ≡ true
          → length t ≤ length text
          → length (drop 1 t) < length text
      go [] e le = absurd (cc e)
      go (d ∷ t) e le = omega arith

  pub js_string_raw-RawEnds :
      (text : List ℕ) (room : ℕ) → RawEnds (length text) (js_string_raw is_space text room)
  unfolding js_string_raw quoted_raw
  js_string_raw-RawEnds text room =
      RawEnds-le (length (js_skip_ws is_space text)) (length text) _ (js_skip_ws-le text)
        (go (js_skip_ws is_space text))
    where
      go : (t : List ℕ) → RawEnds (length t) (quoted_raw room t)
      go [] = tt
      go (c ∷ t) = elim (Bool-cases (c == 34)) [
        | inl q ↦ rw q (
            RawEnds-le (length t) (suc (length t)) _ (omega arith)
              (raw_from-RawEnds room (suc (length t)) t [] (omega arith)))
        | inr q ↦ rw q tt
      ]

  skip_scalar-le : (text : List ℕ) → length (skip_scalar is_space text) ≤ length text
  unfolding skip_scalar
  skip_scalar-le [] = omega arith
  skip_scalar-le (c ∷ text) = elim (Bool-cases (c == 44 || c == 125 || c == 93 || is_space c)) [
    | inl stop ↦ rw stop (omega arith)
    | inr more ↦ rw more (omega (arith, skip_scalar-le text))
  ]

  pub js_skip_value-Leaves : (text : List ℕ) → Leaves (length text) (js_skip_value is_space text)
  unfolding js_skip_value
  js_skip_value-Leaves text =
      Leaves-le (length (js_skip_ws is_space text)) (length text) _ (js_skip_ws-le text)
        (go (js_skip_ws is_space text))
    where
      go : (t : List ℕ) → Leaves (length t) (skip_any is_space t)
      go [] = tt
      go (c ∷ t) =
          Leaves-if (suc (length t)) (c == 34) _ _
            (Leaves-le (length t) (suc (length t)) _ (omega arith) (skip_string-Leaves t))
            (Leaves-if (suc (length t)) (opens c) _ _ (skip_nested-Leaves false (c ∷ t) 0)
              (skip_scalar-le (c ∷ t)))
