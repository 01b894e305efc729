-- ===== src/Tokenizer/Scan/Strings.antt =====
-- The two readers of JSON strings: `js_string_raw` of c/src/tokenizer.c against `jparse_string` of
-- c/src/json.c.
use qwen3_8_flash_next.Base.{
  ℕ, zero, suc, ◌≤◌, ◌≡◌, ◌↔◌, refl, sym, ap, ◌∙◌, subst, arith, Bool, true, false, List, [], ◌∷◌,
  ◌==◌, length, Bool-cases, inl, inr,
}
use qwen3_8_flash_next.Json.{Parsed, parsed, failed, unfinished, escape, string_from, parse_string}
use qwen3_8_flash_next.Tokenizer.Scan.{
  quoted_raw, Raw, raw, broken, full, raw_from, js_skip_ws, js_string_raw,
}
use qwen3_8_flash_next.Tokenizer.Scan.Steps.{
  of_parsed, Settled, same_escape, Agree, from_quote, from_plain, from_end, continue, from_escape,
  raw_quote, raw_plain, raw_end, add_escape, raw-raw_escape, add-Agree,
}

both :
    (room : ℕ) {p p' : Parsed (List ℕ)} {r r' : Raw}
    → p ≡ p'
    → r ≡ r'
    → Agree room p' r'
    → Agree room p r
both room {p} {p'} {r} {r'} e e' h =
    subst (λ x. Agree room x r) (sym e) (subst (Agree room p') (sym e') h)

raw_from-Agree :
    (room fuel : ℕ) (text out : List ℕ)
    → length out ≤ room
    → Agree room (string_from fuel text out) (raw_from room fuel text out)
unfolding string_from raw_from
raw_from-Agree room zero text out le = tt
raw_from-Agree room (suc fuel) [] out le = tt
raw_from-Agree room (suc fuel) (c ∷ text) out le = elim (Bool-cases (c == 34)) [
  | inl q ↦
      both room (from_quote fuel out c text q) (raw_quote room fuel out c text q) (refl, refl, le)
  | inr q ↦ elim (Bool-cases (c == 92)) [
    | inr b ↦
        both room (from_plain fuel out c text q b) (raw_plain room fuel out c text q b) (
          add-Agree room fuel out (λ t o h. raw_from-Agree room fuel t o h) (c ∷ []) (c ∷ text)
            text)
    | inl b ↦ escaped text q b (λ t o h. raw_from-Agree room fuel t o h)
  ]
]
  where
    escaped :
        (more : List ℕ)
        → (c == 34) ≡ false
        → (c == 92) ≡ true
        → ((t o : List ℕ)
            → length o ≤ room
            → Agree room (string_from fuel t o) (raw_from room fuel t o))
        → Agree room
            (string_from (suc fuel) (c ∷ more) out)
            (raw_from room (suc fuel) (c ∷ more) out)
    escaped [] q b rec = both room (from_end fuel out c q b) (raw_end room fuel out c q b) tt
    escaped (esc ∷ more) q b rec =
        both room (from_escape fuel out c esc more q b)
          (raw-raw_escape room fuel out c esc more q b
            ∙ ap (add_escape room fuel out) (same_escape esc more).0)
          (go (escape esc more) (same_escape esc more).1)
      where
        go :
            (r : Parsed (List ℕ))
            → Settled r
            → Agree room (continue fuel out r) (add_escape room fuel out (of_parsed r))
        go (parsed bytes rest) h = add-Agree room fuel out rec bytes rest rest
        go (failed m at) h = tt
        go unfinished h = absurd h

string_raw-Agree :
    (room : ℕ) (text : List ℕ) → Agree room (parse_string text) (quoted_raw room text)
unfolding parse_string quoted_raw
string_raw-Agree room [] = tt
string_raw-Agree room (c ∷ text) = elim (Bool-cases (c == 34)) [
  | inl q ↦ rw q (raw_from-Agree room (suc (length text)) text [] (omega arith))
  | inr q ↦ rw q tt
]

raw_parts : (b b' s s' : List ℕ) → raw b s ≡ raw b' s' → (b ≡ b') × (s ≡ s')
raw_parts b b' s s' e = (cc e, cc e)

parsed_parts : (b b' s s' : List ℕ) → parsed b s ≡ parsed b' s' → (b ≡ b') × (s ≡ s')
parsed_parts b b' s s' e = (cc e, cc e)

same_parsed : {b b' s s' : List ℕ} → b ≡ b' → s ≡ s' → parsed b s ≡ parsed b' s'
same_parsed e e' = cc (e, e')

same_raw : {b b' s s' : List ℕ} → b ≡ b' → s ≡ s' → raw b s ≡ raw b' s'
same_raw e e' = cc (e, e')

Agree-iff :
    (room : ℕ) (p : Parsed (List ℕ)) (r : Raw) (bytes rest : List ℕ)
    → Agree room p r
    → (r ≡ raw bytes rest) ↔ ((p ≡ parsed bytes rest) × (length bytes ≤ room))
Agree-iff room (parsed b s) (raw b' s') bytes rest (same, same_rest, le) = (
  λ e.
      (let (is_b, is_s) = raw_parts b' bytes s' rest e in
        (
          same_parsed (same ∙ is_b) (same_rest ∙ is_s),
          subst (λ w. length w ≤ room) (same ∙ is_b) le,
        )),
  λ (e, _).
      let (is_b, is_s) = parsed_parts b bytes s rest e in
      same_raw (sym same ∙ is_b) (sym same_rest ∙ is_s),
)
Agree-iff room (parsed b s) (full t) bytes rest h = (
  λ e. absurd (cc e),
  λ (e, le).
      let (is_b, _) = parsed_parts b bytes s rest e in
      absurd (omega (arith, h, le, ap length is_b)),
)
Agree-iff room (failed m at) (full t) bytes rest h = (λ e. absurd (cc e), λ (e, _). absurd (cc e))
Agree-iff room (failed m at) broken bytes rest h = (λ e. absurd (cc e), λ (e, _). absurd (cc e))
Agree-iff room unfinished (full t) bytes rest h = (λ e. absurd (cc e), λ (e, _). absurd (cc e))
Agree-iff room unfinished Raw.unfinished bytes rest h =
    (λ e. absurd (cc e), λ (e, _). absurd (cc e))
Agree-iff room (parsed b s) broken bytes rest h = absurd h
Agree-iff room (parsed b s) Raw.unfinished bytes rest h = absurd h
Agree-iff room (failed m at) (raw b s) bytes rest h = absurd h
Agree-iff room (failed m at) Raw.unfinished bytes rest h = absurd h
Agree-iff room unfinished (raw b s) bytes rest h = absurd h
Agree-iff room unfinished broken bytes rest h = absurd h

-- Js_string_raw of the tokenizer reads a string exactly where jparse_string of the JSON parser,
-- behind the white space, reads the same bytes with the same text left and the bytes fit into the
-- buffer.
pub js_string_raw-parse_string :
    (is_space : ℕ → Bool) (text : List ℕ) (room : ℕ) (bytes rest : List ℕ)
    → (js_string_raw is_space text room ≡ raw bytes rest)
      ↔ ((parse_string (js_skip_ws is_space text) ≡ parsed bytes rest) × (length bytes ≤ room))
unfolding js_string_raw
js_string_raw-parse_string is_space text room bytes rest =
    Agree-iff room (parse_string (js_skip_ws is_space text))
      (quoted_raw room (js_skip_ws is_space text)) bytes rest
      (string_raw-Agree room (js_skip_ws is_space text))
