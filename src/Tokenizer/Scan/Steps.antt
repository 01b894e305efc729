-- ===== src/Tokenizer/Scan/Steps.antt =====
-- The steps of the two readers of JSON strings, of c/src/tokenizer.c and c/src/json.c.
use qwen3_8_flash_next.Base.{
  ℕ, zero, suc, ◌+◌, ◌≤◌, ◌<◌, ◌≡◌, refl, sym, subst, arith, Bool, true, false, Option, none, some,
  List, [], ◌∷◌, ◌++◌, ◌==◌, ltb, length, length-append, drop, Bool-cases, inl, inr,
}
use qwen3_8_flash_next.Json.{
  Parsed, Message, parsed, failed, unfinished, hex_from, code_point, encode_utf8, plain_escape,
  escape, string_from,
}
use qwen3_8_flash_next.Tokenizer.Scan.{Raw, raw, broken, full, raw_escape, raw_from}

abbrev pub of_parsed : Parsed (List ℕ) → Option (List ℕ × List ℕ)
of_parsed (parsed bytes rest) = some (bytes, rest)
of_parsed _ = none

abbrev pub Settled : Parsed (List ℕ) → Type 0
Settled unfinished = ⊥
Settled _ = Unit

-- Both resolve the same escapes.
pub same_escape :
    (esc : ℕ) (text : List ℕ)
    → (raw_escape esc text ≡ of_parsed (escape esc text)) × Settled (escape esc text)
unfolding raw_escape escape
same_escape esc text = elim (Bool-cases (esc == 117)) [
  | inr other ↦ rw other (plain (plain_escape esc))
  | inl is_u ↦ rw is_u (elim (Bool-cases (ltb (length text) 4)) [
    | inl short ↦ rw short (refl, tt)
    | inr long ↦ rw long (hex (hex_from 4 text 0))
  ])
]
  where
    plain :
        (o : Option ℕ)
        → ((elim o [ none ↦ none | some c ↦ some (c ∷ [], text) ])
            ≡ of_parsed
                (elim o [ none ↦ failed Message.bad_escape text | some c ↦ parsed (c ∷ []) text ]))
          × Settled
              (elim o [ none ↦ failed Message.bad_escape text | some c ↦ parsed (c ∷ []) text ])
    plain none = (refl, tt)
    plain (some c) = (refl, tt)

    hex :
        (o : Option ℕ)
        → ((elim o [
          | none ↦ none
          | some cp ↦
              let (point, rest) = code_point cp (drop 4 text) in some (encode_utf8 point, rest)
        ])
            ≡ of_parsed (elim o [
              | none ↦ failed Message.bad_unicode text
              | some cp ↦
                  let (point, rest) = code_point cp (drop 4 text) in parsed (encode_utf8 point) rest
            ]))
          × Settled (elim o [
            | none ↦ failed Message.bad_unicode text
            | some cp ↦
                let (point, rest) = code_point cp (drop 4 text) in parsed (encode_utf8 point) rest
          ])
    hex none = (refl, tt)
    hex (some cp) = (refl, tt)

-- A result of at least `n` bytes.
abbrev Long : ℕ → Parsed (List ℕ) → Type 0
Long n (parsed bytes rest) = n ≤ length bytes
Long n _ = Unit

Long-trans : (m n : ℕ) (r : Parsed (List ℕ)) → m ≤ n → Long n r → Long m r
Long-trans m n (parsed bytes rest) le h = omega arith
Long-trans m n (failed x y) le h = tt
Long-trans m n unfinished le h = tt

-- What `js_string_raw` does where `jparse_string` has the result.
abbrev pub Agree : ℕ → Parsed (List ℕ) → Raw → Type 0
Agree room (parsed bytes rest) (raw bytes' rest') =
    (bytes ≡ bytes') × (rest ≡ rest') × (length bytes ≤ room)
Agree room (parsed bytes rest) (full text) = room < length bytes
Agree room (failed m at) (full text) = Unit
Agree room (failed m at) broken = Unit
Agree room unfinished (full text) = Unit
Agree room unfinished Raw.unfinished = Unit
Agree room _ _ = ⊥

full-Agree :
    (room n : ℕ) (text : List ℕ) (r : Parsed (List ℕ))
    → room < n
    → Long n r
    → Agree room r (full text)
full-Agree room n text (parsed bytes rest) lt h = omega arith
full-Agree room n text (failed x y) lt h = tt
full-Agree room n text unfinished lt h = tt

module _ (fuel : ℕ) (out : List ℕ) where
  pub from_quote :
      (c : ℕ) (text : List ℕ)
      → (c == 34) ≡ true
      → string_from (suc fuel) (c ∷ text) out ≡ parsed out text
  unfolding string_from
  from_quote c text q = rw (q, string_from)

  pub from_plain :
      (c : ℕ) (text : List ℕ)
      → (c == 34) ≡ false
      → (c == 92) ≡ false
      → string_from (suc fuel) (c ∷ text) out ≡ string_from fuel text (out ++ c ∷ [])
  unfolding string_from
  from_plain c text q b = rw (q, string_from, b)

  pub from_end :
      (c : ℕ)
      → (c == 34) ≡ false
      → (c == 92) ≡ true
      → string_from (suc fuel) (c ∷ []) out ≡ failed Message.unterminated_string []
  unfolding string_from
  from_end c q b = rw (q, string_from, b)

  -- What follows an escape.
  abbrev pub continue : Parsed (List ℕ) → Parsed (List ℕ)
  continue (parsed bytes rest) = string_from fuel rest (out ++ bytes)
  continue (failed m at) = failed m at
  continue unfinished = unfinished

  pub from_escape :
      (c esc : ℕ) (text : List ℕ)
      → (c == 34) ≡ false
      → (c == 92) ≡ true
      → string_from (suc fuel) (c ∷ esc ∷ text) out ≡ continue (escape esc text)
  unfolding string_from
  from_escape c esc text q b = rw (q, string_from, b) (go (escape esc text))
    where
      go :
          (r : Parsed (List ℕ))
          → (elim r [
            | parsed bytes rest ↦ string_from fuel rest (out ++ bytes)
            | failed m at ↦ failed m at
            | unfinished ↦ unfinished
          ])
            ≡ continue r
      go (parsed bytes rest) = refl
      go (failed m at) = refl
      go unfinished = refl

string_from-Long : (fuel : ℕ) (text out : List ℕ) → Long (length out) (string_from fuel text out)
unfolding string_from
string_from-Long zero text out = tt
string_from-Long (suc fuel) [] out = tt
string_from-Long (suc fuel) (c ∷ text) out = elim (Bool-cases (c == 34)) [
  | inl q ↦ subst (Long (length out)) (sym (from_quote fuel out c text q)) (omega arith)
  | inr q ↦ elim (Bool-cases (c == 92)) [
    | inr b ↦ subst (Long (length out)) (sym (from_plain fuel out c text q b)) (
        Long-trans (length out) (length (out ++ c ∷ [])) _
          (omega (arith, length-append out (c ∷ []))) (string_from-Long fuel text (out ++ c ∷ [])))
    | inl b ↦ escaped text (λ t o. string_from-Long fuel t o) q b
  ]
]
  where
    escaped :
        (more : List ℕ)
        → ((t o : List ℕ) → Long (length o) (string_from fuel t o))
        → (c == 34) ≡ false
        → (c == 92) ≡ true
        → Long (length out) (string_from (suc fuel) (c ∷ more) out)
    escaped [] rec q b = subst (Long (length out)) (sym (from_end fuel out c q b)) tt
    escaped (esc ∷ more) rec q b =
        subst (Long (length out)) (sym (from_escape fuel out c esc more q b)) (go (escape esc more))
      where
        go : (r : Parsed (List ℕ)) → Long (length out) (continue fuel out r)
        go (parsed bytes rest) =
            Long-trans (length out) (length (out ++ bytes)) _
              (omega (arith, length-append out bytes)) (rec rest (out ++ bytes))
        go (failed m at) = tt
        go unfinished = tt

module _ (room fuel : ℕ) (out : List ℕ) where
  pub raw_quote :
      (c : ℕ) (text : List ℕ)
      → (c == 34) ≡ true
      → raw_from room (suc fuel) (c ∷ text) out ≡ raw out text
  unfolding raw_from
  raw_quote c text q = rw (q, raw_from)

  -- What follows a piece of the text that is read as `bytes`.
  abbrev pub add : Bool → List ℕ → List ℕ → List ℕ → Raw
  add true bytes at rest = full at
  add false bytes at rest = raw_from room fuel rest (out ++ bytes)

  pub raw_plain :
      (c : ℕ) (text : List ℕ)
      → (c == 34) ≡ false
      → (c == 92) ≡ false
      → raw_from room (suc fuel) (c ∷ text) out
        ≡ add (ltb room (length out + 1)) (c ∷ []) (c ∷ text) text
  unfolding raw_from
  raw_plain c text q b = rw (q, raw_from, b) (go (ltb room (length out + 1)))
    where
      go :
          (more : Bool)
          → (elim more [ true ↦ full (c ∷ text) | false ↦ raw_from room fuel text (out ++ c ∷ []) ])
            ≡ add more (c ∷ []) (c ∷ text) text
      go true = refl
      go false = refl

  pub raw_end :
      (c : ℕ)
      → (c == 34) ≡ false
      → (c == 92) ≡ true
      → raw_from room (suc fuel) (c ∷ []) out ≡ broken
  unfolding raw_from
  raw_end c q b = rw (q, raw_from, b)

  -- What follows an escape.
  abbrev pub add_escape : Option (List ℕ × List ℕ) → Raw
  add_escape none = broken
  add_escape (some (bytes, rest)) = add (ltb room (length out + length bytes)) bytes rest rest

  pub raw-raw_escape :
      (c esc : ℕ) (text : List ℕ)
      → (c == 34) ≡ false
      → (c == 92) ≡ true
      → raw_from room (suc fuel) (c ∷ esc ∷ text) out ≡ add_escape (raw_escape esc text)
  unfolding raw_from
  raw-raw_escape c esc text q b = rw (q, raw_from, b) (go (raw_escape esc text))
    where
      fits :
          (more : Bool) (bytes rest : List ℕ)
          → (elim more [ true ↦ full rest | false ↦ raw_from room fuel rest (out ++ bytes) ])
            ≡ add more bytes rest rest
      fits true bytes rest = refl
      fits false bytes rest = refl

      go :
          (o : Option (List ℕ × List ℕ))
          → (elim o [
            | none ↦ broken
            | some (bytes, rest) ↦ elim (ltb room (length out + length bytes)) [
              | true ↦ full rest
              | false ↦ raw_from room fuel rest (out ++ bytes)
            ]
          ])
            ≡ add_escape o
      go none = refl
      go (some (bytes, rest)) = fits (ltb room (length out + length bytes)) bytes rest

  -- A piece that fits, and one that does not.
  pub add-Agree :
      ((t o : List ℕ)
        → length o ≤ room
        → Agree room (string_from fuel t o) (raw_from room fuel t o))
      → (bytes at rest : List ℕ)
      → Agree room
          (string_from fuel rest (out ++ bytes))
          (add (ltb room (length out + length bytes)) bytes at rest)
  add-Agree rec bytes at rest = elim (Bool-cases (ltb room (length out + length bytes))) [
    | inl over ↦ rw over (
        full-Agree room (length (out ++ bytes)) at _ (ground (arith, length-append out bytes))
          (string_from-Long fuel rest (out ++ bytes)))
    | inr fits ↦ rw fits (rec rest (out ++ bytes) (ground (arith, length-append out bytes)))
  ]
