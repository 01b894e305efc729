-- ===== src/Tokenizer/Scan.antt =====
-- The scanner of c/src/tokenizer.c for tokenizer.json: `js` is the list of the bytes from `p` to
-- `end`, and `none` or `broken` stands for `failed`. A cursor behind `end` is at the end. isspace
-- and strtol are parameters; the escapes of a string are those of c/src/json.c.
pub mod Steps
pub mod Strings
pub mod Ends
use qwen3_8_flash_next.Base.{
  ℕ, zero, suc, ◌+◌, ◌-◌, Bool, true, false, ◌||◌, ◌&&◌, not, Option, none, some, List, [], ◌∷◌,
  ◌++◌, ◌==◌, ltb, leb, if◌then◌else◌, length, drop,
}
use qwen3_8_flash_next.Json.{behind, hex_from, code_point, encode_utf8, plain_escape}

-- How `js_string_raw` ends: with a text, with `failed` set, because `out` is full, or out of fuel.
-- What is left is kept where the source goes on with it.
pub data Raw : Type 0 where
  raw : List ℕ → List ℕ → Raw
  broken unfinished : Raw
  full : List ℕ → Raw

-- What an escape behind its backslash gives: bytes, and the text behind.
unfoldable pub raw_escape : ℕ → List ℕ → Option (List ℕ × List ℕ)
unfolding plain_escape hex_from code_point encode_utf8
raw_escape esc text =
    if esc == 117
    then (if ltb (length text) 4 then none else elim (hex_from 4 text 0) [
      | none ↦ none
      | some cp ↦ let (point, rest) = code_point cp (drop 4 text) in some (encode_utf8 point, rest)
    ])
    else elim (plain_escape esc) [ none ↦ none | some c ↦ some (c ∷ [], text) ]

-- The loop of `js_string_raw`, with `out` the bytes so far and `room` its size.
unfoldable pub raw_from : ℕ → ℕ → List ℕ → List ℕ → Raw
unfolding raw_escape
raw_from room zero text out = unfinished
raw_from room (suc fuel) [] out = broken
raw_from room (suc fuel) (c ∷ text) out = elim (c == 34) [
  | true ↦ raw out text
  | false ↦ elim (c == 92) [
    | false ↦ elim (ltb room (length out + 1)) [
      | true ↦ full (c ∷ text)
      | false ↦ raw_from room fuel text (out ++ c ∷ [])
    ]
    | true ↦ elim text [
      | [] ↦ broken
      | esc ∷ more ↦ elim (raw_escape esc more) [
        | none ↦ broken
        | some (bytes, rest) ↦ elim (ltb room (length out + length bytes)) [
          | true ↦ full rest
          | false ↦ raw_from room fuel rest (out ++ bytes)
        ]
      ]
    ]
  ]
]

unfoldable pub quoted_raw : ℕ → List ℕ → Raw
unfolding raw_from
quoted_raw room [] = broken
quoted_raw room (c ∷ text) = if c == 34 then raw_from room (suc (length text)) text [] else broken

-- A string behind its first quote, whatever stands in it.
unfoldable pub skip_string : List ℕ → Option (List ℕ)
skip_string [] = none
skip_string (c ∷ []) = if c == 34 then some [] else none
skip_string (c ∷ d ∷ text) =
    let behind_escape = skip_string text in
    let behind_c = skip_string (d ∷ text) in
    if c == 34 then some (d ∷ text) else if c == 92 then behind_escape else behind_c

abbrev pub opens : ℕ → Bool
opens c = c == 123 || c == 91

abbrev pub closes : ℕ → Bool
closes c = c == 125 || c == 93

-- The loop over a container in which `depth` brackets are open, and the loop over a string in it:
-- `quoted` tells which of them runs.
unfoldable pub skip_nested : Bool → List ℕ → ℕ → Option (List ℕ)
skip_nested quoted [] depth = none
skip_nested true (c ∷ []) depth = none
skip_nested true (c ∷ d ∷ text) depth =
    let behind_escape = skip_nested true text depth in
    let behind_c = skip_nested true (d ∷ text) depth in
    let behind_string = skip_nested false (d ∷ text) depth in
    if c == 34 then behind_string else if c == 92 then behind_escape else behind_c
skip_nested false (c ∷ text) depth =
    let string = skip_nested true text depth in
    let deeper = skip_nested false text (depth + 1) in
    let higher = skip_nested false text (depth - 1) in
    let level = skip_nested false text depth in
    if c == 34
    then string
    else if opens c
    then deeper
    else if closes c
    then if depth - 1 == 0 then some text else higher
    else level

module _ (is_space : ℕ → Bool) where
  unfoldable pub js_skip_ws : List ℕ → List ℕ
  js_skip_ws [] = []
  js_skip_ws (c ∷ text) = if is_space c then js_skip_ws text else c ∷ text

  abbrev pub starts_with : ℕ → List ℕ → Bool
  starts_with c [] = false
  starts_with c (d ∷ text) = d == c

  unfoldable pub js_peek : List ℕ → ℕ → Bool
  unfolding js_skip_ws
  js_peek text c = starts_with c (js_skip_ws text)

  abbrev pub expect : ℕ → List ℕ → Option (List ℕ)
  expect c [] = none
  expect c (d ∷ text) = if d == c then some text else none

  unfoldable pub js_expect : List ℕ → ℕ → Option (List ℕ)
  unfolding js_skip_ws
  js_expect text c = expect c (js_skip_ws text)

  unfoldable pub js_string_raw : List ℕ → ℕ → Raw
  unfolding js_skip_ws quoted_raw
  js_string_raw text room = quoted_raw room (js_skip_ws text)

  unfoldable pub skip_scalar : List ℕ → List ℕ
  skip_scalar [] = []
  skip_scalar (c ∷ text) =
      if c == 44 || c == 125 || c == 93 || is_space c then c ∷ text else skip_scalar text

  abbrev pub skip_any : List ℕ → Option (List ℕ)
  unfolding skip_string skip_nested skip_scalar
  skip_any [] = none
  skip_any (c ∷ text) =
      if c == 34
      then skip_string text
      else if opens c
      then skip_nested false (c ∷ text) 0
      else some (skip_scalar (c ∷ text))

  unfoldable pub js_skip_value : List ℕ → Option (List ℕ)
  unfolding js_skip_ws skip_string skip_nested skip_scalar
  js_skip_value text = skip_any (js_skip_ws text)

  -- The text behind the first `"key"`, if there is one.
  unfoldable pub key_from : List ℕ → List ℕ → Option (List ℕ)
  unfolding behind
  key_from key [] = none
  key_from key (c ∷ text) =
      let rest = key_from key text in
      if is_space c
      then rest
      else elim (behind (34 ∷ key ++ 34 ∷ []) (c ∷ text)) [ none ↦ rest | some at ↦ some at ]

  -- `find_key` where it returns 1. That there is no such key and that no colon follows are told
  -- apart by `key_from`.
  unfoldable pub find_key : List ℕ → List ℕ → Option (List ℕ)
  unfolding key_from js_expect
  find_key text key = elim (key_from key text) [ none ↦ none | some at ↦ js_expect at 58 ]
