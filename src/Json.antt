-- ===== src/Json.antt =====
-- c/src/json.c: the parser of model configurations and tensor headers. The text from `p` to `end`
-- is a list of bytes. Every failure returns at once, so `jfail` runs at most once in a parse: a
-- failure is its message and the bytes that are left, whose number is the offset from the end.
-- Allocation and `json_free` leave no trace.
pub mod Text
mod Tests
use qwen3_8_flash_next.Base.{
  ℕ, zero, suc, ◌+◌, ◌-◌, ◌*◌, ◌/◌, ◌%◌, ◌^◌, bit_or, Bool, true, false, ◌||◌, ◌&&◌, Option, none,
  some, List, [], ◌∷◌, ◌++◌, ◌==◌, ltb, leb, if◌then◌else◌, length, drop,
}

mutual
  pub data Value : Type 0 where
    null : Value
    boolean : Bool → Value
    num : ℕ → Value
    str : List ℕ → Value
    arr : Values → Value
    obj : Members → Value

  pub data Values : Type 0 where
    no_value : Values
    value : Value → Values → Values

  pub data Members : Type 0 where
    no_member : Members
    member : List ℕ → Value → Members → Members

pub data Message : Type 0 where
  expected_string truncated_escape bad_unicode bad_escape unterminated_string : Message
  unexpected_end expected_colon unterminated_object expected_comma_or_brace : Message
  unterminated_array expected_comma_or_bracket bad_literal bad_number : Message
  unexpected_character trailing_content : Message

-- How a part of the parser ends: with a result and the text behind it, with `jfail`, or out of
-- fuel.
pub data Parsed {ℓ} (A : Type ℓ) : Type ℓ where
  parsed : A → List ℕ → Parsed A
  failed : Message → List ℕ → Parsed A
  unfinished : Parsed A

unfoldable pub hex_digit : ℕ → Option ℕ
hex_digit h =
    if leb 48 h && leb h 57
    then some (h - 48)
    else if leb 97 h && leb h 102
    then some (h - 97 + 10)
    else if leb 65 h && leb h 70
    then some (h - 65 + 10)
    else none

-- `for (i = 0; i < 4; i++)` over the digits of an escape.
unfoldable pub hex_from : ℕ → List ℕ → ℕ → Option ℕ
unfolding hex_digit
hex_from zero text cp = some cp
hex_from (suc left) [] cp = none
hex_from (suc left) (h ∷ text) cp = elim (hex_digit h) [
  | none ↦ none
  | some d ↦ hex_from left text (bit_or (cp * 16) d)
]

-- The second half of a surrogate pair, if it follows.
unfoldable pub low_surrogate : List ℕ → Option ℕ
unfolding hex_from
low_surrogate (a ∷ b ∷ text) =
    if leb 4 (length text) && a == 92 && b == 117
    then elim (hex_from 4 text 0) [
      | none ↦ none
      | some lo ↦ if leb 0xDC00 lo && leb lo 0xDFFF then some lo else none
    ]
    else none
low_surrogate _ = none

-- The code point of an escape whose digits give `cp`, and the text behind it.
unfoldable pub code_point : ℕ → List ℕ → ℕ × List ℕ
unfolding low_surrogate
code_point cp text =
    if leb 0xD800 cp && leb cp 0xDBFF
    then elim (low_surrogate text) [
      | none ↦ (cp, text)
      | some lo ↦ (0x10000 + (cp - 0xD800) * 2 ^ 10 + (lo - 0xDC00), drop 6 text)
    ]
    else (cp, text)

unfoldable pub encode_utf8 : ℕ → List ℕ
encode_utf8 cp =
    if ltb cp 0x80
    then cp ∷ []
    else if ltb cp 0x800
    then bit_or 0xC0 (cp / 2 ^ 6) ∷ bit_or 0x80 (cp % 2 ^ 6) ∷ []
    else if ltb cp 0x10000
    then bit_or 0xE0 (cp / 2 ^ 12)
      ∷ bit_or 0x80 (cp / 2 ^ 6 % 2 ^ 6)
      ∷ bit_or 0x80 (cp % 2 ^ 6)
      ∷ []
    else bit_or 0xF0 (cp / 2 ^ 18)
      ∷ bit_or 0x80 (cp / 2 ^ 12 % 2 ^ 6)
      ∷ bit_or 0x80 (cp / 2 ^ 6 % 2 ^ 6)
      ∷ bit_or 0x80 (cp % 2 ^ 6)
      ∷ []

-- The escapes of one character.
unfoldable pub plain_escape : ℕ → Option ℕ
plain_escape esc =
    if esc == 34 || esc == 92 || esc == 47
    then some esc
    else if esc == 98
    then some 8
    else if esc == 102
    then some 12
    else if esc == 110
    then some 10
    else if esc == 114
    then some 13
    else if esc == 116
    then some 9
    else none

-- What an escape behind its backslash gives: bytes, and the text behind.
unfoldable pub escape : ℕ → List ℕ → Parsed (List ℕ)
unfolding plain_escape hex_from code_point encode_utf8
escape esc text =
    if esc == 117
    then (if ltb (length text) 4 then failed truncated_escape text else elim (hex_from 4 text 0) [
      | none ↦ failed bad_unicode text
      | some cp ↦ let (full, rest) = code_point cp (drop 4 text) in parsed (encode_utf8 full) rest
    ])
    else elim (plain_escape esc) [ none ↦ failed bad_escape text | some c ↦ parsed (c ∷ []) text ]

-- The loop of `jparse_string`; `buf` holds the bytes so far.
unfoldable pub string_from : ℕ → List ℕ → List ℕ → Parsed (List ℕ)
unfolding escape
string_from zero text buf = unfinished
string_from (suc fuel) [] buf = failed unterminated_string []
string_from (suc fuel) (c ∷ text) buf = elim (c == 34) [
  | true ↦ parsed buf text
  | false ↦ elim (c == 92) [
    | false ↦ string_from fuel text (buf ++ c ∷ [])
    | true ↦ elim text [
      | [] ↦ failed unterminated_string []
      | esc ∷ more ↦ elim (escape esc more) [
        | parsed bytes rest ↦ string_from fuel rest (buf ++ bytes)
        | failed m at ↦ failed m at
        | unfinished ↦ unfinished
      ]
    ]
  ]
]

-- Each round reads a byte.
unfoldable pub parse_string : List ℕ → Parsed (List ℕ)
unfolding string_from
parse_string [] = failed expected_string []
parse_string (c ∷ text) =
    if c == 34 then string_from (suc (length text)) text [] else failed expected_string (c ∷ text)

-- The text behind a literal.
unfoldable pub behind : List ℕ → List ℕ → Option (List ℕ)
behind [] text = some text
behind (c ∷ cs) [] = none
behind (c ∷ cs) (t ∷ text) = if c == t then behind cs text else none

unfoldable pub literal : List ℕ → Value → List ℕ → Parsed Value
unfolding behind
literal name v text = elim (behind name text) [
  | none ↦ failed bad_literal text
  | some rest ↦ parsed v rest
]

-- `strcmp(a, b) == 0`, where the first 0 and the end of a list both end a text.
unfoldable pub equal_text : List ℕ → List ℕ → Bool
equal_text [] [] = true
equal_text [] (y ∷ ys) = y == 0
equal_text (x ∷ xs) [] = x == 0
equal_text (x ∷ xs) (y ∷ ys) = x == y && (x == 0 || equal_text xs ys)

-- The first value of the key.
unfoldable pub get_from : Members → List ℕ → Option Value
unfolding equal_text
get_from no_member key = none
get_from (member k v more) key = if equal_text k key then some v else get_from more key

unfoldable pub obj_get : Value → List ℕ → Option Value
unfolding get_from
obj_get (obj members) key = get_from members key
obj_get _ key = none

abbrev pub close_object : Parsed Members → Parsed Value
close_object (parsed members rest) = parsed (obj members) rest
close_object (failed m at) = failed m at
close_object unfinished = unfinished

abbrev pub close_array : Parsed Values → Parsed Value
close_array (parsed values rest) = parsed (arr values) rest
close_array (failed m at) = failed m at
close_array unfinished = unfinished

-- What the parser takes from libc: `isspace` on a byte, and `strtod`, which gives the number as
-- its bit pattern and the text behind it, or nothing where it reads nothing.
module _ (is_space : ℕ → Bool) (strtod : List ℕ → Option (ℕ × List ℕ)) where
  unfoldable pub skip_space : List ℕ → List ℕ
  skip_space [] = []
  skip_space (c ∷ text) = if is_space c then skip_space text else c ∷ text

  unfoldable pub parse_number : List ℕ → Parsed Value
  parse_number text = elim (strtod text) [
    | none ↦ failed bad_number text
    | some (d, rest) ↦ parsed (num d) rest
  ]

  -- A string, a literal or a number, which `c` begins.
  unfoldable pub parse_scalar : ℕ → List ℕ → Parsed Value
  unfolding parse_string literal parse_number
  parse_scalar c text =
      if c == 34
      then elim (parse_string (c ∷ text)) [
        | parsed bytes rest ↦ parsed (str bytes) rest
        | failed m at ↦ failed m at
        | unfinished ↦ unfinished
      ]
      else if c == 116
      then literal (116 ∷ 114 ∷ 117 ∷ 101 ∷ []) (boolean true) (c ∷ text)
      else if c == 102
      then literal (102 ∷ 97 ∷ 108 ∷ 115 ∷ 101 ∷ []) (boolean false) (c ∷ text)
      else if c == 110
      then literal (110 ∷ 117 ∷ 108 ∷ 108 ∷ []) null (c ∷ text)
      else if c == 45 || (leb 48 c && leb c 57)
      then parse_number (c ∷ text)
      else failed unexpected_character (c ∷ text)

  -- The parts of `jparse_value`: the loops over the members of an object and over the items of
  -- an array run from behind the bracket or comma on. One unit of fuel is one call or round.
  unfoldable mutual
    unfolding skip_space parse_string parse_scalar

    pub parse_value : ℕ → List ℕ → Parsed Value
    parse_value zero text = unfinished
    parse_value (suc fuel) text = parse_from fuel (skip_space text)

    pub parse_from : ℕ → List ℕ → Parsed Value
    parse_from zero text = unfinished
    parse_from (suc fuel) [] = failed unexpected_end []
    parse_from (suc fuel) (c ∷ text) = elim (c == 123) [
      | true ↦ parse_object fuel (skip_space text)
      | false ↦ elim (c == 91) [
        | true ↦ parse_array fuel (skip_space text)
        | false ↦ parse_scalar c text
      ]
    ]

    pub parse_object : ℕ → List ℕ → Parsed Value
    parse_object zero text = unfinished
    parse_object (suc fuel) [] = close_object (members_from fuel [])
    parse_object (suc fuel) (c ∷ text) = elim (c == 125) [
      | true ↦ parsed (obj no_member) text
      | false ↦ close_object (members_from fuel (c ∷ text))
    ]

    pub parse_array : ℕ → List ℕ → Parsed Value
    parse_array zero text = unfinished
    parse_array (suc fuel) [] = close_array (values_from fuel [])
    parse_array (suc fuel) (c ∷ text) = elim (c == 93) [
      | true ↦ parsed (arr no_value) text
      | false ↦ close_array (values_from fuel (c ∷ text))
    ]

    pub members_from : ℕ → List ℕ → Parsed Members
    members_from zero text = unfinished
    members_from (suc fuel) text = elim (parse_string (skip_space text)) [
      | failed m at ↦ failed m at
      | unfinished ↦ unfinished
      | parsed key rest ↦ member_value fuel key (skip_space rest)
    ]

    pub member_value : ℕ → List ℕ → List ℕ → Parsed Members
    member_value zero key text = unfinished
    member_value (suc fuel) key [] = failed expected_colon []
    member_value (suc fuel) key (c ∷ text) = elim (c == 58) [
      | false ↦ failed expected_colon (c ∷ text)
      | true ↦ elim (parse_value fuel text) [
        | failed m at ↦ failed m at
        | unfinished ↦ unfinished
        | parsed v rest ↦ after_member fuel key v (skip_space rest)
      ]
    ]

    pub after_member : ℕ → List ℕ → Value → List ℕ → Parsed Members
    after_member zero key v text = unfinished
    after_member (suc fuel) key v [] = failed unterminated_object []
    after_member (suc fuel) key v (c ∷ text) = elim (c == 44) [
      | true ↦ elim (members_from fuel text) [
        | failed m at ↦ failed m at
        | unfinished ↦ unfinished
        | parsed more rest ↦ parsed (member key v more) rest
      ]
      | false ↦
          if c == 125
          then parsed (member key v no_member) text
          else failed expected_comma_or_brace (c ∷ text)
    ]

    pub values_from : ℕ → List ℕ → Parsed Values
    values_from zero text = unfinished
    values_from (suc fuel) text = elim (parse_value fuel text) [
      | failed m at ↦ failed m at
      | unfinished ↦ unfinished
      | parsed v rest ↦ after_value fuel v (skip_space rest)
    ]

    pub after_value : ℕ → Value → List ℕ → Parsed Values
    after_value zero v text = unfinished
    after_value (suc fuel) v [] = failed unterminated_array []
    after_value (suc fuel) v (c ∷ text) = elim (c == 44) [
      | true ↦ elim (values_from fuel text) [
        | failed m at ↦ failed m at
        | unfinished ↦ unfinished
        | parsed more rest ↦ parsed (value v more) rest
      ]
      | false ↦
          if c == 93
          then parsed (value v no_value) text
          else failed expected_comma_or_bracket (c ∷ text)
    ]

  -- No value and no round takes more than four calls for each byte that it reads.
  unfoldable pub json_parse : List ℕ → Parsed Value
  unfolding parse_value skip_space
  json_parse text = elim (parse_value (4 * length text + 4) text) [
    | failed m at ↦ failed m at
    | unfinished ↦ unfinished
    | parsed v rest ↦ elim (skip_space rest) [
      | [] ↦ parsed v []
      | c ∷ more ↦ failed trailing_content (c ∷ more)
    ]
  ]
