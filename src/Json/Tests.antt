-- ===== src/Json/Tests.antt =====
-- Runs of the parser on small texts.
use qwen3_8_flash_next.Base.{ℕ, ◌-◌, ◌≡◌, refl, true, Option, none, some, List, [], ◌∷◌, ◌++◌, ◌==◌}
use qwen3_8_flash_next.Json.Text.{Ends, quoted, parse_string-Ends, parse_string-quoted}
use qwen3_8_flash_next.Json.{
  parsed, arr, boolean, num, obj, no_member, member, no_value, value, parse_string, json_parse,
}

abbrev digit : List ℕ → Option (ℕ × List ℕ)
digit [] = none
digit (c ∷ text) = some (c - 48, text)

-- The text is {"a": [1, true]}.
small :
    json_parse
      (λ c. c == 32)
      digit
      (123 ∷ 34 ∷ 97 ∷ 34 ∷ 58 ∷ 32 ∷ 91 ∷ 49 ∷ 44 ∷ 32 ∷ 116 ∷ 114 ∷ 117 ∷ 101 ∷ 93 ∷ 125 ∷ [])
    ≡ parsed
        (obj (member (97 ∷ []) (arr (value (num 1) (value (boolean true) no_value))) no_member))
        []
unfolding json_parse
small = refl

-- The escape of a surrogate pair: 0xD83D and 0xDE00 give the four bytes of one code point.
pair :
    parse_string (34 ∷ 92 ∷ 117 ∷ 68 ∷ 56 ∷ 51 ∷ 68 ∷ 92 ∷ 117 ∷ 68 ∷ 69 ∷ 48 ∷ 48 ∷ 34 ∷ [])
    ≡ parsed (0xF0 ∷ 0x9F ∷ 0x98 ∷ 0x80 ∷ []) []
unfolding parse_string
pair = refl

parse_string-Ends_example : Ends 2 (parse_string (34 ∷ 97 ∷ []))
parse_string-Ends_example = parse_string-Ends (34 ∷ 97 ∷ [])

parse_string-quoted_example :
    parse_string (34 ∷ (quoted (97 ∷ 34 ∷ []) ++ 58 ∷ [])) ≡ parsed (97 ∷ 34 ∷ []) (58 ∷ [])
parse_string-quoted_example = parse_string-quoted (97 ∷ 34 ∷ []) (58 ∷ [])
