-- ===== src/Tokenizer/Load/Added.antt =====
-- The added tokens of tokenizer.json: `parse_added_tokens` of c/src/tokenizer.c.
pub mod Ends
use qwen3_8_flash_next.Base.{
  ℤ, negsuc, ℕ, zero, suc, Bool, true, false, Option, none, some, List, [], ◌∷◌, if◌then◌else◌,
  length,
}
use qwen3_8_flash_next.Tokenizer.Scan.{
  Raw, raw, broken, full, js_peek, js_expect, js_string_raw, js_skip_value,
}
use qwen3_8_flash_next.Tokenizer.Vocab.{equal_bytes}
use qwen3_8_flash_next.Tokenizer.Load.{
  Loaded, loaded, rejected, outside, unending, then_load, or_reject, Fields, AddedTokens,
  push_fields, behind_comma, js_int,
}

module _ (is_space : ℕ → Bool) (strtol : List ℕ → Option (ℤ × List ℕ)) where
  -- The member whose key is read, from behind its colon on.
  unfoldable pub load_member : List ℕ → List ℕ → Fields → Loaded Fields
  unfolding equal_bytes js_int js_string_raw js_skip_value
  load_member key text f =
      if equal_bytes key (105 ∷ 100 ∷ [])
      then elim (js_int is_space strtol text) [
        | none ↦ rejected
        | some (id, rest) ↦ loaded (record f { id = id }) rest
      ]
      else if equal_bytes key (99 ∷ 111 ∷ 110 ∷ 116 ∷ 101 ∷ 110 ∷ 116 ∷ [])
      then elim (js_string_raw is_space text 512) [
        | raw bytes rest ↦ loaded (record f { content = some bytes }) rest
        | full rest ↦ loaded (record f { content = none }) rest
        | broken ↦ rejected
        | Raw.unfinished ↦ unending
      ]
      else or_reject (js_skip_value is_space text) (λ rest. loaded f rest)

  -- `while (!js_peek(j, '}'))`
  unfoldable pub load_fields : ℕ → List ℕ → Fields → Loaded Fields
  unfolding behind_comma js_peek js_string_raw js_expect load_member
  load_fields zero text f = unending
  load_fields (suc fuel) text f = elim (js_peek is_space text 125) [
    | true ↦ loaded f text
    | false ↦ elim (js_string_raw is_space text 64) [
      | broken ↦ rejected
      | Raw.unfinished ↦ unending
      | full rest ↦ loaded (record f { given_up = true }) rest
      | raw key rest ↦ or_reject (js_expect is_space rest 58) (λ at.
          then_load (load_member key at f) (λ f' at'. elim (js_peek is_space at' 44) [
            | true ↦ load_fields fuel (behind_comma is_space at') f'
            | false ↦ loaded f' at'
          ]))
    ]
  ]

  -- `while (!js_peek(j, ']'))`; `rounds` is the fuel of the loop in it. The second part of the
  -- result tells whether the source gave up.
  unfoldable pub load_tokens : ℕ → ℕ → List ℕ → AddedTokens → Loaded (AddedTokens × Bool)
  unfolding behind_comma js_peek js_expect load_fields push_fields
  load_tokens rounds zero text a = unending
  load_tokens rounds (suc fuel) text a = elim (js_peek is_space text 93) [
    | true ↦ loaded (a, false) text
    | false ↦ or_reject (js_expect is_space text 123) (λ at.
        then_load
          (load_fields rounds at (record { id = negsuc 0; content = none; given_up = false }))
          (λ f rest. elim f.given_up [
            | true ↦ loaded (a, true) rest
            | false ↦ or_reject (js_expect is_space rest 125) (λ rest'. elim (push_fields a f) [
              | none ↦ outside
              | some a' ↦ elim (js_peek is_space rest' 44) [
                | true ↦ load_tokens rounds fuel (behind_comma is_space rest') a'
                | false ↦ loaded (a', false) rest'
              ]
            ])
          ]))
  ]

  unfoldable pub parse_added_tokens : List ℕ → AddedTokens → Loaded AddedTokens
  unfolding js_expect load_tokens
  parse_added_tokens text a = or_reject (js_expect is_space text 91) (λ at.
      then_load (load_tokens (suc (length at)) (suc (length at)) at a) (λ (a', given_up) rest.
        if given_up
        then loaded a' rest
        else or_reject (js_expect is_space rest 93) (λ rest'. loaded a' rest')))
