-- ===== src/Tokenizer/Load.antt =====
-- The loader of c/src/tokenizer.c: `parse_added_tokens` and `tokenizer_load`, from the bytes of
-- tokenizer.json on. strtol is a parameter; it reads up to the ending 0 of the buffer. An id of
-- 2 ^ 31 or more, which the source casts to an int32_t, is `outside` of the model.
pub mod Added
pub mod File
mod Tests
use qwen3_8_flash_next.Base.{
  ℤ, pos, negsuc, ℕ, zero, suc, ◌+◌, ◌*◌, ◌-◌, ◌^◌, max, Bool, true, false, ◌&&◌, ◌||◌, not, Option,
  none, some, List, [], ◌∷◌, ◌++◌, ◌==◌, ltb, leb, if◌then◌else◌, length, take, drop,
}
use qwen3_8_flash_next.Probe.{Slots}
use qwen3_8_flash_next.Table.{Slot, Table, Lookup, fault, missing, found, empty}
use qwen3_8_flash_next.Tokenizer.Bpe.{Tokenizer}
use qwen3_8_flash_next.Tokenizer.Form.{load_uni}
use qwen3_8_flash_next.Tokenizer.Scan.{
  Raw, raw, broken, full, js_skip_ws, js_peek, js_expect, js_string_raw, js_skip_value, key_from,
  find_key,
}
use qwen3_8_flash_next.Tokenizer.Vocab.{
  VocabMap, MergesMap, equal_bytes, vmap_init, vmap_get, vmap_put, mmap_init, mmap_put,
}

-- How a part of the loader ends: with a result and the text left, with `failed` set or a jump to
-- `fail`, with an id that is too large, or out of fuel.
pub data Loaded {ℓ} (A : Type ℓ) : Type ℓ where
  loaded : A → List ℕ → Loaded A
  rejected outside unending : Loaded A

abbrev pub then_load {ℓ κ} :
    {A : Type ℓ} → {B : Type κ} → Loaded A → (A → List ℕ → Loaded B) → Loaded B
then_load (loaded a text) next = next a text
then_load rejected next = rejected
then_load outside next = outside
then_load unending next = unending

abbrev pub or_reject {ℓ} : {A : Type ℓ} → Option (List ℕ) → (List ℕ → Loaded A) → Loaded A
or_reject none next = rejected
or_reject (some text) next = next text

-- An object of "added_tokens": what its members say, and whether the source gave up in it, which
-- it does without `failed` at a key of more than 64 bytes.
pub record Fields : Type 0 where
  pub id : ℤ
  pub content : Option (List ℕ)
  pub given_up : Bool

-- `added_tokens`; `max_id` starts as 0.
pub record AddedTokens : Type 0 where
  pub tokens : List (List ℕ × ℕ)
  pub max_id : ℕ

unfoldable pub added_push : AddedTokens → ℕ → List ℕ → AddedTokens
added_push a id bytes = record { tokens = a.tokens ++ (bytes, id) ∷ []; max_id = max a.max_id id }

-- `if (id >= 0 && cl >= 0) added_push(...)`
unfoldable pub push_fields : AddedTokens → Fields → Option AddedTokens
unfolding added_push
push_fields a f = elim f.content [
  | none ↦ some a
  | some bytes ↦ elim f.id [
    | negsuc n ↦ some a
    | pos id ↦ if ltb id (2 ^ 31) then some (added_push a id bytes) else none
  ]
]

-- `int32_t max_id`, which starts as -1, and one more.
abbrev pub above : ℕ → ℕ → ℕ
above n id = max n (id + 1)

-- The bytes before and behind the last space of a pair.
unfoldable pub split_last : List ℕ → Option (List ℕ × List ℕ)
split_last [] = none
split_last (c ∷ pair) = elim (split_last pair) [
  | some (left, right) ↦ some (c ∷ left, right)
  | none ↦ if c == 32 then some ([], pair) else none
]

-- What a search in the vocabulary found, with -1 as `none`; nothing where it reads what is not
-- there.
abbrev pub found_id : Lookup ℕ → Option (Option ℕ)
found_id (fault f) = none
found_id missing = some none
found_id (found id) = some (some id)

-- The merge of the two parts of a pair.
unfoldable pub put_parts : VocabMap → MergesMap → List ℕ → List ℕ → ℕ → Option MergesMap
unfolding vmap_get mmap_put
put_parts vocab m left right rank = elim (found_id (vmap_get vocab left)) [
  | none ↦ none
  | some a ↦ elim (found_id (vmap_get vocab right)) [
    | none ↦ none
    | some b ↦ elim a [
      | none ↦ some m
      | some a' ↦ elim b [
        | none ↦ some m
        | some b' ↦ elim (found_id (vmap_get vocab (left ++ right))) [
          | none ↦ none
          | some merged ↦ mmap_put m a' b' rank merged
        ]
      ]
    ]
  ]
]

-- One string of "merges". Both parts are not empty.
unfoldable pub put_pair : VocabMap → MergesMap → List ℕ → ℕ → Option MergesMap
unfolding split_last put_parts
put_pair vocab m pair rank = elim (split_last pair) [
  | none ↦ some m
  | some (left, right) ↦
      if ltb 0 (length left) && ltb 0 (length right)
      then put_parts vocab m left right rank
      else some m
]

-- `for (i = 0; i < t->vocab.nslots; i++)`: the keys of the ids below `nvocab`.
unfoldable pub keys_from :
    ℕ → ℕ → Slots (Slot (List ℕ) ℕ) → ℕ → (ℕ → Option (List ℕ)) → ℕ → Option (List ℕ)
keys_from zero i slots nvocab keys = keys
keys_from (suc left) i slots nvocab keys = keys_from left (i + 1) slots nvocab (elim (slots i) [
  | none ↦ keys
  | some e ↦
      if ltb e.value nvocab then (λ id. if id == e.value then some e.key else keys id) else keys
])

-- "<|endoftext|>"
abbrev pub end_of_text : List ℕ
end_of_text = 60 ∷ 124 ∷ 101 ∷ 110 ∷ 100 ∷ 111 ∷ 102 ∷ 116 ∷ 101 ∷ 120 ∷ 116 ∷ 124 ∷ 62 ∷ []

-- `for (i = 0; i < added.n; i++)`: the added tokens take the places of their ids.
unfoldable pub keys_of_added : List (List ℕ × ℕ) → ℕ → (ℕ → Option (List ℕ)) → ℕ → Option (List ℕ)
keys_of_added [] nvocab keys = keys
keys_of_added ((bytes, x) ∷ added) nvocab keys =
    keys_of_added added nvocab
      (if ltb x nvocab then (λ id. if id == x then some bytes else keys id) else keys)

unfoldable pub eos_of_added : List (List ℕ × ℕ) → ℕ → Option ℕ → Option ℕ
unfolding equal_bytes
eos_of_added [] nvocab eos = eos
eos_of_added ((bytes, x) ∷ added) nvocab eos =
    eos_of_added added nvocab
      (if ltb x nvocab && equal_bytes bytes end_of_text then some x else eos)

-- `if (id >= 0)` with the put.
unfoldable pub put_entry : VocabMap → ℕ → List ℕ → ℤ → List ℕ → Loaded (VocabMap × ℕ)
unfolding vmap_put
put_entry m n key (negsuc k) text = loaded (m, n) text
put_entry m n key (pos id) text =
    if ltb id (2 ^ 31)
    then elim (vmap_put m key id) [ none ↦ unending | some m' ↦ loaded (m', above n id) text ]
    else outside

-- The table of the keys: those of the vocabulary, then the added tokens.
unfoldable pub keys_of : VocabMap → List (List ℕ × ℕ) → ℕ → ℕ → Option (List ℕ)
unfolding keys_from keys_of_added
keys_of vocab added nvocab =
    keys_of_added added nvocab (keys_from vocab.nslots 0 vocab.slots nvocab (λ id. none))

-- "added_tokens", "vocab" and "merges"
abbrev pub added_key : List ℕ
added_key = 97 ∷ 100 ∷ 100 ∷ 101 ∷ 100 ∷ 95 ∷ 116 ∷ 111 ∷ 107 ∷ 101 ∷ 110 ∷ 115 ∷ []

abbrev pub vocab_key : List ℕ
vocab_key = 118 ∷ 111 ∷ 99 ∷ 97 ∷ 98 ∷ []

abbrev pub merges_key : List ℕ
merges_key = 109 ∷ 101 ∷ 114 ∷ 103 ∷ 101 ∷ 115 ∷ []

module _ (is_space : ℕ → Bool) where
  -- Behind the comma that a peek has seen.
  unfoldable pub behind_comma : List ℕ → List ℕ
  unfolding js_skip_ws
  behind_comma text = drop 1 (js_skip_ws is_space text)

  unfoldable pub js_int : (List ℕ → Option (ℤ × List ℕ)) → List ℕ → Option (ℤ × List ℕ)
  unfolding js_skip_ws
  js_int strtol text = strtol (js_skip_ws is_space text)
