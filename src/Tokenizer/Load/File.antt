-- ===== src/Tokenizer/Load/File.antt =====
-- The vocabulary and the merges of tokenizer.json, and `tokenizer_load` of c/src/tokenizer.c.
use qwen3_8_flash_next.Base.{
  ℤ, ℕ, zero, suc, ◌+◌, ◌*◌, ◌^◌, max, Bool, true, false, ◌||◌, Option, none, some, List, [], ltb,
  if◌then◌else◌, length,
}
use qwen3_8_flash_next.Table.{empty}
use qwen3_8_flash_next.Tokenizer.Bpe.{Tokenizer}
use qwen3_8_flash_next.Tokenizer.Form.{load_uni}
use qwen3_8_flash_next.Tokenizer.Scan.{
  Raw, raw, broken, full, js_skip_ws, js_peek, js_expect, js_string_raw, key_from, find_key,
}
use qwen3_8_flash_next.Tokenizer.Vocab.{VocabMap, MergesMap, vmap_init, mmap_init}
use qwen3_8_flash_next.Tokenizer.Load.Added.{parse_added_tokens}
use qwen3_8_flash_next.Tokenizer.Load.{
  Loaded, loaded, rejected, unending, then_load, or_reject, AddedTokens, put_entry, put_pair,
  keys_of, eos_of_added, added_key, vocab_key, merges_key, behind_comma, js_int,
}

module _ (is_space : ℕ → Bool) (strtol : List ℕ → Option (ℤ × List ℕ)) where
  -- The round of the first loop over "vocab" behind a key: where it ends up, and whether `c.failed`
  -- is still 0.
  unfoldable pub count_entry : List ℕ → List ℕ × Bool
  unfolding js_expect js_skip_ws js_int
  count_entry text = elim (js_expect is_space text 58) [
    | none ↦ elim (js_int is_space strtol text) [
      | none ↦ (text, false)
      | some (id, rest) ↦ (rest, false)
    ]
    | some at ↦ elim (js_int is_space strtol at) [
      | none ↦ (at, false)
      | some (id, rest) ↦ (rest, true)
    ]
  ]

  -- The first loop over "vocab", which counts the commas.
  unfoldable pub count_vocab : ℕ → List ℕ → ℕ → Option ℕ
  unfolding js_peek js_string_raw count_entry behind_comma
  count_vocab zero text n = none
  count_vocab (suc fuel) text n = elim (js_peek is_space text 125) [
    | true ↦ some n
    | false ↦ elim (js_string_raw is_space text 512) [
      | broken ↦ some n
      | full rest ↦ some n
      | Raw.unfinished ↦ none
      | raw key rest ↦
          let (at, ok) = count_entry rest in
          let more = count_vocab fuel (behind_comma is_space at) (n + 1) in
          if js_peek is_space at 44 then if ok then more else some (n + 1) else some n
    ]
  ]

  -- The second loop over "vocab": the map, and `max_id + 1`.
  unfoldable pub load_vocab : ℕ → List ℕ → VocabMap → ℕ → Loaded (VocabMap × ℕ)
  unfolding behind_comma js_peek js_string_raw js_expect js_int put_entry
  load_vocab zero text m n = unending
  load_vocab (suc fuel) text m n = elim (js_peek is_space text 125) [
    | true ↦ loaded (m, n) text
    | false ↦ elim (js_string_raw is_space text 512) [
      | broken ↦ rejected
      | full rest ↦ rejected
      | Raw.unfinished ↦ unending
      | raw key rest ↦ or_reject (js_expect is_space rest 58) (λ at.
          elim (js_int is_space strtol at) [
            | none ↦ rejected
            | some (id, at') ↦ then_load (put_entry m n key id at') (λ (m', n') at''.
                elim (js_peek is_space at'' 44) [
                  | true ↦ load_vocab fuel (behind_comma is_space at'') m' n'
                  | false ↦ loaded (m', n') at''
                ])
          ])
    ]
  ]

  -- The first loop over "merges", which counts the commas.
  unfoldable pub count_merges : ℕ → List ℕ → ℕ → Option ℕ
  unfolding behind_comma js_peek js_string_raw
  count_merges zero text n = none
  count_merges (suc fuel) text n = elim (js_peek is_space text 93) [
    | true ↦ some n
    | false ↦ elim (js_string_raw is_space text 1024) [
      | broken ↦ some n
      | full rest ↦ some n
      | Raw.unfinished ↦ none
      | raw pair rest ↦
          let more = count_merges fuel (behind_comma is_space rest) (n + 1) in
          if js_peek is_space rest 44 then more else some n
    ]
  ]

  -- The second loop over "merges".
  unfoldable pub load_merges : ℕ → VocabMap → List ℕ → MergesMap → ℕ → Loaded MergesMap
  unfolding behind_comma js_peek js_string_raw put_pair
  load_merges zero vocab text m rank = unending
  load_merges (suc fuel) vocab text m rank = elim (js_peek is_space text 93) [
    | true ↦ loaded m text
    | false ↦ elim (js_string_raw is_space text 1024) [
      | broken ↦ rejected
      | full rest ↦ rejected
      | Raw.unfinished ↦ unending
      | raw pair rest ↦ elim (put_pair vocab m pair rank) [
        | none ↦ unending
        | some m' ↦ elim (js_peek is_space rest 44) [
          | true ↦ load_merges fuel vocab (behind_comma is_space rest) m' (rank + 1)
          | false ↦ loaded m' rest
        ]
      ]
    ]
  ]

  -- The values of the three keys. Where there is no "added_tokens" or no "merges", the search has
  -- used the text up.
  unfoldable pub load_added : List ℕ → Loaded AddedTokens
  unfolding key_from js_expect parse_added_tokens
  load_added text = elim (key_from is_space added_key text) [
    | none ↦ loaded (record { tokens = []; max_id = 0 }) []
    | some at ↦
        or_reject (js_expect is_space at 58)
          (λ at'. parse_added_tokens is_space strtol at' (record { tokens = []; max_id = 0 }))
  ]

  unfoldable pub load_vocab_at : List ℕ → Loaded (VocabMap × ℕ)
  unfolding find_key js_expect count_vocab vmap_init load_vocab
  load_vocab_at text = or_reject (find_key is_space text vocab_key) (λ at.
      or_reject (js_expect is_space at 123) (λ at'. elim (count_vocab (suc (length at')) at' 0) [
        | none ↦ unending
        | some n ↦ elim (vmap_init (n * 2 + 1024)) [
          | none ↦ unending
          | some m ↦
              then_load (load_vocab (suc (length at')) at' m 0)
                (λ r rest. or_reject (js_expect is_space rest 125) (λ rest'. loaded r rest'))
        ]
      ]))

  unfoldable pub load_merges_at : VocabMap → List ℕ → Loaded MergesMap
  unfolding key_from js_expect count_merges mmap_init load_merges empty
  load_merges_at vocab text = elim (key_from is_space merges_key text) [
    | none ↦ loaded (empty 0) []
    | some at ↦ or_reject (js_expect is_space at 58) (λ at1.
        or_reject (js_expect is_space at1 91) (λ at2. elim (count_merges (suc (length at2)) at2 0) [
          | none ↦ unending
          | some n ↦ elim (mmap_init (n * 2 + 1024)) [
            | none ↦ unending
            | some m ↦
                then_load (load_merges (suc (length at2)) vocab at2 m 0)
                  (λ m' rest. or_reject (js_expect is_space rest 93) (λ rest'. loaded m' rest'))
          ]
        ]))
  ]

  -- `tokenizer_load`, from the contents of the file on.
  unfoldable pub tokenizer_load : List ℕ → Loaded Tokenizer
  unfolding load_uni load_added load_vocab_at load_merges_at keys_of eos_of_added
  tokenizer_load text =
      if ltb (length text) 16 || ltb (2 ^ 31) (length text) then rejected else elim load_uni [
        | none ↦ unending
        | some uni ↦ then_load (load_added text) (λ added at.
            then_load (load_vocab_at at) (λ (vocab, n) at'.
              let nvocab = max (added.max_id + 1) n in
              then_load (load_merges_at vocab at') (λ merges at''.
                loaded
                  (record {
                    vocab = vocab;
                    merges = merges;
                    uni = uni;
                    id_bytes = keys_of vocab added.tokens nvocab;
                    nvocab = nvocab;
                    eos_id = eos_of_added added.tokens nvocab none;
                    added = added.tokens;
                  })
                  at'')))
      ]
