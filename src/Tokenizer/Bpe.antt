-- ===== src/Tokenizer/Bpe.antt =====
-- The merging of c/src/tokenizer.c: `encode_chunk`, and `tokenizer_decode`. An id of -1 and a rank
-- of -1 are `none`.
pub mod Rounds
pub mod Ends
pub mod Spells
pub mod Decode
use qwen3_8_flash_next.Base.{
  ℕ, zero, suc, ◌+◌, ◌-◌, ◌*◌, ◌%◌, ◌^◌, Bool, true, false, Option, none, some, List, [], ◌∷◌, ◌++◌,
  ◌==◌, ltb, if◌then◌else◌, length, get_or, set,
}
use qwen3_8_flash_next.Table.{Lookup, fault, missing, found}
use qwen3_8_flash_next.Tokenizer.Form.{byte_form}
use qwen3_8_flash_next.Tokenizer.Vocab.{VocabMap, MergesMap, Merge, vmap_get, mmap_find}

-- `struct tokenizer`. `id_bytes` is the array of its `nvocab` places, with `id_lens`; `added` is
-- `at_bytes` and `at_lens` with `at_ids`.
pub record Tokenizer : Type 0 where
  pub vocab : VocabMap
  pub merges : MergesMap
  pub uni : VocabMap
  pub id_bytes : ℕ → Option (List ℕ)
  pub nvocab : ℕ
  pub eos_id : Option ℕ
  pub added : List (List ℕ × ℕ)

-- `stuck` is a read through a null pointer, or a loop that has not ended.
pub data Coded : Type 0 where
  stuck failed : Coded
  coded : List ℕ → Coded

abbrev pub rank_of : Lookup Merge → Option (Option ℕ)
rank_of (fault f) = none
rank_of missing = some none
rank_of (found m) = some (some m.rank)

-- `for (i = 0; i < len; i++) cur[n++] = ...;`
unfoldable pub ids_of : VocabMap → List ℕ → Coded
unfolding vmap_get byte_form
ids_of m [] = coded []
ids_of m (b ∷ bytes) = elim (vmap_get m (byte_form b)) [
  | fault f ↦ stuck
  | missing ↦ failed
  | found id ↦ elim (ids_of m bytes) [
    | stuck ↦ stuck
    | failed ↦ failed
    | coded ids ↦ coded (id ∷ ids)
  ]
]

-- `for (i = 0; i + 1 < n; i++) rank[i] = ...;`
unfoldable pub ranks_of : MergesMap → List ℕ → Option (List (Option ℕ))
unfolding mmap_find
ranks_of m [] = some []
ranks_of m (a ∷ []) = some []
ranks_of m (a ∷ b ∷ cur) = elim (rank_of (mmap_find m a b)) [
  | none ↦ none
  | some r ↦ elim (ranks_of m (b ∷ cur)) [ none ↦ none | some rest ↦ some (r ∷ rest) ]
]

-- The search for the lowest rank from `i` on; `best_rank` starts as INT32_MAX.
unfoldable pub best_from : List (Option ℕ) → ℕ → Option ℕ → ℕ → Option ℕ
best_from [] i best best_rank = best
best_from (none ∷ rank) i best best_rank = best_from rank (i + 1) best best_rank
best_from (some r ∷ rank) i best best_rank =
    best_from rank (i + 1) (if ltb r best_rank then some i else best)
      (if ltb r best_rank then r else best_rank)

-- `cur[best] = merged`, and the `memmove` of what lies behind.
unfoldable pub merge_at : ℕ → ℕ → List ℕ → List ℕ
merge_at i id [] = []
merge_at i id (a ∷ []) = a ∷ []
merge_at zero id (a ∷ b ∷ cur) = id ∷ cur
merge_at (suc i) id (a ∷ b ∷ cur) = a ∷ merge_at i id (b ∷ cur)

-- The `memmove` of the ranks.
unfoldable pub remove_at {ℓ} : {A : Type ℓ} → ℕ → List A → List A
remove_at i [] = []
remove_at zero (r ∷ rank) = rank
remove_at (suc i) (r ∷ rank) = r ∷ remove_at i rank

-- `rank[i] = ...` for the pair at `i`, where `test` holds.
unfoldable pub set_rank : MergesMap → List ℕ → Bool → ℕ → List (Option ℕ) → Option (List (Option ℕ))
unfolding mmap_find
set_rank m cur false i rank = some rank
set_rank m cur true i rank = elim (rank_of (mmap_find m (get_or cur i 0) (get_or cur (i + 1) 0))) [
  | none ↦ none
  | some r ↦ some (set rank i r)
]

-- The ranks after a merge at `best`, in the ids `cur` that it left.
unfoldable pub merged_ranks : MergesMap → List ℕ → ℕ → List (Option ℕ) → Option (List (Option ℕ))
unfolding remove_at set_rank
merged_ranks m cur best rank = elim (set_rank m cur (ltb 0 best) (best - 1) (remove_at best rank)) [
  | none ↦ none
  | some rank' ↦ set_rank m cur (ltb (best + 1) (length cur)) best rank'
]

-- What a round of the loop does with the lowest rank.
pub data Round : Type 0 where
  broken : Round
  round : List ℕ → List (Option ℕ) → Round

unfoldable pub merge_round : MergesMap → List ℕ → List (Option ℕ) → ℕ → Round
unfolding mmap_find merge_at merged_ranks
merge_round m cur rank best = elim (mmap_find m (get_or cur best 0) (get_or cur (best + 1) 0)) [
  | fault f ↦ broken
  | missing ↦ round cur (set rank best none)
  | found merge ↦ elim merge.merged [
    | none ↦ round cur (set rank best none)
    | some id ↦ elim (merged_ranks m (merge_at best id cur) best rank) [
      | none ↦ broken
      | some rank' ↦ round (merge_at best id cur) rank'
    ]
  ]
]

-- `while (n > 1)`
unfoldable pub merge_loop : ℕ → MergesMap → List ℕ → List (Option ℕ) → Option (List ℕ)
unfolding best_from merge_round
merge_loop zero m cur rank = none
merge_loop (suc fuel) m cur rank = elim (ltb 1 (length cur)) [
  | false ↦ some cur
  | true ↦ elim (best_from rank 0 none (2 ^ 31 - 1)) [
    | none ↦ some cur
    | some best ↦ elim (merge_round m cur rank best) [
      | broken ↦ none
      | round cur' rank' ↦ merge_loop fuel m cur' rank'
    ]
  ]
]

unfoldable pub merge_all : MergesMap → List ℕ → Coded
unfolding ranks_of merge_loop
merge_all m cur = elim (ranks_of m cur) [
  | none ↦ stuck
  | some rank ↦ elim (merge_loop (length cur * length cur + 1) m cur rank) [
    | none ↦ stuck
    | some ids ↦ coded ids
  ]
]

abbrev pub within : ℕ → Coded → Coded
within room stuck = stuck
within room failed = failed
within room (coded ids) = if ltb room (length ids) then failed else coded ids

-- `room` is the parameter `cap` of the source.
unfoldable pub encode_chunk : Tokenizer → List ℕ → ℕ → Coded
unfolding ids_of merge_all
encode_chunk t s room = elim (ids_of t.vocab s) [
  | stuck ↦ stuck
  | failed ↦ failed
  | coded cur ↦ within room (merge_all t.merges cur)
]

-- A form that `uni` does not know stands for its first byte.
abbrev pub raw_or : Lookup ℕ → ℕ → Option ℕ
raw_or (fault f) b = none
raw_or missing b = some b
raw_or (found raw) b = some (raw % 256)

abbrev pub cons? : Option ℕ → Option (List ℕ) → Option (List ℕ)
cons? (some b) (some bytes) = some (b ∷ bytes)
cons? _ _ = none

-- The loop over the bytes of a key: forms of one or of two bytes.
unfoldable pub decode_key : VocabMap → List ℕ → Option (List ℕ)
unfolding vmap_get
decode_key uni [] = some []
decode_key uni (x ∷ []) = cons? (raw_or (vmap_get uni (x ∷ [])) x) (some [])
decode_key uni (x ∷ y ∷ bytes) =
    let short = cons? (raw_or (vmap_get uni (x ∷ [])) x) (decode_key uni (y ∷ bytes)) in
    let long = cons? (raw_or (vmap_get uni (x ∷ y ∷ [])) x) (decode_key uni bytes) in
    if ltb x 128 then short else long

-- The bytes of an id, if it has some.
unfoldable pub key_of : Tokenizer → ℕ → Option (List ℕ)
key_of t id = if ltb id t.nvocab then t.id_bytes id else none

abbrev pub append? : Option (List ℕ) → Option (List ℕ) → Option (List ℕ)
append? (some xs) (some ys) = some (xs ++ ys)
append? _ _ = none

-- Ids below 0 are not among the arguments here, since they are passed over like those with no
-- bytes.
unfoldable pub decode : Tokenizer → List ℕ → Option (List ℕ)
unfolding decode_key key_of
decode t [] = some []
decode t (id ∷ ids) = elim (key_of t id) [
  | none ↦ decode t ids
  | some key ↦ append? (decode_key t.uni key) (decode t ids)
]
