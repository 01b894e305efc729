-- ===== src/Tokenizer/Bpe/Rounds.antt =====
-- One round of the merging in c/src/tokenizer.c: the lowest rank, and what a merge does to the ids
-- and the ranks.
use qwen3_8_flash_next.Base.{
  ◌^◌, ℕ, zero, suc, ◌+◌, ◌-◌, ◌≤◌, ◌<◌, ◌≡◌, ◌≢◌, refl, subst, arith, Bool, true, false, Option,
  none, some, List, [], ◌∷◌, ltb, if◌then◌else◌, length, length-set, get_or, set, Bool-cases,
  Option-cases, inl, inr, ◌⊎◌,
}
use qwen3_8_flash_next.Table.{Fault, Lookup, fault, missing, found}
use qwen3_8_flash_next.Tokenizer.Bpe.{
  rank_of, best_from, merge_at, remove_at, set_rank, merged_ranks, merge_round, Round, round,
}
use qwen3_8_flash_next.Tokenizer.Vocab.{MergesMap, Merge, mmap_find}

-- How many pairs have a rank.
abbrev pub live : List (Option ℕ) → ℕ
live [] = 0
live (none ∷ rank) = live rank
live (some r ∷ rank) = suc (live rank)

pub live-le-length : (rank : List (Option ℕ)) → live rank ≤ length rank
live-le-length [] = omega arith
live-le-length (none ∷ rank) = omega (arith, live-le-length rank)
live-le-length (some r ∷ rank) = omega (arith, live-le-length rank)

-- The place `k`, counted from `i`, has a rank.
abbrev Ranked : List (Option ℕ) → ℕ → ℕ → Type 0
Ranked rank i k =
    (j : ℕ) × (k ≡ i + j) × (j < length rank) × (live (set rank j none) + 1 ≡ live rank)

Ranked-tail :
    (r : Option ℕ) (rank : List (Option ℕ)) (i k : ℕ)
    → Ranked rank (i + 1) k
    → Ranked (r ∷ rank) i k
Ranked-tail none rank i k (j, e, lt, fewer) = (suc j, omega arith, omega arith, omega arith)
Ranked-tail (some r) rank i k (j, e, lt, fewer) = (suc j, omega arith, omega arith, omega arith)

best_from-Ranked :
    (rank : List (Option ℕ)) (i : ℕ) (best : Option ℕ) (best_rank k : ℕ)
    → best_from rank i best best_rank ≡ some k
    → (best ≡ some k) ⊎ Ranked rank i k
unfolding best_from
best_from-Ranked [] i best best_rank k h = inl h
best_from-Ranked (none ∷ rank) i best best_rank k h =
    elim (best_from-Ranked rank (i + 1) best best_rank k h) [
      | inl before ↦ inl before
      | inr later ↦ inr (Ranked-tail none rank i k later)
    ]
best_from-Ranked (some r ∷ rank) i best best_rank k h =
    elim (best_from-Ranked rank (i + 1) (if ltb r best_rank then some i else best)
      (if ltb r best_rank then r else best_rank) k h) [
        | inr later ↦ inr (Ranked-tail (some r) rank i k later)
        | inl before ↦ elim (Bool-cases (ltb r best_rank)) [
          | inr worse ↦ inl (rw worse at before)
          | inl better ↦
              let here : some i ≡ some k = rw better at before in
              let same : i ≡ k = cc here in inr (0, omega arith, omega arith, omega arith)
        ]
      ]

pub best-Ranked :
    (rank : List (Option ℕ)) (k : ℕ)
    → best_from rank 0 none (2 ^ 31 - 1) ≡ some k
    → (k < length rank) × (live (set rank k none) + 1 ≡ live rank)
best-Ranked rank k h = elim (best_from-Ranked rank 0 none (2 ^ 31 - 1) k h) [
  | inl none_yet ↦ absurd (cc none_yet)
  | inr (j, e, lt, fewer) ↦
      let same : j ≡ k = omega arith in
      subst (λ q. (q < length rank) × (live (set rank q none) + 1 ≡ live rank)) same (lt, fewer)
]

pub length-merge_at :
    (i id : ℕ) (cur : List ℕ) → i + 1 < length cur → length (merge_at i id cur) + 1 ≡ length cur
unfolding merge_at
length-merge_at i id [] lt = absurd (omega arith)
length-merge_at i id (a ∷ []) lt = absurd (omega arith)
length-merge_at zero id (a ∷ b ∷ cur) lt = omega arith
length-merge_at (suc i) id (a ∷ b ∷ cur) lt = omega (arith, length-merge_at i id (b ∷ cur))

length-remove_at :
    (i : ℕ) (rank : List (Option ℕ)) → i < length rank → length (remove_at i rank) + 1 ≡ length rank
unfolding remove_at
length-remove_at i [] lt = absurd (omega arith)
length-remove_at zero (r ∷ rank) lt = omega arith
length-remove_at (suc i) (r ∷ rank) lt = omega (arith, length-remove_at i rank)

module _ (m : MergesMap) (total : (a b : ℕ) (f : Fault) → mmap_find m a b ≢ fault f) where
  pub ranked : (a b : ℕ) → (r : Option ℕ) × (rank_of (mmap_find m a b) ≡ some r)
  ranked a b = go (mmap_find m a b) refl
    where
      go : (l : Lookup Merge) → mmap_find m a b ≡ l → (r : Option ℕ) × (rank_of l ≡ some r)
      go (fault f) e = absurd (total a b f e)
      go missing e = (none, refl)
      go (found merge) e = (some merge.rank, refl)

  set_rank_keeps :
      (cur : List ℕ) (test : Bool) (i : ℕ) (rank : List (Option ℕ))
      → (rank' : List (Option ℕ)) × (set_rank m cur test i rank ≡ some rank')
        × (length rank' ≡ length rank)
  unfolding set_rank
  set_rank_keeps cur false i rank = (rank, refl, refl)
  set_rank_keeps cur true i rank =
      let (r, e) = ranked (get_or cur i 0) (get_or cur (i + 1) 0) in
      (set rank i r, rw (e, set_rank), length-set rank i r)

  merged_ranks_fewer :
      (cur : List ℕ) (best : ℕ) (rank : List (Option ℕ))
      → best < length rank
      → (rank' : List (Option ℕ)) × (merged_ranks m cur best rank ≡ some rank')
        × (length rank' + 1 ≡ length rank)
  unfolding merged_ranks
  merged_ranks_fewer cur best rank lt =
      let (r1, e1, len1) = set_rank_keeps cur (ltb 0 best) (best - 1) (remove_at best rank) in
      let (r2, e2, len2) = set_rank_keeps cur (ltb (best + 1) (length cur)) best r1 in
      (r2, rw (e1, merged_ranks, e2), omega (arith, len1, len2, length-remove_at best rank))

  -- A round takes away a rank, or merges the pair that has it.
  pub data Rounded (cur : List ℕ) (rank : List (Option ℕ)) (best : ℕ) (r : Round) : Type 0 where
    dropped : r ≡ round cur (set rank best none) → Rounded cur rank best r
    merged :
        (merge : Merge) (id : ℕ) (rank' : List (Option ℕ))
        → mmap_find m (get_or cur best 0) (get_or cur (best + 1) 0) ≡ found merge
        → merge.merged ≡ some id
        → length rank' + 1 ≡ length rank
        → r ≡ round (merge_at best id cur) rank'
        → Rounded cur rank best r

  pub merge_round-Rounded :
      (cur : List ℕ) (rank : List (Option ℕ)) (best : ℕ)
      → best < length rank
      → Rounded cur rank best (merge_round m cur rank best)
  unfolding merge_round
  merge_round-Rounded cur rank best lt =
      go (mmap_find m (get_or cur best 0) (get_or cur (best + 1) 0)) refl
    where
      go :
          (l : Lookup Merge)
          → mmap_find m (get_or cur best 0) (get_or cur (best + 1) 0) ≡ l
          → Rounded cur rank best (merge_round m cur rank best)
      go (fault f) e = absurd (total _ _ f e)
      go missing e = dropped (rw (e, merge_round))
      go (found merge) e = elim (Option-cases merge.merged) [
        | inl no_id ↦ dropped (rw (e, merge_round, no_id))
        | inr (id, has_id) ↦
            let (rank', e', len) = merged_ranks_fewer (merge_at best id cur) best rank lt in
            merged merge id rank' e has_id len (rw (e, merge_round, has_id, e'))
      ]
