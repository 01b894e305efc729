-- ===== src/Tokenizer/Bpe/Ends.antt =====
-- The merging of c/src/tokenizer.c ends, and keeps what every merge keeps.
use qwen3_8_flash_next.Base.{
  ◌^◌, ℕ, zero, suc, ◌+◌, ◌-◌, ◌*◌, ◌≤◌, ◌<◌, ◌≡◌, ◌≢◌, refl, ◌∙◌, arith, true, false, Option, none,
  some, List, [], ◌∷◌, ltb, length, length-set, get_or, set, Bool-cases, Option-cases, inl, inr,
}
use qwen3_8_flash_next.Table.{Fault, fault, found}
use qwen3_8_flash_next.Tokenizer.Bpe.Rounds.{
  live, live-le-length, best-Ranked, length-merge_at, ranked, dropped, merged, merge_round-Rounded,
}
use qwen3_8_flash_next.Tokenizer.Bpe.{
  ranks_of, best_from, merge_at, merge_round, merge_loop, merge_all, round, coded,
}
use qwen3_8_flash_next.Tokenizer.Vocab.{MergesMap, Merge, mmap_find}

module _ {ℓ} (m : MergesMap) (total : (a b : ℕ) (f : Fault) → mmap_find m a b ≢ fault f)
    (P : List ℕ → Type ℓ)
    (keep : (cur : List ℕ) (i id : ℕ) (merge : Merge)
      → i + 1 < length cur
      → mmap_find m (get_or cur i 0) (get_or cur (i + 1) 0) ≡ found merge
      → merge.merged ≡ some id
      → P cur
      → P (merge_at i id cur)) where
  ranks_of_total :
      (cur : List ℕ)
      → (rank : List (Option ℕ)) × (ranks_of m cur ≡ some rank) × (length rank ≡ length cur - 1)
  unfolding ranks_of
  ranks_of_total [] = ([], refl, refl)
  ranks_of_total (a ∷ []) = ([], refl, refl)
  ranks_of_total (a ∷ b ∷ cur) =
      let (r, e) = ranked m total a b in
      let (rest, e', len) = ranks_of_total (b ∷ cur) in
      (r ∷ rest, rw (e, ranks_of, e'), omega arith)

  loop_short :
      (fuel : ℕ) (cur : List ℕ) (rank : List (Option ℕ))
      → ltb 1 (length cur) ≡ false
      → merge_loop (suc fuel) m cur rank ≡ some cur
  unfolding merge_loop
  loop_short fuel cur rank h = rw (h, merge_loop)

  loop_done :
      (fuel : ℕ) (cur : List ℕ) (rank : List (Option ℕ))
      → ltb 1 (length cur) ≡ true
      → best_from rank 0 none (2 ^ 31 - 1) ≡ none
      → merge_loop (suc fuel) m cur rank ≡ some cur
  unfolding merge_loop
  loop_done fuel cur rank h b = rw (h, merge_loop, b)

  loop_round :
      (fuel : ℕ) (cur cur' : List ℕ) (rank rank' : List (Option ℕ)) (best : ℕ)
      → ltb 1 (length cur) ≡ true
      → best_from rank 0 none (2 ^ 31 - 1) ≡ some best
      → merge_round m cur rank best ≡ round cur' rank'
      → merge_loop (suc fuel) m cur rank ≡ merge_loop fuel m cur' rank'
  unfolding merge_loop
  loop_round fuel cur cur' rank rank' best h b r = rw (h, merge_loop, b, r)

  -- Rounds that are left at most: a merge takes a pair away, any other round a rank.
  abbrev weight : List (Option ℕ) → ℕ
  weight rank = length rank * length rank + length rank + live rank

  weight_merged :
      (rank rank' : List (Option ℕ)) → length rank' + 1 ≡ length rank → weight rank' < weight rank
  weight_merged rank rank' len = grind (arith, live-le-length rank')

  abbrev Merged : Option (List ℕ) → Type ℓ
  Merged r = (ids : List ℕ) × (r ≡ some ids) × P ids

  merge_loop-Merged :
      (fuel : ℕ) (cur : List ℕ) (rank : List (Option ℕ))
      → length rank ≡ length cur - 1
      → weight rank < fuel
      → P cur
      → Merged (merge_loop fuel m cur rank)
  merge_loop-Merged zero cur rank len enough p = absurd (omega arith)
  merge_loop-Merged (suc fuel) cur rank len enough p = elim (Bool-cases (ltb 1 (length cur))) [
    | inr short ↦ (cur, loop_short fuel cur rank short, p)
    | inl more ↦ elim (Option-cases (best_from rank 0 none (2 ^ 31 - 1))) [
      | inl no_rank ↦ (cur, loop_done fuel cur rank more no_rank, p)
      | inr (best, found_best) ↦
          let (lt, fewer) = best-Ranked rank best found_best in
          elim (merge_round-Rounded m total cur rank best lt) [
            | dropped e ↦
                let (ids, result, p') =
                  merge_loop-Merged fuel cur (set rank best none)
                    (omega (arith, length-set rank best none)) (lighter rank best fewer fuel enough)
                    p in
                (
                  ids,
                  loop_round fuel cur cur rank (set rank best none) best more found_best e ∙ result,
                  p',
                )
            | merged merge id rank' at has_id len' e ↦
                let (ids, result, p') =
                  merge_loop-Merged fuel (merge_at best id cur) rank'
                    (omega (arith, length-merge_at best id cur))
                    (omega (arith, weight_merged rank rank' len'))
                    (keep cur best id merge (omega arith) at has_id p) in
                (
                  ids,
                  loop_round fuel cur (merge_at best id cur) rank rank' best more found_best e
                      ∙ result,
                  p',
                )
          ]
    ]
  ]
    where
      lighter :
          (rank : List (Option ℕ)) (best : ℕ)
          → live (set rank best none) + 1 ≡ live rank
          → (fuel : ℕ) → weight rank < suc fuel
          → weight (set rank best none) < fuel
      lighter rank best fewer fuel enough =
          let same = length-set rank best none in rw same (omega arith)

  merge_all_of_loop :
      (cur ids : List ℕ) (rank : List (Option ℕ))
      → ranks_of m cur ≡ some rank
      → merge_loop (length cur * length cur + 1) m cur rank ≡ some ids
      → merge_all m cur ≡ coded ids
  unfolding merge_all
  merge_all_of_loop cur ids rank r l = rw (r, merge_all, l)

  weight_start : (n k l : ℕ) → k ≡ n - 1 → l ≤ k → k * k + k + l < n * n + 1
  weight_start zero k l e le = let z : k ≡ 0 = omega arith in rw z (omega arith)
  weight_start (suc n) k l e le = grind arith

  -- The merging of any ids ends.
  pub merge_all-Merged :
      (cur : List ℕ) → P cur → (ids : List ℕ) × (merge_all m cur ≡ coded ids) × P ids
  merge_all-Merged cur p =
      let (rank, r, len) = ranks_of_total cur in
      let (ids, result, p') =
        merge_loop-Merged (length cur * length cur + 1) cur rank len
          (weight_start (length cur) (length rank) (live rank) len (live-le-length rank)) p in
      (ids, merge_all_of_loop cur ids rank r result, p')
