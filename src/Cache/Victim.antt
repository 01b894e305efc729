-- ===== src/Cache/Victim.antt =====
-- `pick_victim`: the entry that an eviction drops. A score is a nonnegative `double`, held as its
-- bit pattern, so that `<` and `==` on scores are those on numbers.
use qwen3_8_flash_next.Base.{
  add64, ℕ, ◌/◌, Bool, false, ◌||◌, ◌&&◌, not, Option, none, some, List, [], ◌∷◌, ◌++◌, ◌==◌, ltb,
  if◌then◌else◌,
}
use qwen3_8_flash_next.Cache.{Cache, Entry, Policy, lru, lfu, adaptive, partition_of}

-- The arithmetic of `double` that the scores use, on bit patterns.
pub record Doubles : Type 0 where
  pub of_u64 : ℕ → ℕ
  pub div : ℕ → ℕ → ℕ

-- The best candidate so far: `best`, `best_score` and `best_touched`.
pub record Best : Type 0 where
  pub ptr : ℕ
  pub score : ℕ
  pub touched : ℕ

-- The recency list from its tail on, along `prev`.
unfoldable pub from_tail : List ℕ → List ℕ
from_tail [] = []
from_tail (x ∷ xs) = from_tail xs ++ x ∷ []

-- The inner loop: the bytes that a partition holds.
unfoldable pub usage : (ℕ → Entry) → ℕ → List ℕ → ℕ → ℕ
unfolding partition_of
usage entries part [] sum = sum
usage entries part (x ∷ xs) sum =
    usage entries part xs
      (if partition_of (entries x).key == part then add64 sum (entries x).nbytes else sum)

unfoldable pub fair : Cache → ℕ
fair c = if ltb 0 c.partitions then c.max_bytes / c.partitions else 0

-- Is the partition of this entry over its share?
unfoldable pub is_over : Cache → Entry → Bool
unfolding usage fair
is_over c e = ltb (fair c) (usage c.entries (partition_of e.key) c.recency 0)

-- The first loop, from the tail on.
unfoldable pub any_over : Cache → List ℕ → Bool
unfolding is_over
any_over c [] = false
any_over c (p ∷ ps) =
    let e = c.entries p in if e.pinned then any_over c ps else is_over c e || any_over c ps

-- An entry that the second loop passes over.
unfoldable pub skipped : Cache → Bool → Entry → Bool
unfolding is_over
skipped c over e = e.pinned || (ltb 0 c.partitions && over && not (is_over c e))

module _ (d : Doubles) where
  unfoldable pub score_of : Policy → Entry → ℕ
  score_of lru e = 0
  score_of lfu e = d.of_u64 e.freq
  score_of adaptive e =
      d.div (d.of_u64 (add64 e.freq (if e.hot then 4 else 0)))
        (d.of_u64 (if e.nbytes == 0 then 1 else e.nbytes))

  unfoldable pub is_better : Policy → Entry → ℕ → Best → Bool
  is_better lru e score b = ltb e.touched b.touched
  is_better _ e score b = ltb score b.score || (score == b.score && ltb e.touched b.touched)

  -- The body of the second loop for an entry that may be dropped.
  unfoldable pub choose : Cache → Option Best → ℕ → Option Best
  unfolding score_of is_better
  choose c none p =
      let e = c.entries p in
      some (record { ptr = p; score = score_of c.policy e; touched = e.touched })
  choose c (some b) p =
      let e = c.entries p in
      let old = c.entries b.ptr in
      let score = score_of c.policy e in
      if not e.hot && old.hot
      then some (record { ptr = p; score = 0; touched = e.touched })
      else if e.hot && not old.hot
      then some b
      else if is_better c.policy e score b
      then some (record { ptr = p; score = score; touched = e.touched })
      else some b

  unfoldable pub scan : Cache → Bool → Option Best → List ℕ → Option Best
  unfolding choose skipped
  scan c over best [] = best
  scan c over best (p ∷ ps) =
      scan c over (if skipped c over (c.entries p) then best else choose c best p) ps

  unfoldable pub pick_victim : Cache → Option ℕ
  unfolding from_tail any_over scan
  pick_victim c =
      let back = from_tail c.recency in
      let over = ltb 0 c.partitions && any_over c back in
      elim (scan c over none back) [ none ↦ none | some b ↦ some b.ptr ]
