-- ===== src/Cache/Evict.antt =====
-- The eviction loop of `cache_put` ends, with room for the new entry or with only pinned entries
-- left, and never drops a pinned entry.
use qwen3_8_flash_next.Base.{
  add64, ℕ, zero, suc, ◌+◌, ◌≤◌, ◌<◌, ◌≡◌, refl, ap, ◌∙◌, arith, Bool, true, false, none, some,
  length, ltb, inl, inr, Bool-cases, Option-cases, ◌&&◌,
}
use qwen3_8_flash_next.Cache.Choice.{pick_victim-In, pick_victim-none_iff}
use qwen3_8_flash_next.Cache.Drop.{dropped, drop_entry-Dropped}
use qwen3_8_flash_next.Cache.Ops.{Evicted, fits, stuck, reject, evict}
use qwen3_8_flash_next.Cache.Recency.{In, total, In-unlink, In-unlink_ne, length-unlink}
use qwen3_8_flash_next.Cache.Valid.{IsValid}
use qwen3_8_flash_next.Cache.Victim.{Doubles, pick_victim}
use qwen3_8_flash_next.Cache.{Cache, drop_entry}
use qwen3_8_flash_next.Probe.{Slots}

-- `c'` is `c` after evictions.
pub record Shrunk (c c' : Cache) : Type 0 where
  pub valid : IsValid c'
  pub fewer : (p : ℕ) → In p c'.recency → In p c.recency
  pub pinned_stay : (p : ℕ) → In p c.recency → (c.entries p).pinned ≡ true → In p c'.recency
  pub entries : c'.entries ≡ c.entries
  pub max_bytes : c'.max_bytes ≡ c.max_bytes
  pub nslots : c'.nslots ≡ c.nslots
  pub next_ptr : c'.next_ptr ≡ c.next_ptr

abbrev pub Outcome : Cache → ℕ → Evicted → Type 0
Outcome c nbytes (fits c' n) =
    Shrunk c c' × (0 < c.max_bytes → total c'.entries c'.recency + nbytes ≤ c.max_bytes)
Outcome c nbytes (stuck c'') =
    (c' : Cache) × (c'' ≡ reject c')
    × Shrunk c c'
    × ((p : ℕ) → In p c'.recency → (c'.entries p).pinned ≡ true)
    × (c.max_bytes < total c'.entries c'.recency + nbytes)

Shrunk-refl : (c : Cache) → IsValid c → Shrunk c c
Shrunk-refl c v = record {
  valid = v;
  fewer = λ p i. i;
  pinned_stay = λ p i _. i;
  entries = refl;
  max_bytes = refl;
  nslots = refl;
  next_ptr = refl;
}

Shrunk-drop :
    (c c' : Cache) (p : ℕ) (s : Slots ℕ)
    → (c.entries p).pinned ≡ false
    → Shrunk (dropped c p s) c'
    → Shrunk c c'
Shrunk-drop c c' p s free h = record {
  valid = h.valid;
  fewer = λ q i. In-unlink p q c.recency (h.fewer q i);
  pinned_stay = λ q i pinned.
      h.pinned_stay q
        (In-unlink_ne p q c.recency (λ e. cc (ap (λ t. (c.entries t).pinned) e, pinned, free)) i)
        pinned;
  entries = h.entries;
  max_bytes = h.max_bytes;
  nslots = h.nslots;
  next_ptr = h.next_ptr;
}

Outcome-drop :
    (c : Cache) (p nbytes : ℕ) (s : Slots ℕ) (r : Evicted)
    → (c.entries p).pinned ≡ false
    → Outcome (dropped c p s) nbytes r
    → Outcome c nbytes r
Outcome-drop c p nbytes s (fits c' n) free (h, room) = (Shrunk-drop c c' p s free h, room)
Outcome-drop c p nbytes s (stuck c'') free (c', e, h, all, over) =
    (c', e, Shrunk-drop c c' p s free h, all, over)

module _ (d : Doubles) where
  abbrev crowded : Cache → ℕ → Bool
  crowded c nbytes = ltb 0 c.max_bytes && ltb c.max_bytes (add64 c.bytes nbytes)

  crowded-lt :
      (c : Cache) (nbytes : ℕ)
      → crowded c nbytes ≡ true
      → (0 < c.max_bytes) × (c.max_bytes < add64 c.bytes nbytes)
  crowded-lt c nbytes h = ground arith

  evict_done :
      (fuel : ℕ) (c : Cache) (nbytes n : ℕ)
      → crowded c nbytes ≡ false
      → evict d (suc fuel) c nbytes n ≡ some (fits c n)
  unfolding evict
  evict_done fuel c nbytes n h = rw (h, evict)

  evict_stuck :
      (fuel : ℕ) (c : Cache) (nbytes n : ℕ)
      → crowded c nbytes ≡ true
      → pick_victim d c ≡ none
      → evict d (suc fuel) c nbytes n ≡ some (stuck (reject c))
  unfolding evict
  evict_stuck fuel c nbytes n h e = rw (h, evict, e)

  evict_more :
      (fuel : ℕ) (c : Cache) (nbytes n p : ℕ) (c' : Cache)
      → crowded c nbytes ≡ true
      → pick_victim d c ≡ some p
      → drop_entry c p ≡ some c'
      → evict d (suc fuel) c nbytes n ≡ evict d fuel c' nbytes (add64 n 1)
  unfolding evict
  evict_more fuel c nbytes n p c' h e r = rw (h, evict, e, r)

  -- On a valid cache whose budget, if it has one, is at least the new size, the eviction loop of
  -- cache_put with more fuel than entries ends. It ends with a valid cache, which lists no new
  -- entry and all the pinned ones, and either the new size fits the budget, or all that is left
  -- is pinned and the new size does not fit.
  pub evict-Outcome :
      (fuel : ℕ) (c : Cache) (nbytes n : ℕ)
      → IsValid c
      → length c.recency < fuel
      → (0 < c.max_bytes → nbytes ≤ c.max_bytes)
      → (r : Evicted) × (evict d fuel c nbytes n ≡ some r) × Outcome c nbytes r
  evict-Outcome zero c nbytes n v enough small = absurd (omega arith)
  evict-Outcome (suc fuel) c nbytes n v enough small = elim (Bool-cases (crowded c nbytes)) [
    | inr h ↦ (
      fits c n,
      evict_done fuel c nbytes n h,
      (Shrunk-refl c v, λ pos. ground (arith, v.within pos, small pos, v.summed, v.limit)),
    )
    | inl h ↦ elim (Option-cases (pick_victim d c)) [
      | inl e ↦ (
        stuck (reject c),
        evict_stuck fuel c nbytes n h e,
        (
          c,
          refl,
          Shrunk-refl c v,
          (pick_victim-none_iff d c).0 e,
          omega (arith, crowded-lt c nbytes h, v.summed),
        ),
      )
      | inr (p, e) ↦
          let (i, free) = pick_victim-In d c p e in
          let dr = drop_entry-Dropped c p v i in
          let (r, ends, out) =
            evict-Outcome fuel (dropped c p dr.table) nbytes (add64 n 1) dr.valid
              (omega (arith, length-unlink p c.recency i)) small in
          (
            r,
            evict_more fuel c nbytes n p (dropped c p dr.table) h e dr.result ∙ ends,
            Outcome-drop c p nbytes dr.table r free out,
          )
    ]
  ]
