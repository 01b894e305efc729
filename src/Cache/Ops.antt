-- ===== src/Cache/Ops.antt =====
-- `cache_put` and `cache_destroy`.
use qwen3_8_flash_next.Base.{
  add64, ℕ, zero, suc, ◌+◌, Bool, true, false, ◌&&◌, Option, none, some, List, [], ◌∷◌, ◌++◌, ltb,
  if◌then◌else◌, length,
}
use qwen3_8_flash_next.Cache.Victim.{Doubles, pick_victim}
use qwen3_8_flash_next.Cache.{Cache, Entry, drop_entry, replace_old, make_room, insert_entry}

-- How the eviction loop ends: with room, or with nothing left to evict.
pub data Evicted : Type 0 where
  fits : Cache → ℕ → Evicted
  stuck : Cache → Evicted

abbrev pub reject : Cache → Cache
reject c = record c { rejected = add64 c.rejected 1 }

module _ (d : Doubles) where
  -- `while (max_bytes > 0 && bytes + nbytes > max_bytes)`; the fuel is one more than the entries.
  unfoldable pub evict : ℕ → Cache → ℕ → ℕ → Option Evicted
  unfolding pick_victim drop_entry
  evict zero c nbytes evicted = none
  evict (suc fuel) c nbytes evicted =
      elim (ltb 0 c.max_bytes && ltb c.max_bytes (add64 c.bytes nbytes)) [
        | false ↦ some (fits c evicted)
        | true ↦ elim (pick_victim d c) [
          | none ↦ some (stuck (reject c))
          | some p ↦ elim (drop_entry c p) [
            | none ↦ none
            | some c' ↦ evict fuel c' nbytes (add64 evicted 1)
          ]
        ]
      ]

  -- What follows the loop.
  unfoldable pub finish_put : Evicted → Entry → Option (Cache × Bool)
  unfolding make_room insert_entry
  finish_put (stuck c) e = some (c, false)
  finish_put (fits c evicted) e = elim (make_room c) [
    | none ↦ none
    | some c' ↦ elim (insert_entry c' e evicted) [ none ↦ none | some c'' ↦ some (c'', true) ]
  ]

  -- The result is 1 or 0, with the cache. `now` is what `now_ticks` returns.
  unfoldable pub put : Cache → ℕ → ℕ → ℕ → ℕ → Bool → Bool → Option (Cache × Bool)
  unfolding replace_old evict finish_put
  put c now key value nbytes pin hot = elim (ltb 0 c.max_bytes && ltb c.max_bytes nbytes) [
    | true ↦ some (reject c, false)
    | false ↦ elim (replace_old c key pin hot) [
      | none ↦ none
      | some (c1, pin1, hot1) ↦ elim (evict (suc (length c1.recency)) c1 nbytes 0) [
        | none ↦ none
        | some r ↦ finish_put r (record {
          key = key;
          value = value;
          nbytes = nbytes;
          pinned = pin1;
          hot = hot1;
          freq = 1;
          touched = now;
        })
      ]
    ]
  ]

-- `cache_destroy`: the values that go to `free_value`, in the order of the slots.
unfoldable pub destroy_from : Cache → ℕ → ℕ → List ℕ
destroy_from c zero i = []
destroy_from c (suc left) i =
    elim (c.slots i) [ none ↦ [] | some p ↦ if c.has_free then (c.entries p).value ∷ [] else [] ]
    ++ destroy_from c left (i + 1)

unfoldable pub destroy : Cache → List ℕ
unfolding destroy_from
destroy c = destroy_from c c.nslots 0
