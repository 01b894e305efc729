-- ===== src/Cache/Tests.antt =====
-- Runs of the cache on an empty cache of 100 bytes and on one with a single entry.
use qwen3_8_flash_next.Base.{ℕ, ◌≡◌, ◌≢◌, refl, arith, Bool, true, false, none, some, ◌↔◌, inl}
use qwen3_8_flash_next.Cache.Choice.{pick_victim-In, pick_victim-none_iff}
use qwen3_8_flash_next.Cache.Drop.{Dropped, drop_entry-Dropped}
use qwen3_8_flash_next.Cache.Evict.{Outcome, evict-Outcome}
use qwen3_8_flash_next.Cache.Find.{find_slot-hit}
use qwen3_8_flash_next.Cache.Grow.{Grown, grow_table-Grown}
use qwen3_8_flash_next.Cache.Insert.{inserted, Added, Fits, insert_entry-Added}
use qwen3_8_flash_next.Cache.Ops.{Evicted, evict, put}
use qwen3_8_flash_next.Cache.Put.{PutDone, put-PutDone}
use qwen3_8_flash_next.Cache.Recency.{In}
use qwen3_8_flash_next.Cache.Start.{init-IsValid}
use qwen3_8_flash_next.Cache.Touch.{IsFirst, get_lem}
use qwen3_8_flash_next.Cache.Valid.{IsValid}
use qwen3_8_flash_next.Cache.Victim.{Doubles, pick_victim}
use qwen3_8_flash_next.Cache.{Cache, Entry, lru, init, peek, get, find_slot, store}
use qwen3_8_flash_next.Probe.{put_at}

abbrev plain : Doubles
plain = record { of_u64 = λ n. n; div = λ a b. a }

abbrev empty : Cache
empty = init 100 lru 0 true

abbrev item : Entry
item = record {
  key = 5;
  value = 77;
  nbytes = 60;
  pinned = false;
  hot = false;
  freq = 1;
  touched = 3;
}

init-IsValid_example : IsValid empty
init-IsValid_example = init-IsValid 100 0 lru true (omega arith)

item-Fits : Fits empty item
unfolding init
item-Fits = record {
  new_key = λ p i. absurd i;
  word_size = omega arith;
  load = omega arith;
  room = λ _. omega arith;
}

abbrev added : Added empty item 0
added = insert_entry-Added empty item 0 (init-IsValid 100 0 lru true (omega arith)) item-Fits

abbrev one : Cache
one = inserted empty item 0 (put_at empty.slots added.place (some empty.next_ptr))

one-In : In 0 one.recency
unfolding init
one-In = inl refl

find_slot-hit_example : find_slot one (one.entries 0).key ≡ some 0
find_slot-hit_example = find_slot-hit one 0 added.valid one-In

evict-Outcome_example : (r : Evicted) × (evict plain 2 one 70 0 ≡ some r) × Outcome one 70 r
unfolding init
evict-Outcome_example = evict-Outcome plain 2 one 70 0 added.valid (omega arith) (λ _. omega arith)

put-PutDone_example :
    (after : Cache) × (ok : Bool) × (put plain one 9 6 88 70 false true ≡ some (after, ok))
    × PutDone plain one 9 6 88 70 false true after ok
unfolding init
put-PutDone_example =
    put-PutDone plain one 9 6 88 70 false true added.valid (omega arith) (omega arith)

get_lem_example :
    IsValid (get one 9 5).0
    × ((get one 9 5).1 ≡ peek one 5)
    × (peek one 5 ≢ none → IsFirst 5 (get one 9 5).0)
get_lem_example = get_lem one 9 5 added.valid

drop_entry-Dropped_example : Dropped one 0
drop_entry-Dropped_example = drop_entry-Dropped one 0 added.valid one-In

grow_table-Grown_example : Grown one
unfolding init
grow_table-Grown_example = grow_table-Grown one added.valid (omega arith)

pick_victim-none_iff_example :
    (pick_victim plain one ≡ none) ↔ ((p : ℕ) → In p one.recency → (one.entries p).pinned ≡ true)
pick_victim-none_iff_example = pick_victim-none_iff plain one

picked : pick_victim plain one ≡ some 0
unfolding init pick_victim store
picked = refl

pick_victim-In_example : In 0 one.recency × ((one.entries 0).pinned ≡ false)
pick_victim-In_example = pick_victim-In plain one 0 picked
