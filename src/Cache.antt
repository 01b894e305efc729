-- ===== src/Cache.antt =====
-- c/src/cache.c and c/src/cache.h: the expert and embedding-row cache. The mutex makes each call
-- one atomic step. An entry is named by its pointer; `entries` is the heap, and `next_ptr` the
-- pointer that the next `xcalloc` returns. The recency list from `head` to `tail` is the list of
-- its pointers, most recent first.
pub mod Victim
pub mod Ops
pub mod Recency
pub mod Valid
pub mod Drop
pub mod Grow
pub mod Insert
pub mod Choice
pub mod Find
pub mod Evict
pub mod Replace
pub mod Put
pub mod Touch
pub mod Start
mod Tests
use qwen3_8_flash_next.Base.{
  ℕ, ◌+◌, ◌-◌, ◌*◌, ◌/◌, ◌%◌, ◌^◌, bit_xor, Bool, true, false, ◌||◌, ◌&&◌, not, Option, none, some,
  List, [], ◌∷◌, ◌++◌, ◌==◌, ltb, if◌then◌else◌, word, length, add64, sub64, mul64,
}
use qwen3_8_flash_next.Probe.{Slots, put_at, find, remove, reinsert, rehash_from}

-- The finalizer of splitmix64, cut to `uint32_t`.
unfoldable pub hash_key : ℕ → ℕ
hash_key key =
    let z = add64 key 0x9E3779B97F4A7C15 in
    let z1 = mul64 (bit_xor z (z / 2 ^ 30)) 0xBF58476D1CE4E5B9 in
    let z2 = mul64 (bit_xor z1 (z1 / 2 ^ 27)) 0x94D049BB133111EB in
    bit_xor z2 (z2 / 2 ^ 31) % 2 ^ 32

-- The partition is the high half of the key.
unfoldable pub partition_of : ℕ → ℕ
partition_of key = key / 2 ^ 32 % 2 ^ 32

pub record Entry : Type 0 where
  pub key : ℕ
  pub value : ℕ
  pub nbytes : ℕ
  pub pinned : Bool
  pub hot : Bool
  pub freq : ℕ
  pub touched : ℕ

pub data Policy : Type 0 where
  lru lfu adaptive : Policy

-- `has_free` tells whether `free_value` is set, and `freed` holds what it was called with, last
-- call first. `partitions` is 0 where the source's is not positive.
pub record Cache : Type 0 where
  pub max_bytes : ℕ
  pub policy : Policy
  pub partitions : ℕ
  pub has_free : Bool
  pub freed : List ℕ
  pub entries : ℕ → Entry
  pub next_ptr : ℕ
  pub slots : Slots ℕ
  pub nslots : ℕ
  pub count : ℕ
  pub recency : List ℕ
  pub bytes : ℕ
  pub peak_bytes : ℕ
  pub hits : ℕ
  pub misses : ℕ
  pub evictions : ℕ
  pub rejected : ℕ
  pub pinned_count : ℕ

abbrev pub blank : Entry
blank = record {
  key = 0;
  value = 0;
  nbytes = 0;
  pinned = false;
  hot = false;
  freq = 0;
  touched = 0;
}

-- The caller sets `free_value` right after `cache_init`, which leaves it null.
unfoldable pub init : ℕ → Policy → ℕ → Bool → Cache
init max_bytes policy partitions has_free = record {
  max_bytes = max_bytes;
  policy = policy;
  partitions = partitions;
  has_free = has_free;
  freed = [];
  entries = λ _. blank;
  next_ptr = 0;
  slots = λ _. none;
  nslots = 1024;
  count = 0;
  recency = [];
  bytes = 0;
  peak_bytes = 0;
  hits = 0;
  misses = 0;
  evictions = 0;
  rejected = 0;
  pinned_count = 0;
}

-- The hash of the key of the entry at a pointer, and the test of `find_slot`.
abbrev pub home : (ℕ → Entry) → ℕ → ℕ
home entries p = hash_key (entries p).key

abbrev pub has_key : (ℕ → Entry) → ℕ → ℕ → Bool
has_key entries key p = (entries p).key == key

unfoldable pub find_slot : Cache → ℕ → Option ℕ
unfolding find hash_key
find_slot c key = find (has_key c.entries key) (hash_key key) c.slots c.nslots

-- `unlink_entry` on the list of pointers.
unfoldable pub unlink : ℕ → List ℕ → List ℕ
unlink p [] = []
unlink p (x ∷ xs) = if x == p then xs else x ∷ unlink p xs

unfoldable pub grow_table : Cache → Option Cache
unfolding rehash_from hash_key
grow_table c =
    let ncap = mul64 c.nslots 2 in
    elim (rehash_from (home c.entries) c.nslots 0 c.slots (λ _. none) ncap) [
      | none ↦ none
      | some s ↦ some (record c { slots = s; nslots = ncap })
    ]

-- `*e = v`
unfoldable pub store : (ℕ → Entry) → ℕ → Entry → ℕ → Entry
store entries p v q = if p == q then v else entries q

unfoldable pub peek : Cache → ℕ → Option ℕ
unfolding find_slot
peek c key = elim (find_slot c key) [ none ↦ none | some p ↦ some (c.entries p).value ]

-- The result is the value, or null.
unfoldable pub get : Cache → ℕ → ℕ → Cache × Option ℕ
unfolding find_slot unlink store
get c now key = elim (find_slot c key) [
  | none ↦ (record c { misses = add64 c.misses 1 }, none)
  | some p ↦
      let e = c.entries p in
      (
        record c {
          entries = store c.entries p (record e { freq = add64 e.freq 1; touched = now });
          recency = p ∷ unlink p c.recency;
          hits = add64 c.hits 1;
        },
        some e.value,
      )
]

unfoldable pub drop_entry : Cache → ℕ → Option Cache
unfolding remove hash_key unlink
drop_entry c p =
    let e = c.entries p in
    elim (remove (home c.entries) (λ q. q == p) (hash_key e.key) c.slots c.nslots) [
      | none ↦ none
      | some s ↦ some (record c {
        freed = if c.has_free then e.value ∷ c.freed else c.freed;
        bytes = sub64 c.bytes e.nbytes;
        pinned_count = if e.pinned then sub64 c.pinned_count 1 else c.pinned_count;
        recency = unlink p c.recency;
        slots = s;
        count = sub64 c.count 1;
      })
    ]

-- The flags that a replaced entry hands on, and the cache without it.
unfoldable pub replace_old : Cache → ℕ → Bool → Bool → Option (Cache × Bool × Bool)
unfolding find_slot drop_entry
replace_old c key pin hot = elim (find_slot c key) [
  | none ↦ some (c, pin, hot)
  | some p ↦ elim (drop_entry c p) [
    | none ↦ none
    | some c' ↦ some (c', pin || (c.entries p).pinned, hot || (c.entries p).hot)
  ]
]

-- The tail of `cache_put`: grow the table if it is full to three quarters, then add the entry.
unfoldable pub make_room : Cache → Option Cache
unfolding grow_table
make_room c = if ltb (mul64 c.nslots 3 / 4) (add64 c.count 1) then grow_table c else some c

unfoldable pub insert_entry : Cache → Entry → ℕ → Option Cache
unfolding reinsert hash_key store
insert_entry c e evicted =
    let p = c.next_ptr in
    let entries = store c.entries p e in
    let bytes = add64 c.bytes e.nbytes in
    elim (reinsert (home entries) c.slots c.nslots p) [
      | none ↦ none
      | some s ↦ some (record c {
        entries = entries;
        next_ptr = p + 1;
        slots = s;
        recency = p ∷ c.recency;
        bytes = bytes;
        peak_bytes = if ltb c.peak_bytes bytes then bytes else c.peak_bytes;
        count = add64 c.count 1;
        pinned_count = if e.pinned then add64 c.pinned_count 1 else c.pinned_count;
        evictions = add64 c.evictions evicted;
      })
    ]

unfoldable pub pin : Cache → ℕ → Cache × Bool
unfolding find_slot store
pin c key = elim (find_slot c key) [
  | none ↦ (c, false)
  | some p ↦
      let e = c.entries p in
      if not e.pinned
      then (
        record c {
          entries = store c.entries p (record e { pinned = true });
          pinned_count = add64 c.pinned_count 1;
        },
        true,
      )
      else (c, false)
]

unfoldable pub unpin : Cache → ℕ → Cache × Bool
unfolding find_slot store
unpin c key = elim (find_slot c key) [
  | none ↦ (c, false)
  | some p ↦
      let e = c.entries p in
      if e.pinned
      then (
        record c {
          entries = store c.entries p (record e { pinned = false });
          pinned_count = sub64 c.pinned_count 1;
        },
        true,
      )
      else (c, false)
]

unfoldable pub mark_hot : Cache → ℕ → Bool → Cache × Bool
unfolding find_slot store
mark_hot c key hot = elim (find_slot c key) [
  | none ↦ (c, false)
  | some p ↦ (record c { entries = store c.entries p (record (c.entries p) { hot = hot }) }, true)
]

-- The entries that are marked hot, along the recency list.
unfoldable pub count_hot : (ℕ → Entry) → List ℕ → ℕ
count_hot entries [] = 0
count_hot entries (p ∷ ps) = (if (entries p).hot then 1 else 0) + count_hot entries ps

pub record Stats : Type 0 where
  pub hits : ℕ
  pub misses : ℕ
  pub evictions : ℕ
  pub rejected : ℕ
  pub pinned : ℕ
  pub bytes : ℕ
  pub peak_bytes : ℕ
  pub size : ℕ
  pub hot : ℕ

unfoldable pub snapshot : Cache → Stats
unfolding count_hot
snapshot c = record {
  hits = c.hits;
  misses = c.misses;
  evictions = c.evictions;
  rejected = c.rejected;
  pinned = c.pinned_count;
  bytes = c.bytes;
  peak_bytes = c.peak_bytes;
  size = c.count;
  hot = count_hot c.entries c.recency;
}
