-- ===== src/Cache/Touch.antt =====
-- `cache_get`, `cache_pin` and `cache_unpin` write to one entry: they keep the invariant, and what
-- can be read stays.
use qwen3_8_flash_next.Base.{
  add64, ℕ, ◌+◌, ◌≡◌, ◌≢◌, refl, sym, ap, ◌∙◌, arith, none, some, List, ◌∷◌, length, inl, inr,
  ℕ_discrete, Option-cases,
}
use qwen3_8_flash_next.Cache.Find.{find_slot_sound}
use qwen3_8_flash_next.Cache.Put.{peek_of_find}
use qwen3_8_flash_next.Cache.Recency.{
  In, Nodup, total, pinned_in, pin_count, In-unlink, In-unlink_ne, not-In-unlink, unlink-Nodup,
  length-unlink, total-unlink, pinned_in-unlink, total-store_same, pinned_in-store, store_self,
  store_ne,
}
use qwen3_8_flash_next.Cache.Valid.{IsValid}
use qwen3_8_flash_next.Cache.{Cache, Entry, home, hash_key, store, unlink, find_slot, peek, get}
use qwen3_8_flash_next.Probe.Find.{IsProbed-home}

-- A write to a listed entry, with the list in another order and the pinned count `k`.
abbrev written : Cache → ℕ → Entry → List ℕ → ℕ → ℕ → Cache
written c p e r h k = record c {
  entries = store c.entries p e;
  recency = r;
  hits = h;
  pinned_count = k;
}

module _ (c : Cache) (p : ℕ) (e : Entry) (v : IsValid c)
    (same_key : e.key ≡ (c.entries p).key) where
  key_kept : (q : ℕ) → (store c.entries p e q).key ≡ (c.entries q).key
  key_kept q = elim (ℕ_discrete p q) [
    | yes w ↦ rw (← w, store_self c.entries p e) same_key
    | no ne ↦ ap (λ t. t.key) (store_ne c.entries p q e ne)
  ]

  size_kept :
      e.nbytes ≡ (c.entries p).nbytes
      → (q : ℕ) → (store c.entries p e q).nbytes ≡ (c.entries q).nbytes
  size_kept h q = elim (ℕ_discrete p q) [
    | yes w ↦ rw (← w, store_self c.entries p e) h
    | no ne ↦ ap (λ t. t.nbytes) (store_ne c.entries p q e ne)
  ]

  written-IsValid :
      (r : List ℕ) (h k : ℕ)
      → e.nbytes ≡ (c.entries p).nbytes
      → ((q : ℕ) → In q r → In q c.recency)
      → ((q : ℕ) → In q c.recency → In q r)
      → Nodup r
      → length r ≡ length c.recency
      → total (store c.entries p e) r ≡ total c.entries c.recency
      → k ≡ pinned_in (store c.entries p e) r
      → IsValid (written c p e r h k)
  written-IsValid r h k size from to nd len sum pins = record {
    probed =
        IsProbed-home (home c.entries) (home (store c.entries p e)) c.slots c.nslots
          (λ q w st. ap hash_key (sym (key_kept w))) v.probed;
    keys = λ q s a b sa sb same. v.keys q s a b sa sb (sym (key_kept a) ∙ same ∙ key_kept b);
    listed = λ q w st. to w (v.listed q w st);
    stored = λ w i. v.stored w (from w i);
    nodup = nd;
    live = λ w i. v.live w (from w i);
    words = λ w i. rw (size_kept size w) (v.words w (from w i));
    counted = v.counted ∙ sym len;
    filled = v.filled ∙ sym len;
    summed = rw sum v.summed;
    pins = pins;
    loaded = rw len v.loaded;
    enough = v.enough;
    small = v.small;
    limit = v.limit;
    within = λ pos. rw sum (v.within pos);
  }

-- `cache_get` on a hit: the entry is the first of the list, and was read.
get_hit :
    (c : Cache) (now key p : ℕ)
    → find_slot c key ≡ some p
    → get c now key ≡ (
      written c p
          (record (c.entries p) { freq = add64 (c.entries p).freq 1; touched = now })
          (p ∷ unlink p c.recency)
          (add64 c.hits 1)
          c.pinned_count,
      some (c.entries p).value,
    )
unfolding get
get_hit c now key p h = rw (h, get)

get_miss :
    (c : Cache) (now key : ℕ)
    → find_slot c key ≡ none
    → get c now key ≡ (record c { misses = add64 c.misses 1 }, none)
unfolding get
get_miss c now key h = rw (h, get)

peek_miss : (c : Cache) (key : ℕ) → find_slot c key ≡ none → peek c key ≡ none
unfolding peek
peek_miss c key h = rw (h, peek)

miss-IsValid : (c : Cache) → IsValid c → IsValid (record c { misses = add64 c.misses 1 })
miss-IsValid c v = record {
  probed = v.probed;
  keys = v.keys;
  listed = v.listed;
  stored = v.stored;
  nodup = v.nodup;
  live = v.live;
  words = v.words;
  counted = v.counted;
  filled = v.filled;
  summed = v.summed;
  pins = v.pins;
  loaded = v.loaded;
  enough = v.enough;
  small = v.small;
  limit = v.limit;
  within = v.within;
}

front-IsValid :
    (c : Cache) (now p : ℕ)
    → IsValid c
    → In p c.recency
    → IsValid (
        written c p
          (record (c.entries p) { freq = add64 (c.entries p).freq 1; touched = now })
          (p ∷ unlink p c.recency)
          (add64 c.hits 1)
          c.pinned_count)
front-IsValid c now p v i =
    written-IsValid c p e v refl (p ∷ unlink p c.recency) (add64 c.hits 1) c.pinned_count refl
      (λ q j. elim j [ inl w ↦ rw w i | inr k ↦ In-unlink p q c.recency k ]) to
      (not-In-unlink p c.recency v.nodup, unlink-Nodup p c.recency v.nodup)
      (omega (arith, length-unlink p c.recency i))
      (rw (total-store_same c.entries p e (p ∷ unlink p c.recency) refl)
        (omega (arith, total-unlink c.entries p c.recency i)))
      (omega (arith, v.pins, pinned_in-unlink c.entries p c.recency i, pins))
  where
    e : Entry
    e = record (c.entries p) { freq = add64 (c.entries p).freq 1; touched = now }

    to : (q : ℕ) → In q c.recency → In q (p ∷ unlink p c.recency)
    to q j = elim (ℕ_discrete q p) [ yes w ↦ inl w | no ne ↦ inr (In-unlink_ne p q c.recency ne j) ]

    pins :
        pinned_in (store c.entries p e) (p ∷ unlink p c.recency) + pin_count (c.entries p).pinned
        ≡ pinned_in c.entries (p ∷ unlink p c.recency) + pin_count (c.entries p).pinned
    pins =
        pinned_in-store c.entries p e (p ∷ unlink p c.recency)
          (not-In-unlink p c.recency v.nodup, unlink-Nodup p c.recency v.nodup) (inl refl)

abbrev pub IsFirst : ℕ → Cache → Type 0
IsFirst key c = (p : ℕ) × (rest : List ℕ) × (c.recency ≡ p ∷ rest) × ((c.entries p).key ≡ key)

-- Cache_get of a valid cache keeps it valid and returns what cache_peek returns; if that is a
-- value, the first entry of the recency list is then the one of the key.
pub get_lem :
    (c : Cache) (now key : ℕ)
    → IsValid c
    → IsValid (get c now key).0
      × ((get c now key).1 ≡ peek c key)
      × (peek c key ≢ none → IsFirst key (get c now key).0)
get_lem c now key v = elim (Option-cases (find_slot c key)) [
  | inl h ↦
      rw (get_miss c now key h, peek_miss c key h) (miss-IsValid c v, refl, λ ne. absurd (ne refl))
  | inr (p, h) ↦
      let (i, same) = find_slot_sound c key p v h in
      rw (get_hit c now key p h, peek_of_find c key p h)
        (front-IsValid c now p v i, refl, λ _. (p, unlink p c.recency, refl, rw store_self same))
]
