-- ===== src/Cache/Insert.antt =====
-- The end of `cache_put`: the new entry goes to the table, the front of the list and the counters.
use qwen3_8_flash_next.Base.{
  add64, ℕ, ◌+◌, ◌*◌, ◌^◌, ◌≤◌, ◌<◌, ◌≡◌, ◌≢◌, sym, ap, subst, ◌∙◌, arith, some, ◌∷◌, if◌then◌else◌,
  length, word, ltb, inl, inr,
}
use qwen3_8_flash_next.Cache.Recency.{
  In, total, pinned_in, pin_count, pinned_in-le, total-store_other, pinned_in-store_other,
  store_self, store_ne,
}
use qwen3_8_flash_next.Cache.Valid.{key_at, IsValid}
use qwen3_8_flash_next.Cache.{Cache, Entry, home, hash_key, store, insert_entry}
use qwen3_8_flash_next.Probe.Find.{Stored, IsProbed-home}
use qwen3_8_flash_next.Probe.Insert.{
  Inserted, reinsert-Inserted, Stored-put, put-Stored, put_at_self,
}
use qwen3_8_flash_next.Probe.Rehash.{IsDistinct, put-IsDistinct}
use qwen3_8_flash_next.Probe.{Slots, put_at, reinsert}

abbrev pub inserted : Cache → Entry → ℕ → Slots ℕ → Cache
inserted c e evicted s = record c {
  entries = store c.entries c.next_ptr e;
  next_ptr = c.next_ptr + 1;
  slots = s;
  recency = c.next_ptr ∷ c.recency;
  bytes = add64 c.bytes e.nbytes;
  peak_bytes =
      if ltb c.peak_bytes (add64 c.bytes e.nbytes) then add64 c.bytes e.nbytes else c.peak_bytes;
  count = add64 c.count 1;
  pinned_count = if e.pinned then add64 c.pinned_count 1 else c.pinned_count;
  evictions = add64 c.evictions evicted;
}

pub record Added (c : Cache) (e : Entry) (evicted : ℕ) : Type 0 where
  pub place : ℕ
  pub place_lt : place < c.nslots
  pub result :
      insert_entry c e evicted
      ≡ some (inserted c e evicted (put_at c.slots place (some c.next_ptr)))
  pub valid : IsValid (inserted c e evicted (put_at c.slots place (some c.next_ptr)))

insert_entry_of_reinsert :
    (c : Cache) (e : Entry) (evicted : ℕ) (s : Slots ℕ)
    → reinsert (home (store c.entries c.next_ptr e)) c.slots c.nslots c.next_ptr ≡ some s
    → insert_entry c e evicted ≡ some (inserted c e evicted s)
unfolding insert_entry
insert_entry_of_reinsert c e evicted s r = rw (r, insert_entry)

-- What the entry must fit into.
pub record Fits (c : Cache) (e : Entry) : Type 0 where
  pub new_key : (p : ℕ) → In p c.recency → (c.entries p).key ≢ e.key
  pub word_size : e.nbytes < word
  pub load : 4 * (length c.recency + 1) ≤ 3 * c.nslots
  pub room : 0 < c.max_bytes → total c.entries c.recency + e.nbytes ≤ c.max_bytes

module _ (c : Cache) (e : Entry) (evicted : ℕ) (v : IsValid c) (f : Fits c e) where
  abbrev p : ℕ
  p = c.next_ptr

  abbrev entries : ℕ → Entry
  entries = store c.entries p e

  new_ptr : ¬ In p c.recency
  new_ptr i = let lt = v.live p i in absurd (omega arith)

  old_ptr : (q : ℕ) → In q c.recency → p ≢ q
  old_ptr q i same = new_ptr (subst (λ t. In t c.recency) (sym same) i)

  old_entry : (q : ℕ) → In q c.recency → entries q ≡ c.entries q
  old_entry q i = store_ne c.entries p q e (old_ptr q i)

  ins : Inserted (home entries) c.slots c.nslots p
  ins =
      reinsert-Inserted (home entries) c.slots c.nslots p
        (IsProbed-home (home c.entries) (home entries) c.slots c.nslots
          (λ q r st. ap (λ w. hash_key w.key) (sym (old_entry r (v.listed q r st)))) v.probed)
        (omega (arith, v.filled, f.load, v.enough))

  abbrev slots : Slots ℕ
  slots = put_at c.slots ins.place (some p)

  old_keys : IsDistinct (key_at entries) c.slots c.nslots
  old_keys q r a b sa sb same = v.keys q r a b sa sb (
      sym (ap (λ w. w.key) (old_entry a (v.listed q a sa)))
      ∙ same
      ∙ ap (λ w. w.key) (old_entry b (v.listed r b sb)))

  new_keys : IsDistinct (key_at entries) slots c.nslots
  new_keys =
      put-IsDistinct (home entries) (key_at entries) c.slots c.nslots ins.place p old_keys
        (λ q r st same. f.new_key r (v.listed q r st) (
          sym (ap (λ w. w.key) (old_entry r (v.listed q r st)))
          ∙ same
          ∙ ap (λ w. w.key) (store_self c.entries p e)))

  listed : (q r : ℕ) → Stored slots c.nslots q r → In r (p ∷ c.recency)
  listed q r st = elim (Stored-put c.slots c.nslots ins.place q p r st) [
    | inl (_, is_p) ↦ inl (sym is_p)
    | inr before ↦ inr (v.listed q r before)
  ]

  stored : (r : ℕ) → In r (p ∷ c.recency) → (q : ℕ) × Stored slots c.nslots q r
  stored r (inl is_p) =
      (ins.place, (ins.place_lt, put_at_self c.slots ins.place (some p) ∙ ap some (sym is_p)))
  stored r (inr i) =
      let (q, st) = v.stored r i in (q, put-Stored c.slots c.nslots ins.place q p r ins.was_free st)

  live : (r : ℕ) → In r (p ∷ c.recency) → r < p + 1
  live r (inl is_p) = omega arith
  live r (inr i) = let lt = v.live r i in omega arith

  words : (r : ℕ) → In r (p ∷ c.recency) → (entries r).nbytes < word
  words r (inl is_p) = rw (is_p, store_self c.entries p e) f.word_size
  words r (inr i) = rw (old_entry r i) (v.words r i)

  new_total : total entries (p ∷ c.recency) ≡ e.nbytes + total c.entries c.recency
  new_total = rw (store_self c.entries p e, total-store_other c.entries p e c.recency new_ptr)

  new_pins : pinned_in entries (p ∷ c.recency) ≡ pin_count e.pinned + pinned_in c.entries c.recency
  new_pins = rw (store_self c.entries p e, pinned_in-store_other c.entries p e c.recency new_ptr)

  fits : length c.recency < 2 ^ 62
  fits = omega (arith, v.loaded, v.small)

  pins :
      (if e.pinned then add64 c.pinned_count 1 else c.pinned_count)
      ≡ pinned_in entries (p ∷ c.recency)
  pins = rw new_pins (ground (arith, v.pins, pinned_in-le c.entries c.recency, fits))

  -- The new entry is stored, first in the list, and the invariant holds.
  pub insert_entry-Added : Added c e evicted
  insert_entry-Added = record {
    place = ins.place;
    place_lt = ins.place_lt;
    result = insert_entry_of_reinsert c e evicted slots ins.result;
    valid = record {
      probed = ins.probed;
      keys = new_keys;
      listed = listed;
      stored = stored;
      nodup = (new_ptr, v.nodup);
      live = live;
      words = words;
      counted = omega (arith, v.counted, fits);
      filled = omega (arith, ins.one_more, v.filled);
      summed = rw new_total (omega (arith, v.summed, f.word_size));
      pins = pins;
      loaded = omega (arith, f.load);
      enough = v.enough;
      small = v.small;
      limit = v.limit;
      within = λ pos. rw new_total (omega (arith, f.room pos));
    };
  }
