-- ===== src/Cache/Drop.antt =====
-- `drop_entry` takes one entry out of the table, the list and the counters.
use qwen3_8_flash_next.Base.{
  sub64, ℕ, ◌^◌, ◌<◌, ◌≡◌, ap, subst, arith, true, some, ◌∷◌, ◌==◌, ==_iff, ==_refl, if◌then◌else◌,
  length,
}
use qwen3_8_flash_next.Cache.Recency.{
  In, In-unlink, In-unlink_ne, not-In-unlink, unlink-Nodup, length-unlink, total-unlink,
  pinned_in-unlink, pinned_in-le,
}
use qwen3_8_flash_next.Cache.Valid.{key_at, IsValid}
use qwen3_8_flash_next.Cache.{Cache, home, hash_key, unlink, drop_entry}
use qwen3_8_flash_next.Probe.Find.{Stored}
use qwen3_8_flash_next.Probe.Remove.{Removed, remove-Removed}
use qwen3_8_flash_next.Probe.{Slots, remove}

-- The cache after a drop, with the table that `remove_from_table` leaves.
abbrev pub dropped : Cache → ℕ → Slots ℕ → Cache
dropped c p s = record c {
  freed = if c.has_free then (c.entries p).value ∷ c.freed else c.freed;
  bytes = sub64 c.bytes (c.entries p).nbytes;
  pinned_count = if (c.entries p).pinned then sub64 c.pinned_count 1 else c.pinned_count;
  recency = unlink p c.recency;
  slots = s;
  count = sub64 c.count 1;
}

pub record Dropped (c : Cache) (p : ℕ) : Type 0 where
  pub table : Slots ℕ
  pub result : drop_entry c p ≡ some (dropped c p table)
  pub valid : IsValid (dropped c p table)

drop_entry_of_remove :
    (c : Cache) (p : ℕ) (s : Slots ℕ)
    → remove (home c.entries) (λ q. q == p) (hash_key (c.entries p).key) c.slots c.nslots ≡ some s
    → drop_entry c p ≡ some (dropped c p s)
unfolding drop_entry
drop_entry_of_remove c p s r = rw (r, drop_entry)

module _ (c : Cache) (p : ℕ) (v : IsValid c) (i : In p c.recency) where
  abbrev place : ℕ
  place = (v.stored p i).0

  -- A pointer is in one slot.
  one_slot : (q : ℕ) (e : ℕ) → Stored c.slots c.nslots q e → (e == p) ≡ true → q ≡ place
  one_slot q e st is_p =
      v.keys q place e p st (v.stored p i).1 (ap (key_at c.entries) ((==_iff e p).0 is_p))

  removed :
      Removed
        (home c.entries)
        (key_at c.entries)
        (λ q. q == p)
        (hash_key (c.entries p).key)
        c.slots
        c.nslots
        place
  removed =
      remove-Removed (home c.entries) (key_at c.entries) (λ q. q == p) c.slots c.nslots place p
        v.probed one_slot (v.stored p i).1 (==_refl p)

  same_slot : (x q : ℕ) → Stored c.slots c.nslots x q → x ≡ place → q ≡ p
  same_slot x q st e = cc (st.1, ap c.slots e, (v.stored p i).1.1)

  fits : length c.recency < 2 ^ 62
  fits = omega (arith, v.loaded, v.small)

  drop-IsValid : IsValid (dropped c p removed.table)
  drop-IsValid = record {
    probed = removed.probed;
    keys = removed.distinct v.keys;
    listed = λ q r st.
        let (q', st', ne) = removed.source q r st in
        In-unlink_ne p r c.recency (λ e. ne (one_slot q' r st' ((==_iff r p).1 e)))
          (v.listed q' r st');
    stored = λ q iq.
        let (x, st) = v.stored q (In-unlink p q c.recency iq) in
        removed.kept x q st (λ e.
          not-In-unlink p c.recency v.nodup
            (subst (λ t. In t (unlink p c.recency)) (same_slot x q st e) iq));
    nodup = unlink-Nodup p c.recency v.nodup;
    live = λ q iq. v.live q (In-unlink p q c.recency iq);
    words = λ q iq. v.words q (In-unlink p q c.recency iq);
    counted = omega (arith, v.counted, length-unlink p c.recency i, fits);
    filled = omega (arith, v.filled, removed.count, length-unlink p c.recency i);
    summed = omega (arith, v.summed, total-unlink c.entries p c.recency i, v.words p i);
    pins = ground (
      arith,
      v.pins,
      pinned_in-unlink c.entries p c.recency i,
      pinned_in-le c.entries c.recency,
      fits,
    );
    loaded = omega (arith, v.loaded, length-unlink p c.recency i);
    enough = v.enough;
    small = v.small;
    limit = v.limit;
    within = λ pos. omega (arith, v.within pos, total-unlink c.entries p c.recency i);
  }

  -- Drop_entry of a listed entry of a valid cache ends, and the cache without that entry in the
  -- table, the list and the counters is valid.
  pub drop_entry-Dropped : Dropped c p
  drop_entry-Dropped = record {
    table = removed.table;
    result = drop_entry_of_remove c p removed.table removed.result;
    valid = drop-IsValid;
  }
