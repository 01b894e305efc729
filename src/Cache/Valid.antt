-- ===== src/Cache/Valid.antt =====
-- The invariant of `cache_t`: the table, the recency list, the heap and the counters agree.
use qwen3_8_flash_next.Base.{ℕ, ◌*◌, ◌%◌, ◌^◌, ◌≤◌, ◌<◌, ◌≡◌, length, word}
use qwen3_8_flash_next.Cache.Recency.{In, Nodup, total, pinned_in}
use qwen3_8_flash_next.Cache.{Cache, Entry, home}
use qwen3_8_flash_next.Probe.Find.{Stored, IsProbed, used}
use qwen3_8_flash_next.Probe.Rehash.{IsDistinct}

-- The key of the entry at a pointer.
abbrev pub key_at : (ℕ → Entry) → ℕ → ℕ
key_at entries p = (entries p).key

pub record IsValid (c : Cache) : Type 0 where
  -- the table reaches every entry from its home, and holds no key twice
  pub probed : IsProbed (home c.entries) c.slots c.nslots
  pub keys : IsDistinct (key_at c.entries) c.slots c.nslots
  -- the table and the recency list hold the same pointers
  pub listed : (q p : ℕ) → Stored c.slots c.nslots q p → In p c.recency
  pub stored : (p : ℕ) → In p c.recency → (q : ℕ) × Stored c.slots c.nslots q p
  pub nodup : Nodup c.recency
  pub live : (p : ℕ) → In p c.recency → p < c.next_ptr
  pub words : (p : ℕ) → In p c.recency → (c.entries p).nbytes < word
  -- the counters count
  pub counted : c.count ≡ length c.recency
  pub filled : used c.slots c.nslots ≡ length c.recency
  pub summed : c.bytes ≡ total c.entries c.recency % word
  pub pins : c.pinned_count ≡ pinned_in c.entries c.recency
  -- the load is at most three quarters, and the sizes are far from wrapping
  pub loaded : 4 * length c.recency ≤ 3 * c.nslots
  pub enough : 4 ≤ c.nslots
  pub small : c.nslots ≤ 2 ^ 61
  pub limit : c.max_bytes < 2 ^ 63
  pub within : 0 < c.max_bytes → total c.entries c.recency ≤ c.max_bytes
