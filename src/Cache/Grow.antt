-- ===== src/Cache/Grow.antt =====
-- `grow_table`: the table of the cache at twice its size holds the same entries.
use qwen3_8_flash_next.Base.{mul64, subst, sym, ℕ, ◌*◌, ◌^◌, ◌≤◌, ◌≡◌, arith, none, some, inl, inr}
use qwen3_8_flash_next.Cache.Valid.{key_at, IsValid}
use qwen3_8_flash_next.Cache.{Cache, home, grow_table}
use qwen3_8_flash_next.Probe.Empty.{used-empty, double-IsPow}
use qwen3_8_flash_next.Probe.Find.{IsProbed}
use qwen3_8_flash_next.Probe.Rehash.{Rehashed, rehash-Rehashed}
use qwen3_8_flash_next.Probe.Walk.{IsPow}
use qwen3_8_flash_next.Probe.{Slots, rehash_from}

abbrev pub grown : Cache → Slots ℕ → Cache
grown c s = record c { slots = s; nslots = mul64 c.nslots 2 }

pub record Grown (c : Cache) : Type 0 where
  pub table : Slots ℕ
  pub result : grow_table c ≡ some (grown c table)
  pub valid : IsValid (grown c table)

grow_table_of_rehash :
    (c : Cache) (s : Slots ℕ)
    → rehash_from (home c.entries) c.nslots 0 c.slots (λ _. none) (mul64 c.nslots 2) ≡ some s
    → grow_table c ≡ some (grown c s)
unfolding grow_table
grow_table_of_rehash c s r = rw (r, grow_table)

module _ (c : Cache) (v : IsValid c) (room : c.nslots ≤ 2 ^ 60) where
  -- The size of the new table does not wrap.
  doubled : mul64 c.nslots 2 ≡ c.nslots * 2
  doubled = omega arith

  rehashed :
      Rehashed (home c.entries) (key_at c.entries) c.slots 0 c.nslots (λ _. none) (mul64 c.nslots 2)
  rehashed =
      rehash-Rehashed (home c.entries) (key_at c.entries) c.nslots 0 c.slots (λ _. none) c.nslots
        (mul64 c.nslots 2) (omega arith) empty (λ p q e e' st. absurd (cc (st.1))) v.keys
        (λ p q e e' st. absurd (cc (st.1)))
        (omega (arith, used-empty ℕ 0 (mul64 c.nslots 2), v.filled, v.loaded, v.enough))
    where
      empty : IsProbed (home c.entries) (λ _. none) (mul64 c.nslots 2)
      empty = record {
        size = subst IsPow (sym doubled) (double-IsPow v.probed.size room);
        room = rw (used-empty ℕ 0 (mul64 c.nslots 2)) (omega (arith, v.enough));
        reach = λ p e lt at. absurd (cc at);
      }

  -- Grow_table of a valid cache of at most 2 ^ 60 slots ends, and the cache with the table of
  -- twice the size and all else as before is valid.
  pub grow_table-Grown : Grown c
  grow_table-Grown = record {
    table = rehashed.table;
    result = grow_table_of_rehash c rehashed.table rehashed.result;
    valid = record {
      probed = rehashed.probed;
      keys = rehashed.distinct;
      listed = λ q p st. elim (rehashed.source q p st) [
        | inl before ↦ absurd (cc (before.1))
        | inr (r, _, lt, at) ↦ v.listed r p (omega arith, at)
      ];
      stored = λ p i.
          let (x, st) = v.stored p i in
          rehashed.moved x p (omega arith) (let lt = st.0 in omega arith) st.1;
      nodup = v.nodup;
      live = v.live;
      words = v.words;
      counted = v.counted;
      filled = omega (arith, rehashed.count, used-empty ℕ 0 (mul64 c.nslots 2), v.filled);
      summed = v.summed;
      pins = v.pins;
      loaded = omega (arith, v.loaded, doubled);
      enough = omega (arith, v.enough, doubled);
      small = omega (arith, doubled, room);
      limit = v.limit;
      within = v.within;
    };
  }
