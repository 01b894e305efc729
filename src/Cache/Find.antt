-- ===== src/Cache/Find.antt =====
-- `find_slot` and `make_room` of a valid cache.
use qwen3_8_flash_next.Base.{
  add64, mul64, ℕ, ◌+◌, ◌*◌, ◌/◌, ◌^◌, ◌≤◌, ◌≡◌, ◌≢◌, refl, ap, arith, true, false, none, some,
  ==_iff, ==_refl, length, ltb, inl, inr, Bool-cases,
}
use qwen3_8_flash_next.Cache.Grow.{grown, grow_table-Grown}
use qwen3_8_flash_next.Cache.Recency.{In}
use qwen3_8_flash_next.Cache.Valid.{IsValid}
use qwen3_8_flash_next.Cache.{Cache, home, has_key, hash_key, find_slot, grow_table, make_room}
use qwen3_8_flash_next.Probe.Find.{find_complete, find_sound}

-- Find_slot of the key of a listed entry of a valid cache returns that entry.
pub find_slot-hit :
    (c : Cache) (p : ℕ) → IsValid c → In p c.recency → find_slot c (c.entries p).key ≡ some p
unfolding find_slot
find_slot-hit c p v i =
    let (q, st) = v.stored p i in
    find_complete (home c.entries) (has_key c.entries (c.entries p).key) c.slots c.nslots q p
      v.probed
      (λ r e st' same. v.keys r q e p st' st ((==_iff (c.entries e).key (c.entries p).key).0 same))
      st (==_refl (c.entries p).key)

pub find_slot_sound :
    (c : Cache) (key p : ℕ)
    → IsValid c
    → find_slot c key ≡ some p
    → In p c.recency × ((c.entries p).key ≡ key)
unfolding find_slot
find_slot_sound c key p v h =
    let (q, st, same) =
      find_sound (has_key c.entries key) (hash_key key) c.slots c.nslots p v.probed.size
        v.probed.room h in
    (v.listed q p st, (==_iff (c.entries p).key key).0 same)

pub find_slot-miss :
    (c : Cache) (key : ℕ)
    → IsValid c
    → find_slot c key ≡ none
    → (p : ℕ) → In p c.recency
    → (c.entries p).key ≢ key
find_slot-miss c key v h p i same =
    let hit = find_slot-hit c p v i in cc (ap (find_slot c) same, hit, h)

-- `make_room` leaves place for one more entry.
pub record Spacious (c : Cache) : Type 0 where
  pub after : Cache
  pub result : make_room c ≡ some after
  pub valid : IsValid after
  pub load : 4 * (length c.recency + 1) ≤ 3 * after.nslots
  pub entries : after.entries ≡ c.entries
  pub recency : after.recency ≡ c.recency
  pub next_ptr : after.next_ptr ≡ c.next_ptr
  pub max_bytes : after.max_bytes ≡ c.max_bytes

make_room_full :
    (c c' : Cache)
    → ltb (mul64 c.nslots 3 / 4) (add64 c.count 1) ≡ true
    → grow_table c ≡ some c'
    → make_room c ≡ some c'
unfolding make_room
make_room_full c c' full r = rw full r

make_room_free :
    (c : Cache) → ltb (mul64 c.nslots 3 / 4) (add64 c.count 1) ≡ false → make_room c ≡ some c
unfolding make_room
make_room_free c free = rw free

pub make_room-Spacious : (c : Cache) → IsValid c → c.nslots ≤ 2 ^ 60 → Spacious c
make_room-Spacious c v room = elim (Bool-cases (ltb (mul64 c.nslots 3 / 4) (add64 c.count 1))) [
  | inl full ↦
      let g = grow_table-Grown c v room in
      record {
        after = grown c g.table;
        result = make_room_full c _ full g.result;
        valid = g.valid;
        load = omega (arith, v.loaded, v.enough);
        entries = refl;
        recency = refl;
        next_ptr = refl;
        max_bytes = refl;
      }
  | inr free ↦ record {
    after = c;
    result = make_room_free c free;
    valid = v;
    load = ground (arith, v.loaded, v.counted, v.small);
    entries = refl;
    recency = refl;
    next_ptr = refl;
    max_bytes = refl;
  }
]
