-- ===== src/Cache/Replace.antt =====
-- The first step of `cache_put`: the entry that the key had is dropped, and hands on its flags.
use qwen3_8_flash_next.Base.{
  ℕ, ◌≡◌, ◌≢◌, refl, ap, subst, Bool, none, some, inl, inr, Option-cases, ◌||◌,
}
use qwen3_8_flash_next.Cache.Drop.{dropped, drop_entry-Dropped}
use qwen3_8_flash_next.Cache.Find.{find_slot-hit, find_slot_sound, find_slot-miss}
use qwen3_8_flash_next.Cache.Recency.{In, In-unlink, In-unlink_ne, not-In-unlink}
use qwen3_8_flash_next.Cache.Valid.{IsValid}
use qwen3_8_flash_next.Cache.{Cache, Entry, unlink, find_slot, drop_entry, replace_old}

-- The entry that `cache_put` makes.
abbrev pub fresh : ℕ → ℕ → ℕ → ℕ → Bool → Bool → Entry
fresh now key value nbytes pin hot = record {
  key = key;
  value = value;
  nbytes = nbytes;
  pinned = pin;
  hot = hot;
  freq = 1;
  touched = now;
}

-- The cache without the entry of the key that is put.
pub record Replaced (c : Cache) (key : ℕ) (pin hot : Bool) : Type 0 where
  pub after : Cache
  pub pin' : Bool
  pub hot' : Bool
  pub result : replace_old c key pin hot ≡ some (after, pin', hot')
  pub valid : IsValid after
  pub gone : (p : ℕ) → In p after.recency → (after.entries p).key ≢ key
  pub fewer : (p : ℕ) → In p after.recency → In p c.recency
  pub others : (p : ℕ) → In p c.recency → (c.entries p).key ≢ key → In p after.recency
  pub entries : after.entries ≡ c.entries
  pub max_bytes : after.max_bytes ≡ c.max_bytes
  pub nslots : after.nslots ≡ c.nslots

replace_none :
    (c : Cache) (key : ℕ) (pin hot : Bool)
    → find_slot c key ≡ none
    → replace_old c key pin hot ≡ some (c, pin, hot)
unfolding replace_old
replace_none c key pin hot h = rw (h, replace_old)

replace_some :
    (c c' : Cache) (key p : ℕ) (pin hot : Bool)
    → find_slot c key ≡ some p
    → drop_entry c p ≡ some c'
    → replace_old c key pin hot ≡ some (c', pin || (c.entries p).pinned, hot || (c.entries p).hot)
unfolding replace_old
replace_some c c' key p pin hot h r = rw (h, replace_old, r)

pub replace_old-Replaced :
    (c : Cache) (key : ℕ) (pin hot : Bool) → IsValid c → Replaced c key pin hot
replace_old-Replaced c key pin hot v = elim (Option-cases (find_slot c key)) [
  | inl h ↦ record {
    after = c;
    pin' = pin;
    hot' = hot;
    result = replace_none c key pin hot h;
    valid = v;
    gone = find_slot-miss c key v h;
    fewer = λ p i. i;
    others = λ p i _. i;
    entries = refl;
    max_bytes = refl;
    nslots = refl;
  }
  | inr (p, h) ↦
      let (i, same) = find_slot_sound c key p v h in
      let dr = drop_entry-Dropped c p v i in
      record {
        after = dropped c p dr.table;
        pin' = pin || (c.entries p).pinned;
        hot' = hot || (c.entries p).hot;
        result = replace_some c (dropped c p dr.table) key p pin hot h dr.result;
        valid = dr.valid;
        gone = λ q iq is_key. only_one p q i same iq is_key;
        fewer = λ q iq. In-unlink p q c.recency iq;
        others = λ q iq ne. In-unlink_ne p q c.recency (λ e. ne (rw e same)) iq;
        entries = refl;
        max_bytes = refl;
        nslots = refl;
      }
]
  where
    only_one :
        (p q : ℕ)
        → In p c.recency
        → (c.entries p).key ≡ key
        → In q (unlink p c.recency)
        → (c.entries q).key ≢ key
    only_one p q i same iq is_key =
        let hit_p = find_slot-hit c p v i in
        let hit_q = find_slot-hit c q v (In-unlink p q c.recency iq) in
        let e : q ≡ p = cc (hit_p, hit_q, ap (find_slot c) same, ap (find_slot c) is_key) in
        not-In-unlink p c.recency v.nodup (subst (λ t. In t (unlink p c.recency)) e iq)
