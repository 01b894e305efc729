-- ===== src/Table.antt =====
-- The hash maps of c/src/tokenizer.c, `vocab_map` and `merges_map`: the two sets of functions are
-- the same but for the key, its hash and its comparison, which are parameters here. A slot with
-- `used` unset is `none`; a map that was never set up has no slots.
pub mod Valid
pub mod Grow
pub mod Put
pub mod Map
mod Tests
use qwen3_8_flash_next.Base.{
  ℕ, zero, suc, ◌+◌, ◌*◌, Bool, true, false, Option, none, some, ◌==◌, ltb, leb, if◌then◌else◌,
}
use qwen3_8_flash_next.Probe.{Slots, masked, probe, put_at, rehash_from}

-- `while (p < v) p <<= 1;`, where one round for each unit of `v` is enough.
unfoldable pub pow2_from : ℕ → ℕ → ℕ → Option ℕ
pow2_from zero p v = none
pow2_from (suc fuel) p v = let rest = pow2_from fuel (p * 2) v in if ltb p v then rest else some p

unfoldable pub next_pow2 : ℕ → Option ℕ
unfolding pow2_from
next_pow2 v = pow2_from (suc v) 1 v

pub record Slot {ℓ κ} (K : Type ℓ) (V : Type κ) : Type (ℓ ⊔ κ) where
  pub key : K
  pub value : V

pub record Table {ℓ κ} (K : Type ℓ) (V : Type κ) : Type (ℓ ⊔ κ) where
  pub slots : Slots (Slot K V)
  pub nslots : ℕ
  pub count : ℕ

-- Why a search gives nothing: it reads a slot of a map that was never set up, through a null
-- pointer, or it does not end.
pub data Fault : Type 0 where
  null_read endless : Fault

-- What a search finds.
pub data Lookup {ℓ} (V : Type ℓ) : Type ℓ where
  fault : Fault → Lookup V
  missing : Lookup V
  found : V → Lookup V

module _ {ℓ κ} {K : Type ℓ} {V : Type κ} where
  unfoldable pub empty : ℕ → Table K V
  empty n = record { slots = λ _. none; nslots = n; count = 0 }

  -- `vmap_init` and `mmap_init`
  unfoldable pub init : ℕ → Option (Table K V)
  unfolding next_pow2 empty
  init cap = elim (next_pow2 (if cap == 0 then 1 else cap)) [
    | none ↦ none
    | some n ↦ some (empty n)
  ]

  abbrev pub content : Option (Slot K V) → Lookup V
  content none = missing
  content (some e) = found e.value

  -- The end of `vmap_put` and `mmap_put`: a slot with the key gets the new value, a free slot
  -- the key and the value.
  unfoldable pub write : Table K V → ℕ → K → V → Table K V
  unfolding put_at
  write t i k v = elim (t.slots i) [
    | some e ↦ record t { slots = put_at t.slots i (some (record { key = e.key; value = v })) }
    | none ↦ record t {
      slots = put_at t.slots i (some (record { key = k; value = v }));
      count = t.count + 1;
    }
  ]

  module _ (hash : K → ℕ) (same : K → K → Bool) where
    abbrev pub home : Slot K V → ℕ
    home e = hash e.key

    abbrev pub is_key : K → Slot K V → Bool
    is_key k e = same e.key k

    -- `vmap_grow` and `mmap_grow`
    unfoldable pub grow : Table K V → Option (Table K V)
    unfolding rehash_from
    grow t =
        let ns = if t.nslots == 0 then 1024 else t.nslots * 2 in
        elim (rehash_from home t.nslots 0 t.slots (λ _. none) ns) [
          | none ↦ none
          | some s ↦ some (record t { slots = s; nslots = ns })
        ]

    -- `vmap_get` and `mmap_find`
    unfoldable pub get : Table K V → K → Lookup V
    unfolding probe
    get t k =
        let place = probe (is_key k) t.nslots t.slots t.nslots (masked t.nslots (hash k)) in
        if t.nslots == 0
        then fault null_read
        else elim place [ none ↦ fault endless | some i ↦ content (t.slots i) ]

    unfoldable pub assign : Table K V → K → V → Option (Table K V)
    unfolding probe write
    assign t k v = elim (probe (is_key k) t.nslots t.slots t.nslots (masked t.nslots (hash k))) [
      | none ↦ none
      | some i ↦ some (write t i k v)
    ]

    unfoldable pub make_room : Table K V → Option (Table K V)
    unfolding grow
    make_room t = if leb (t.nslots * 3) (t.count * 4) then grow t else some t

    -- `vmap_put` and `mmap_put`
    unfoldable pub put : Table K V → K → V → Option (Table K V)
    unfolding init make_room assign
    put t k v = elim (if t.nslots == 0 then init 1024 else some t) [
      | none ↦ none
      | some t1 ↦ elim (make_room t1) [ none ↦ none | some t2 ↦ assign t2 k v ]
    ]
