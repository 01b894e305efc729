-- ===== src/Cache/Put.antt =====
-- `cache_put` as a whole: it ends, it keeps the invariant and the byte budget, and what it stored
-- is found.
use qwen3_8_flash_next.Base.{
  ℕ, suc, ◌+◌, ◌^◌, ◌≤◌, ◌<◌, ◌≡◌, ◌≢◌, refl, sym, ap, subst, ◌∙◌, arith, Bool, true, false, some,
  length, word, ltb, inl, inr, ◌⊎◌, Bool-cases, ◌&&◌,
}
use qwen3_8_flash_next.Cache.Insert.{inserted, Added, Fits, insert_entry-Added}
use qwen3_8_flash_next.Cache.Evict.{Shrunk, Outcome, evict-Outcome}
use qwen3_8_flash_next.Cache.Find.{find_slot-hit, Spacious, make_room-Spacious}
use qwen3_8_flash_next.Cache.Ops.{Evicted, fits, stuck, reject, evict, finish_put, put}
use qwen3_8_flash_next.Cache.Recency.{In, total, store_self, store_ne}
use qwen3_8_flash_next.Cache.Replace.{fresh, Replaced, replace_old-Replaced}
use qwen3_8_flash_next.Cache.Valid.{IsValid}
use qwen3_8_flash_next.Cache.Victim.{Doubles}
use qwen3_8_flash_next.Cache.{Cache, Entry, find_slot, make_room, insert_entry, peek}
use qwen3_8_flash_next.Probe.{put_at}

pub reject-IsValid : (c : Cache) → IsValid c → IsValid (reject c)
reject-IsValid c v = record {
  probed = v.probed;
  keys = v.keys;
  listed = v.listed;
  stored = v.stored;
  nodup = v.nodup;
  live = v.live;
  words = v.words;
  counted = v.counted;
  filled = v.filled;
  summed = v.summed;
  pins = v.pins;
  loaded = v.loaded;
  enough = v.enough;
  small = v.small;
  limit = v.limit;
  within = v.within;
}

pub peek_of_find :
    (c : Cache) (key p : ℕ) → find_slot c key ≡ some p → peek c key ≡ some (c.entries p).value
unfolding peek
peek_of_find c key p h = rw (h, peek)

finish_fits :
    (d : Doubles) (c c' c'' : Cache) (e : Entry) (n : ℕ)
    → make_room c ≡ some c'
    → insert_entry c' e n ≡ some c''
    → finish_put d (fits c n) e ≡ some (c'', true)
unfolding finish_put
finish_fits d c c' c'' e n h r = rw (h, finish_put, r)

finish_stuck : (d : Doubles) (c : Cache) (e : Entry) → finish_put d (stuck c) e ≡ some (c, false)
unfolding finish_put
finish_stuck d c e = refl

module _ (d : Doubles) (c : Cache) (now key value nbytes : ℕ) (pin hot : Bool) where
  -- What a call has done when it returns `ok`.
  pub record PutDone (after : Cache) (ok : Bool) : Type 0 where
    pub valid : IsValid after
    pub stored : ok ≡ true → peek after key ≡ some value
    pub others :
        (p : ℕ)
        → In p c.recency
        → (c.entries p).key ≢ key
        → (c.entries p).pinned ≡ true
        → In p after.recency × (after.entries p ≡ c.entries p)
    pub refused :
        ok ≡ false
        → (c.max_bytes < nbytes) ⊎ ((p : ℕ) → In p after.recency → (after.entries p).pinned ≡ true)

  too_big :
      (ltb 0 c.max_bytes && ltb c.max_bytes nbytes) ≡ true
      → put d c now key value nbytes pin hot ≡ some (reject c, false)
  unfolding put
  too_big h = rw (h, put)

  put_steps :
      (r : Replaced c key pin hot) (out : Evicted)
      → (ltb 0 c.max_bytes && ltb c.max_bytes nbytes) ≡ false
      → evict d (suc (length r.after.recency)) r.after nbytes 0 ≡ some out
      → put d c now key value nbytes pin hot
        ≡ finish_put d out (fresh now key value nbytes r.pin' r.hot')
  unfolding put
  put_steps r out h e = rw (h, put, r.result, e)

  module _ (v : IsValid c) (r : Replaced c key pin hot) (small : nbytes < word) where
    abbrev e : Entry
    e = fresh now key value nbytes r.pin' r.hot'

    pinned_others :
        (c' : Cache) (h : Shrunk r.after c') (p : ℕ)
        → In p c.recency
        → (c.entries p).key ≢ key
        → (c.entries p).pinned ≡ true
        → In p c'.recency × (c'.entries p ≡ c.entries p)
    pinned_others c' h p i ne pinned = (
      h.pinned_stay p (r.others p i ne) (ap (λ w. (w p).pinned) r.entries ∙ pinned),
      ap (λ w. w p) (h.entries ∙ r.entries),
    )

    stuck_done :
        (c' : Cache)
        → Shrunk r.after c'
        → ((p : ℕ) → In p c'.recency → (c'.entries p).pinned ≡ true)
        → PutDone (reject c') false
    stuck_done c' h all = record {
      valid = reject-IsValid c' h.valid;
      stored = λ w. absurd (cc);
      others = pinned_others c' h;
      refused = λ _. inr all;
    }

    module _ (c' : Cache) (n : ℕ) (h : Shrunk r.after c') (rm : Spacious c')
        (space : 0 < r.after.max_bytes
          → total c'.entries c'.recency + nbytes ≤ r.after.max_bytes) where
      entry-Fits : Fits rm.after e
      entry-Fits = record {
        new_key = λ p i.
            r_gone p (h.fewer p (subst (In p) rm.recency i))
              (ap (λ w. (w p).key) (rm.entries ∙ h.entries));
        word_size = small;
        load = rw rm.recency rm.load;
        room = λ pos.
            rw (rm.entries, rm.recency, rm.max_bytes, h.max_bytes)
              (space (subst (λ m. 0 < m) (rm.max_bytes ∙ h.max_bytes) pos));
      }
        where
          r_gone :
              (p : ℕ)
              → In p r.after.recency
              → (rm.after.entries p).key ≡ (r.after.entries p).key
              → (rm.after.entries p).key ≢ key
          r_gone p i same is_key = r.gone p i (sym same ∙ is_key)

      added : Added rm.after e n
      added = insert_entry-Added rm.after e n rm.valid entry-Fits

      abbrev done : Cache
      done = inserted rm.after e n (put_at rm.after.slots added.place (some rm.after.next_ptr))

      new_stored : find_slot done key ≡ some rm.after.next_ptr
      new_stored =
          let same : (done.entries rm.after.next_ptr).key ≡ key =
            ap (λ w. w.key) (store_self rm.after.entries rm.after.next_ptr e) in
          ap (find_slot done) (sym same)
          ∙ find_slot-hit done rm.after.next_ptr added.valid (inl refl)

      kept :
          (p : ℕ)
          → In p c.recency
          → (c.entries p).key ≢ key
          → (c.entries p).pinned ≡ true
          → In p done.recency × (done.entries p ≡ c.entries p)
      kept p i ne pinned =
          let (i', same) = pinned_others c' h p i ne pinned in
          let i'' : In p rm.after.recency = subst (In p) (sym rm.recency) i' in
          let lt = rm.valid.live p i'' in
          (
            inr i'',
            store_ne rm.after.entries rm.after.next_ptr p e (omega arith)
                ∙ ap (λ w. w p) rm.entries
                ∙ same,
          )

      fits_done : PutDone done true
      fits_done = record {
        valid = added.valid;
        stored = λ _.
            peek_of_find done key rm.after.next_ptr new_stored
            ∙ ap (λ w. some w.value) (store_self rm.after.entries rm.after.next_ptr e);
        others = kept;
        refused = λ w. absurd (cc);
      }

  refuse_big :
      IsValid c → (ltb 0 c.max_bytes && ltb c.max_bytes nbytes) ≡ true → PutDone (reject c) false
  refuse_big v h = record {
    valid = reject-IsValid c v;
    stored = λ w. absurd (cc);
    others = λ p i ne pinned. (i, refl);
    refused = λ _. inl (ground arith);
  }

  put_of_Outcome :
      (v : IsValid c) (r : Replaced c key pin hot) (out : Evicted)
      → nbytes < word
      → c.nslots ≤ 2 ^ 60
      → Outcome r.after nbytes out
      → (after : Cache) × (ok : Bool) × (finish_put d out (fresh now key value nbytes r.pin' r.hot')
          ≡ some (after, ok))
        × PutDone after ok
  put_of_Outcome v r (stuck c'') small room (c', same, h, all, _) = (
    reject c',
    false,
    finish_stuck d c'' _ ∙ ap (λ w. some (w, false)) same,
    stuck_done v r small c' h all,
  )
  put_of_Outcome v r (fits c' n) small room (h, space) =
      let rm = make_room-Spacious c' h.valid (rw (h.nslots, r.nslots) room) in
      (
        done v r small c' n h rm space,
        true,
        finish_fits d c' rm.after (done v r small c' n h rm space) (e v r small) n rm.result
            (added v r small c' n h rm space).result,
        fits_done v r small c' n h rm space,
      )

  -- On a valid cache of at most 2 ^ 60 slots, cache_put of a value of a 64-bit size ends. The
  -- cache after it is valid (its table, recency list, counters and byte budget agree); if it
  -- returns 1, the key's value is the new one; every pinned entry of another key is still listed,
  -- unchanged; and if it returns 0, the value is larger than the budget, or only pinned entries
  -- are left.
  pub put-PutDone :
      IsValid c
      → nbytes < word
      → c.nslots ≤ 2 ^ 60
      → (after : Cache) × (ok : Bool) × (put d c now key value nbytes pin hot ≡ some (after, ok))
        × PutDone after ok
  put-PutDone v small room = elim (Bool-cases (ltb 0 c.max_bytes && ltb c.max_bytes nbytes)) [
    | inl h ↦ (reject c, false, too_big h, refuse_big v h)
    | inr h ↦
        let r = replace_old-Replaced c key pin hot v in
        let (out, ends, outcome) =
          evict-Outcome d (suc (length r.after.recency)) r.after nbytes 0 r.valid (omega arith)
            (λ pos. rw r.max_bytes (not_big h (subst (λ m. 0 < m) r.max_bytes pos))) in
        let (after, ok, result, done) = put_of_Outcome v r out small room outcome in
        (after, ok, put_steps r out h ends ∙ result, done)
  ]
    where
      not_big :
          (ltb 0 c.max_bytes && ltb c.max_bytes nbytes) ≡ false
          → 0 < c.max_bytes
          → nbytes ≤ c.max_bytes
      not_big h pos = ground arith
