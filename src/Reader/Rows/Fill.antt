-- ===== src/Reader/Rows/Fill.antt =====
-- The loop around `pread` of c/src/reader.c. It delivers the stretch when one call does.
use qwen3_8_flash_next.Base.{
  ℕ, zero, suc, ◌+◌, ◌-◌, ◌<◌, ◌≡◌, ◌≢◌, refl, sym, ap, ◌∙◌, subst, arith, true, false, List, [],
  ◌≤◌, ◌∷◌, ◌++◌, ltb, length, take, drop, take-append, add64, word, Bool-cases, inl, inr, ◌⊎◌, ◌*◌,
  dec_lt,
}
use qwen3_8_flash_next.Pread.Fill.{content, Reads, IsCalm, Refuses, RunsOut, progress}
use qwen3_8_flash_next.Pread.{
  Answer, interrupted, refused, bytes, Pread, Filled, filled, failed, ended, unfinished,
}
use qwen3_8_flash_next.Reader.Rows.{overwrite, fill_block}

-- One call more has read the stretch to the start of the block, or there were more calls.
abbrev pub Holds : (ℕ → ℕ) → ℕ → ℕ → ℕ → List ℕ → ℕ → Type 0
Holds file at len before block calls =
    ((calls ≡ before + 1) × (take len block ≡ content file at len)) ⊎ (before + 1 < calls)

-- How the loop ends, after so many calls before it.
abbrev pub Fills : Pread → (ℕ → ℕ) → ℕ → ℕ → ℕ → Filled → Type 0
Fills pread file at len before (filled block time calls) = Holds file at len before block calls
Fills pread file at len before (failed e) = Refuses pread e
Fills pread file at len before ended = RunsOut pread
Fills pread file at len before unfinished = ⊥

module _ (pread : Pread) (at len : ℕ) where
  abbrev pub later : ℕ → ℕ → ℕ → List ℕ → ℕ → Answer → Filled
  later fuel time off block calls interrupted =
      fill_block pread fuel (time + 1) at len off block calls
  later fuel time off block calls (refused e) = failed e
  later fuel time off block calls (bytes []) = ended
  later fuel time off block calls (bytes (b ∷ more)) =
      fill_block pread fuel (time + 1) at len (add64 off (length (b ∷ more)))
        (overwrite (b ∷ more) block) (calls + 1)

  pub fill_more :
      (fuel time off : ℕ) (block : List ℕ) (calls : ℕ)
      → ltb off len ≡ true
      → fill_block pread (suc fuel) time at len off block calls
        ≡ later fuel time off block calls (pread time (len - off) (add64 at off))
  unfolding fill_block
  fill_more fuel time off block calls h =
      rw (h, fill_block) (go (pread time (len - off) (add64 at off)))
    where
      go :
          (a : Answer)
          → (elim a [
            | interrupted ↦ fill_block pread fuel (time + 1) at len off block calls
            | refused e ↦ failed e
            | bytes read ↦ elim read [
              | [] ↦ ended
              | b ∷ more ↦
                  fill_block pread fuel
                    (time + 1)
                    at
                    len
                    (add64 off (length (b ∷ more)))
                    (overwrite (b ∷ more) block)
                    (calls + 1)
            ]
          ])
            ≡ later fuel time off block calls a
      go interrupted = refl
      go (refused e) = refl
      go (bytes []) = refl
      go (bytes (b ∷ more)) = refl

  pub fill_done :
      (fuel time off : ℕ) (block : List ℕ) (calls : ℕ)
      → 0 < fuel
      → ltb off len ≡ false
      → fill_block pread fuel time at len off block calls ≡ filled block time calls
  unfolding fill_block
  fill_done zero time off block calls some_fuel h = absurd (omega arith)
  fill_done (suc fuel) time off block calls some_fuel h = rw (h, fill_block)

module _ (pread : Pread) (file : ℕ → ℕ) (reads : Reads pread file) (k : ℕ) (calm : IsCalm pread k)
    (at len : ℕ) (small : at + len < word) (before : ℕ) where
  -- Nothing was read, or a part, or all.
  abbrev Got : ℕ → List ℕ → ℕ → Type 0
  Got off block calls =
      ((off ≡ 0) × (calls ≡ before))
      ⊎ (((off < len) × (before < calls)) ⊎ ((off ≡ len) × Holds file at len before block calls))

  overwritten : (read block : List ℕ) → length read ≡ len → take len (overwrite read block) ≡ read
  unfolding overwrite
  overwritten read block is =
      ap (λ n. take n (read ++ drop (length read) block)) (sym is)
      ∙ take-append read (drop (length read) block)

  -- A call that reads some bytes.
  Got-next :
      (time off : ℕ) (block : List ℕ) (calls : ℕ) (read : List ℕ)
      → 0 < length read
      → off < len
      → Got off block calls
      → pread time (len - off) (add64 at off) ≡ bytes read
      → Got (off + length read) (overwrite read block) (calls + 1)
  Got-next time off block calls read some_read more (inl (none_yet, is)) h =
      let (fits, content_is) = reads time (len - off) (add64 at off) read h in
      elim (dec_lt (length read) len) [
        | yes part ↦ inr (inl (omega (arith, none_yet, part), omega (arith, is)))
        | no not_part ↦
            let all : length read ≡ len = omega (arith, fits, none_yet, not_part) in
            inr (
              inr (
                omega (arith, none_yet, all),
                inl (
                  omega (arith, is),
                  overwritten read block all
                      ∙ content_is
                      ∙ ap (content file (add64 at off)) all
                      ∙ ap (λ o. content file o len)
                          (let z : add64 at off ≡ at = omega (arith, none_yet, small) in z),
                ),
              ))
      ]
  Got-next time off block calls read some_read more (inr (inl (part, some_calls))) h =
      let (fits, content_is) = reads time (len - off) (add64 at off) read h in
      elim (dec_lt (off + length read) len) [
        | yes part ↦ inr (inl (part, omega (arith, some_calls)))
        | no all ↦ inr (inr (omega (arith, fits, all, more), inr (omega (arith, some_calls))))
      ]
  Got-next time off block calls read some_read more (inr (inr (all, h'))) h =
      absurd (omega (arith, all, more))

  Got-done :
      (off : ℕ) (block : List ℕ) (calls : ℕ)
      → 0 < len
      → (off < len → ⊥)
      → Got off block calls
      → Holds file at len before block calls
  Got-done off block calls some_len done (inl (e, is)) = absurd (done (omega (arith, e, some_len)))
  Got-done off block calls some_len done (inr (inl (lt, is))) = absurd (done lt)
  Got-done off block calls some_len done (inr (inr (e, h))) = h

  -- `j` calls from now one is not interrupted.
  fill-Fills :
      (fuel time off : ℕ) (block : List ℕ) (calls j : ℕ)
      → 0 < len
      → off ≤ len
      → Got off block calls
      → j ≤ k
      → ((count offset : ℕ) → pread (time + j) count offset ≢ interrupted)
      → (len - off) * (k + 1) + j < fuel
      → Fills pread file at len before (fill_block pread fuel time at len off block calls)
  fill-Fills zero time off block calls j some_len le got small_j quiet enough = absurd (omega arith)
  fill-Fills (suc fuel) time off block calls j some_len le got small_j quiet enough =
      elim (Bool-cases (ltb off len)) [
        | inr full ↦
            subst (Fills pread file at len before)
              (sym (fill_done pread at len (suc fuel) time off block calls (omega arith) full))
              (Got-done off block calls some_len (λ lt. absurd (ground (arith, full, lt))) got)
        | inl more ↦
            subst (Fills pread file at len before)
              (sym (fill_more pread at len fuel time off block calls more))
              (go j (pread time (len - off) (add64 at off)) refl (ground arith) small_j quiet enough
                (λ off' block' calls' j'.
                  fill-Fills fuel (time + 1) off' block' calls' j' some_len))
      ]
    where
      go :
          (i : ℕ) (a : Answer)
          → pread time (len - off) (add64 at off) ≡ a
          → off < len
          → i ≤ k
          → ((count offset : ℕ) → pread (time + i) count offset ≢ interrupted)
          → (len - off) * (k + 1) + i < suc fuel
          → ((off' : ℕ) (block' : List ℕ) (calls' j' : ℕ)
              → off' ≤ len
              → Got off' block' calls'
              → j' ≤ k
              → ((count offset : ℕ) → pread (time + 1 + j') count offset ≢ interrupted)
              → (len - off') * (k + 1) + j' < fuel
              → Fills pread file at len before
                  (fill_block pread fuel (time + 1) at len off' block' calls'))
          → Fills pread file at len before (later pread at len fuel time off block calls a)
      go i (refused e) h lt small_i quiet_i room rec = (time, len - off, add64 at off, h)
      go i (bytes []) h lt small_i quiet_i room rec = (time, len - off, add64 at off, h)
      go zero interrupted h lt small_i quiet_i room rec = absurd (
          quiet_i (len - off) (add64 at off) (
            ap (λ t. pread t (len - off) (add64 at off))
              (let z : time + 0 ≡ time = omega arith in z)
            ∙ h))
      go (suc i) interrupted h lt small_i quiet_i room rec =
          rec off block calls i le got (omega arith)
            (λ count offset.
              subst (λ t. pread t count offset ≢ interrupted)
                (let z : time + suc i ≡ time + 1 + i = omega arith in z) (quiet_i count offset))
            (omega arith)
      go i (bytes (b ∷ more)) h lt small_i quiet_i room rec =
          let read = b ∷ more in
          let (fits, is_read) = reads time (len - off) (add64 at off) read h in
          let (j', small', quiet') = calm (time + 1) in
          let there : off + length read ≡ add64 off (length read) = omega (arith, fits, small) in
          subst
            (λ o.
              Fills pread file at len before
                (fill_block pread fuel (time + 1) at len o (overwrite read block) (calls + 1)))
            there
            (rec (off + length read) (overwrite read block) (calls + 1) j' (omega (arith, fits, lt))
              (Got-next time off block calls read (omega arith) lt got h) small' quiet'
              (omega (
                arith,
                fits,
                room,
                small',
                progress pread file reads k calm at len small (len - off) (length read)
                    (off + length read) (omega arith) fits (omega (arith, fits)),
              )))

  -- The loop ends.
  pub fill_start-Fills :
      (fuel time : ℕ) (block : List ℕ)
      → 0 < len
      → len * (k + 1) + k < fuel
      → Fills pread file at len before (fill_block pread fuel time at len 0 block before)
  fill_start-Fills fuel time block some_len enough =
      let (j, small_j, quiet) = calm time in
      fill-Fills fuel time 0 block before j some_len (omega arith) (inl (refl, refl)) small_j quiet
        (omega (
          arith,
          enough,
          small_j,
          (let z : len - 0 ≡ len = omega arith in ap (λ n. n * (k + 1)) z),
        ))
