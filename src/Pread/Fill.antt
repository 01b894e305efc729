-- ===== src/Pread/Fill.antt =====
-- The loop of Pread reads the stretch.
use qwen3_8_flash_next.Base.{
  ℕ, zero, suc, ◌+◌, ◌-◌, ◌*◌, ◌≤◌, ◌<◌, ◌≡◌, ◌≢◌, refl, sym, ap, ◌∙◌, subst, arith, true, false,
  List, [], ◌∷◌, ◌++◌, ltb, length, length-append, get_or, add64, word, Bool-cases, inl, inr,
}
use qwen3_8_flash_next.Pread.{
  Answer, interrupted, refused, bytes, Pread, Filled, filled, failed, ended, unfinished, fill,
}

mul_add : (a b c : ℕ) → (a + b) * c ≡ a * c + b * c
mul_add a b c = grind arith

mul_pos : (a c : ℕ) → 1 ≤ a → c ≤ a * c
mul_pos a c pos = grind arith

-- The `n` bytes of a file from `at` on.
abbrev pub content : (ℕ → ℕ) → ℕ → ℕ → List ℕ
content file at zero = []
content file at (suc n) = file at ∷ content file (at + 1) n

pub length-content : (file : ℕ → ℕ) (at n : ℕ) → length (content file at n) ≡ n
length-content file at zero = refl
length-content file at (suc n) = ap suc (length-content file (at + 1) n)

pub content-append :
    (file : ℕ → ℕ) (at m n : ℕ)
    → content file at m ++ content file (at + m) n ≡ content file at (m + n)
content-append file at zero n =
    rw (let z : at + 0 ≡ at = omega arith in z) (ap (content file at) (omega arith))
content-append file at (suc m) n =
    let shift : at + suc m ≡ at + 1 + m = omega arith in
    let sum : suc m + n ≡ suc (m + n) = omega arith in
    ap (λ a. file at ∷ (content file (at + 1) m ++ content file a n)) shift
    ∙ ap (λ xs. file at ∷ xs) (content-append file (at + 1) m n)
    ∙ ap (content file at) (sym sum)

pub get_or-content :
    (file : ℕ → ℕ) (at n j : ℕ) → j < n → get_or (content file at n) j 0 ≡ file (at + j)
get_or-content file at zero j lt = absurd (omega arith)
get_or-content file at (suc n) zero lt = ap file (omega arith)
get_or-content file at (suc n) (suc j) lt =
    get_or-content file (at + 1) n j (omega arith)
    ∙ ap file (let z : at + 1 + j ≡ at + suc j = omega arith in z)

-- `pread` reads what stands in the file there, and no more than it is asked for.
abbrev pub Reads : Pread → (ℕ → ℕ) → Type 0
Reads pread file =
    (time count offset : ℕ) (read : List ℕ)
    → pread time count offset ≡ bytes read
    → (length read ≤ count) × (read ≡ content file offset (length read))

-- At any time, one of this and the `k` next calls is not interrupted.
abbrev pub IsCalm : Pread → ℕ → Type 0
IsCalm pread k =
    (time : ℕ)
    → (j : ℕ) × (j ≤ k) × ((count offset : ℕ) → pread (time + j) count offset ≢ interrupted)

-- A call was refused with the error.
abbrev pub Refuses : Pread → ℕ → Type 0
Refuses pread e = (time : ℕ) × (count : ℕ) × (offset : ℕ) × (pread time count offset ≡ refused e)

-- A call read nothing.
abbrev pub RunsOut : Pread → Type 0
RunsOut pread = (time : ℕ) × (count : ℕ) × (offset : ℕ) × (pread time count offset ≡ bytes [])

-- The loop ends, with the stretch or with what a call answered.
abbrev pub Fills : Pread → (ℕ → ℕ) → ℕ → ℕ → Filled → Type 0
Fills pread file at len (filled got time calls) = got ≡ content file at len
Fills pread file at len (failed e) = Refuses pread e
Fills pread file at len ended = RunsOut pread
Fills pread file at len unfinished = ⊥

module _ (pread : Pread) (file : ℕ → ℕ) (reads : Reads pread file) (k : ℕ) (calm : IsCalm pread k)
    (at len : ℕ) (small : at + len < word) where
  abbrev later : ℕ → ℕ → List ℕ → ℕ → Answer → Filled
  later fuel time got calls interrupted = fill pread fuel (time + 1) at len got calls
  later fuel time got calls (refused e) = failed e
  later fuel time got calls (bytes []) = ended
  later fuel time got calls (bytes (b ∷ more)) =
      fill pread fuel (time + 1) at len (got ++ b ∷ more) (calls + 1)

  fill_more :
      (fuel time : ℕ) (got : List ℕ) (calls : ℕ)
      → ltb (length got) len ≡ true
      → fill pread (suc fuel) time at len got calls
        ≡ later fuel time got calls (pread time (len - length got) (add64 at (length got)))
  unfolding fill
  fill_more fuel time got calls h =
      rw (h, fill) (go (pread time (len - length got) (add64 at (length got))))
    where
      go :
          (a : Answer)
          → (elim a [
            | interrupted ↦ fill pread fuel (time + 1) at len got calls
            | refused e ↦ failed e
            | bytes read ↦ elim read [
              | [] ↦ ended
              | b ∷ more ↦ fill pread fuel (time + 1) at len (got ++ b ∷ more) (calls + 1)
            ]
          ])
            ≡ later fuel time got calls a
      go interrupted = refl
      go (refused e) = refl
      go (bytes []) = refl
      go (bytes (b ∷ more)) = refl

  fill_done :
      (fuel time : ℕ) (got : List ℕ) (calls : ℕ)
      → ltb (length got) len ≡ false
      → fill pread (suc fuel) time at len got calls ≡ filled got time calls
  unfolding fill
  fill_done fuel time got calls h = rw (h, fill)

  -- A call that reads some bytes leaves room for `k` interruptions more.
  pub progress :
      (left read total : ℕ)
      → 1 ≤ read
      → read ≤ left
      → len - total ≡ left - read
      → (len - total) * (k + 1) + k < left * (k + 1)
  progress left read total pos le e =
      let left_is : left ≡ (left - read) + read = omega arith in
      let product : left * (k + 1) ≡ (left - read) * (k + 1) + read * (k + 1) =
        ap (λ n. n * (k + 1)) left_is ∙ mul_add (left - read) read (k + 1) in
      let rest : (len - total) * (k + 1) ≡ (left - read) * (k + 1) = ap (λ n. n * (k + 1)) e in
      omega (arith, product, rest, mul_pos read (k + 1) pos)

  -- `j` calls from now one is not interrupted.
  fill-Fills :
      (fuel time : ℕ) (got : List ℕ) (calls j : ℕ)
      → got ≡ content file at (length got)
      → length got ≤ len
      → j ≤ k
      → ((count offset : ℕ) → pread (time + j) count offset ≢ interrupted)
      → (len - length got) * (k + 1) + j < fuel
      → Fills pread file at len (fill pread fuel time at len got calls)
  fill-Fills zero time got calls j is le small_j quiet enough = absurd (omega arith)
  fill-Fills (suc fuel) time got calls j is le small_j quiet enough =
      elim (Bool-cases (ltb (length got) len)) [
        | inr full ↦
            subst (Fills pread file at len) (sym (fill_done fuel time got calls full))
              (is ∙ ap (content file at) (let z : length got ≡ len = ground arith in z))
        | inl more ↦ subst (Fills pread file at len) (sym (fill_more fuel time got calls more)) (
            go j (pread time (len - length got) (add64 at (length got))) refl (ground arith) small_j
              quiet enough (λ got' calls' j'. fill-Fills fuel (time + 1) got' calls' j'))
      ]
    where
      go :
          (i : ℕ) (a : Answer)
          → pread time (len - length got) (add64 at (length got)) ≡ a
          → length got < len
          → i ≤ k
          → ((count offset : ℕ) → pread (time + i) count offset ≢ interrupted)
          → (len - length got) * (k + 1) + i < suc fuel
          → ((got' : List ℕ) (calls' j' : ℕ)
              → got' ≡ content file at (length got')
              → length got' ≤ len
              → j' ≤ k
              → ((count offset : ℕ) → pread (time + 1 + j') count offset ≢ interrupted)
              → (len - length got') * (k + 1) + j' < fuel
              → Fills pread file at len (fill pread fuel (time + 1) at len got' calls'))
          → Fills pread file at len (later fuel time got calls a)
      go i (refused e) h lt small_i quiet_i room rec =
          (time, len - length got, add64 at (length got), h)
      go i (bytes []) h lt small_i quiet_i room rec =
          (time, len - length got, add64 at (length got), h)
      go zero interrupted h lt small_i quiet_i room rec = absurd (
          quiet_i (len - length got) (add64 at (length got)) (
            ap (λ t. pread t (len - length got) (add64 at (length got)))
              (let z : time + 0 ≡ time = omega arith in z)
            ∙ h))
      go (suc i) interrupted h lt small_i quiet_i room rec =
          rec got calls i is le (omega arith)
            (λ count offset.
              subst (λ t. pread t count offset ≢ interrupted)
                (let z : time + suc i ≡ time + 1 + i = omega arith in z) (quiet_i count offset))
            (omega arith)
      go i (bytes (b ∷ more)) h lt small_i quiet_i room rec =
          let read = b ∷ more in
          let (fits, is_read) = reads time (len - length got) (add64 at (length got)) read h in
          let there : add64 at (length got) ≡ at + length got = omega arith in
          let sum = length-append got read in
          let (j', small', quiet') = calm (time + 1) in
          rec (got ++ read) (calls + 1) j'
            (ap (λ xs. xs ++ read) is
              ∙ ap (λ xs. content file at (length got) ++ xs)
                  (is_read ∙ ap (λ o. content file o (length read)) there)
              ∙ content-append file at (length got) (length read)
              ∙ ap (content file at) (sym sum))
            (omega (arith, sum, fits)) small' quiet'
            (omega (
              arith,
              sum,
              fits,
              progress (len - length got) (length read) (length (got ++ read)) (omega arith) fits
                  (omega (arith, sum, fits)),
            ))

  -- The stretch is read from its start.
  pub fill_start-Fills :
      (fuel time calls : ℕ)
      → len * (k + 1) + k < fuel
      → Fills pread file at len (fill pread fuel time at len [] calls)
  fill_start-Fills fuel time calls enough =
      let (j, small_j, quiet) = calm time in
      fill-Fills fuel time [] calls j refl (omega arith) small_j quiet
        (omega (arith, (let z : len - 0 ≡ len = omega arith in ap (λ n. n * (k + 1)) z)))
