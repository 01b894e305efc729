-- ===== src/Reader/Pool/Ring.antt =====
-- The ring of the pool is a queue: it gives the jobs in the order in which it got them, also when
-- it wraps around and when it grows.
use native.Mathlib.Nat.{mod-lt, mod-add-mod, mod-eq_of_lt, add-mod_right}
use qwen3_8_flash_next.Base.{
  Bool, Option, none, ◌^◌, leb, ◌⊎◌, ℕ, zero, suc, ◌+◌, ◌*◌, ◌%◌, ◌≤◌, ◌<◌, ◌≡◌, ◌≢◌, refl, sym, ap,
  ◌∙◌, subst, arith, true, false, some, List, [], ◌∷◌, ◌++◌, ◌==◌, ==_iff, if◌then◌else◌, length,
  length-append, get_or, Bool-cases, inl, inr, ℕ_discrete, dec_lt,
}
use qwen3_8_flash_next.Probe.Circle.{mod-injective}
use qwen3_8_flash_next.Reader.Pool.{
  Pool, write, copy, grow, make_space, submit, next_job, has_job, waits, ends,
}

-- The jobs of `l` lie in the ring from `head` on, the oldest first.
pub record Ring (p : Pool) (l : List ℕ) : Type 0 where
  pub head_lt : p.head < p.cap
  pub spare : length l < p.cap
  pub two : 2 ≤ p.cap
  pub tail_at : (p.head + length l) % p.cap ≡ p.tail
  pub holds : (k : ℕ) → k < length l → p.queue ((p.head + k) % p.cap) ≡ get_or l k 0

write_self : (a : ℕ → ℕ) (i v : ℕ) → write a i v i ≡ v
unfolding write
write_self a i v = ground arith

write_ne : (a : ℕ → ℕ) (i v j : ℕ) → i ≢ j → write a i v j ≡ a j
unfolding write
write_ne a i v j ne = ground arith

get_or-append_left :
    (xs ys : List ℕ) (k : ℕ) → k < length xs → get_or (xs ++ ys) k 0 ≡ get_or xs k 0
get_or-append_left [] ys k lt = absurd (omega arith)
get_or-append_left (x ∷ xs) ys zero lt = refl
get_or-append_left (x ∷ xs) ys (suc k) lt = get_or-append_left xs ys k (omega arith)

get_or-append_last : (xs : List ℕ) (y : ℕ) → get_or (xs ++ y ∷ []) (length xs) 0 ≡ y
get_or-append_last [] y = refl
get_or-append_last (x ∷ xs) y = get_or-append_last xs y

module _ (p : Pool) (l : List ℕ) (r : Ring p l) where
  -- Only the place behind the last job is the tail.
  not_tail : (k : ℕ) → k < length l → ((p.head + k) % p.cap == p.tail) ≡ false
  not_tail k lt = elim (Bool-cases ((p.head + k) % p.cap == p.tail)) [
    | inr other ↦ other
    | inl yes_k ↦
        let same =
          mod-injective p.cap p.head k (length l) (omega (arith, r.spare)) r.spare
            ((==_iff ((p.head + k) % p.cap) p.tail).0 yes_k ∙ sym r.tail_at) in
        absurd (omega arith)
  ]

  at_tail : ((p.head + length l) % p.cap == p.tail) ≡ true
  at_tail = (==_iff ((p.head + length l) % p.cap) p.tail).1 r.tail_at

  -- The two tests of `copy`.
  copy_stop :
      (fuel i n : ℕ) (nq : ℕ → ℕ) → (i == p.tail) ≡ true → copy (suc fuel) p i nq n ≡ some (nq, n)
  unfolding copy
  copy_stop fuel i n nq h = rw h refl

  copy_more :
      (fuel i n : ℕ) (nq : ℕ → ℕ)
      → (i == p.tail) ≡ false
      → copy (suc fuel) p i nq n ≡ copy fuel p ((i + 1) % p.cap) (write nq n (p.queue i)) (n + 1)
  unfolding copy
  copy_more fuel i n nq h = rw h refl

  abbrev Copied : ℕ → (ℕ → ℕ) → Type 0
  Copied n a = (j : ℕ) → j < n → a j ≡ get_or l j 0

  Copied-write :
      (k : ℕ) (nq : ℕ → ℕ)
      → k < length l
      → Copied k nq
      → Copied (k + 1) (write nq k (p.queue ((p.head + k) % p.cap)))
  Copied-write k nq lt before j hi = elim (ℕ_discrete k j) [
    | yes same ↦ rw (← same) (write_self nq k _ ∙ r.holds k lt)
    | no ne ↦ write_ne nq k _ j ne ∙ before j (omega arith)
  ]

  copy-Copied :
      (fuel k : ℕ) (nq : ℕ → ℕ)
      → k ≤ length l
      → length l < fuel + k
      → Copied k nq
      → (a : ℕ → ℕ) × (copy fuel p ((p.head + k) % p.cap) nq k ≡ some (a, length l))
        × Copied (length l) a
  copy-Copied zero k nq le enough before = absurd (omega arith)
  copy-Copied (suc fuel) k nq le enough before = elim (ℕ_discrete k (length l)) [
    | yes same ↦ (
      nq,
      copy_stop fuel _ k nq (rw same at_tail) ∙ ap (λ n. some (nq, n)) same,
      subst (λ n. Copied n nq) same before,
    )
    | no ne ↦
        let lt : k < length l = omega arith in
        let (a, result, all) =
          copy-Copied fuel (k + 1) (write nq k (p.queue ((p.head + k) % p.cap))) (omega arith)
            (omega arith) (Copied-write k nq lt before) in
        (
          a,
          copy_more fuel _ k nq (not_tail k lt)
              ∙ ap (λ i. copy fuel p i (write nq k (p.queue ((p.head + k) % p.cap))) (k + 1))
                  (mod-add-mod (p.head + k) p.cap 1 ∙ ap (λ w. w % p.cap) (omega arith))
              ∙ result,
          all,
        )
  ]

  full_iff : ((p.tail + 1) % p.cap == p.head) ≡ true → length l + 1 ≡ p.cap
  full_iff h = elim (dec_lt (length l + 1) p.cap) [
    | no big ↦ omega (arith, r.spare)
    | yes lt ↦
        let e : (p.head + (length l + 1)) % p.cap ≡ (p.head + 0) % p.cap =
          after_last ∙ (==_iff ((p.tail + 1) % p.cap) p.head).0 h ∙ sym at_head in
        absurd (
          let z = mod-injective p.cap p.head (length l + 1) 0 lt (omega (arith, r.two)) e in
          omega arith)
  ]
    where
      after_last : (p.head + (length l + 1)) % p.cap ≡ (p.tail + 1) % p.cap
      after_last =
          ap (λ w. w % p.cap) (omega arith)
          ∙ sym (mod-add-mod (p.head + length l) p.cap 1)
          ∙ ap (λ w. (w + 1) % p.cap) r.tail_at

      at_head : (p.head + 0) % p.cap ≡ p.head
      at_head = ap (λ w. w % p.cap) (omega arith) ∙ mod-eq_of_lt r.head_lt

  -- A ring that is not full takes one more job.
  add-Ring :
      (job n : ℕ)
      → ((p.tail + 1) % p.cap == p.head) ≡ false
      → Ring
          (record p { queue = write p.queue p.tail job; tail = (p.tail + 1) % p.cap; inflight = n })
          (l ++ job ∷ [])
  add-Ring job n not_full = record {
    head_lt = r.head_lt;
    spare = omega (arith, length-append l (job ∷ []), more);
    two = r.two;
    tail_at =
        ap (λ w. (p.head + w) % p.cap) (length-append l (job ∷ []))
        ∙ ap (λ w. w % p.cap) (omega arith)
        ∙ sym (mod-add-mod (p.head + length l) p.cap 1)
        ∙ ap (λ w. (w + 1) % p.cap) r.tail_at;
    holds = λ k lt. elim (ℕ_discrete k (length l)) [
      | yes same ↦
          ap (write p.queue p.tail job) (ap (λ w. (p.head + w) % p.cap) same ∙ r.tail_at)
          ∙ write_self p.queue p.tail job
          ∙ sym (ap (λ w. get_or (l ++ job ∷ []) w 0) same ∙ get_or-append_last l job)
      | no ne ↦
          let less : k < length l = omega (arith, length-append l (job ∷ [])) in
          write_ne p.queue p.tail job ((p.head + k) % p.cap) (other k less)
          ∙ r.holds k less
          ∙ sym (get_or-append_left l (job ∷ []) k less)
    ];
  }
    where
      other : (k : ℕ) → k < length l → p.tail ≢ (p.head + k) % p.cap
      other k lt e = let h = not_tail k lt in ground arith

      more : length l + 1 < p.cap
      more = elim (ℕ_discrete (length l + 1) p.cap) [
        | no ne ↦ omega (arith, r.spare)
        | yes same ↦ absurd (cc (not_full, wrapped same))
      ]
        where
          wrapped : length l + 1 ≡ p.cap → ((p.tail + 1) % p.cap == p.head) ≡ true
          wrapped same = (==_iff ((p.tail + 1) % p.cap) p.head).1 (
              ap (λ w. (w + 1) % p.cap) (sym r.tail_at)
              ∙ mod-add-mod (p.head + length l) p.cap 1
              ∙ ap (λ w. w % p.cap)
                  (let z : p.head + length l + 1 ≡ p.head + p.cap = omega arith in z)
              ∙ add-mod_right p.head p.cap
              ∙ mod-eq_of_lt r.head_lt)

  abbrev grown : (ℕ → ℕ) → Pool
  grown a = record p { queue = a; head = 0; tail = length l; cap = p.cap * 2 }

  grow_of_copy :
      (allocates : ℕ → Bool) (a : ℕ → ℕ)
      → leb (2 ^ 31) (p.cap * 2) ≡ false
      → allocates (p.cap * 2 * 8) ≡ true
      → copy p.cap p p.head (λ _. 0) 0 ≡ some (a, length l)
      → grow allocates p ≡ some (grown a)
  unfolding grow
  grow_of_copy allocates a fits room h = rw (fits, room, h, grow) refl

  grow_large : (allocates : ℕ → Bool) → leb (2 ^ 31) (p.cap * 2) ≡ true → grow allocates p ≡ none
  unfolding grow
  grow_large allocates large = rw (large, grow) refl

  grow_null :
      (allocates : ℕ → Bool)
      → leb (2 ^ 31) (p.cap * 2) ≡ false
      → allocates (p.cap * 2 * 8) ≡ false
      → grow allocates p ≡ none
  unfolding grow
  grow_null allocates fits null = rw (fits, null, grow) refl

  start : (p.head + 0) % p.cap ≡ p.head
  start = ap (λ w. w % p.cap) (omega arith) ∙ mod-eq_of_lt r.head_lt

  from_zero : (k : ℕ) → k < p.cap → (0 + k) % (p.cap * 2) ≡ k
  from_zero k lt =
      ap (λ w. w % (p.cap * 2)) (let z : 0 + k ≡ k = omega arith in z) ∙ mod-eq_of_lt (omega arith)

  grown-Ring : (a : ℕ → ℕ) → Copied (length l) a → Ring (grown a) l
  grown-Ring a all = record {
    head_lt = omega (arith, r.two);
    spare = omega (arith, r.spare);
    two = omega (arith, r.two);
    tail_at = from_zero (length l) r.spare;
    holds = λ k lt. ap a (from_zero k (omega (arith, r.spare))) ∙ all k lt;
  }

  grown_spare : (a : ℕ → ℕ) → (((grown a).tail + 1) % (grown a).cap == (grown a).head) ≡ false
  grown_spare a =
      let e : (length l + 1) % (p.cap * 2) ≡ length l + 1 =
        mod-eq_of_lt (omega (arith, r.spare, r.two)) in
      rw e (ground arith)

  space_free :
      (allocates : ℕ → Bool) (fuel : ℕ)
      → ((p.tail + 1) % p.cap == p.head) ≡ false
      → make_space allocates (suc fuel) p ≡ some p
  unfolding make_space
  space_free allocates fuel h = rw (h, make_space)

  space_full :
      (allocates : ℕ → Bool) (fuel : ℕ) (p' : Pool)
      → ((p.tail + 1) % p.cap == p.head) ≡ true
      → grow allocates p ≡ some p'
      → make_space allocates (suc fuel) p ≡ make_space allocates fuel p'
  unfolding make_space
  space_full allocates fuel p' h g = rw (h, make_space, g)

  space_none :
      (allocates : ℕ → Bool) (fuel : ℕ)
      → ((p.tail + 1) % p.cap == p.head) ≡ true
      → grow allocates p ≡ none
      → make_space allocates (suc fuel) p ≡ none
  unfolding make_space
  space_none allocates fuel h g = rw (h, make_space, g)

-- The list with the job behind it, and one more in flight; or why there is no such pool.
abbrev pub Submits : (ℕ → Bool) → Pool → List ℕ → ℕ → Option Pool → Type 0
Submits allocates p l job (some p') =
    Ring p' (l ++ job ∷ []) × (p'.inflight ≡ p.inflight + 1) × (p'.nthreads ≡ p.nthreads)
Submits allocates p l job none =
    ((length l + 1 ≡ p.cap) × ((2 ^ 31 ≤ p.cap * 2) ⊎ (allocates (p.cap * 2 * 8) ≡ false)))
    ⊎ (2 ^ 31 ≤ p.inflight + 1)

no_space :
    (allocates : ℕ → Bool) (p : Pool) (job : ℕ)
    → make_space allocates 2 p ≡ none
    → submit allocates p job ≡ none
unfolding submit
no_space allocates p job h = rw (h, submit) refl

submit_of_space :
    (allocates : ℕ → Bool) (p p' : Pool) (l : List ℕ) (job : ℕ)
    → make_space allocates 2 p ≡ some p'
    → Ring p' l
    → ((p'.tail + 1) % p'.cap == p'.head) ≡ false
    → p'.inflight ≡ p.inflight
    → p'.nthreads ≡ p.nthreads
    → Submits allocates p l job (submit allocates p job)
unfolding submit
submit_of_space allocates p p' l job h r spare same threads =
    elim (Bool-cases (leb (2 ^ 31) (p'.inflight + 1))) [
      | inl large ↦ rw (h, submit, large) (inr (ground (arith, large, same)))
      | inr fits ↦
          rw (h, submit, fits)
            (add-Ring p' l r job (p'.inflight + 1) spare, ap (λ n. n + 1) same, threads)
    ]

-- A submit to a ring that holds the jobs of a list, full or not, either ends with a ring that
-- holds that list with the job behind it, with one job more in flight and the same number of
-- workers; or the ring is full and its doubled capacity is no int or calloc has no room for it;
-- or one job more in flight is no int.
pub submit-Submits :
    (allocates : ℕ → Bool) (p : Pool) (l : List ℕ) (job : ℕ)
    → Ring p l
    → Submits allocates p l job (submit allocates p job)
submit-Submits allocates p l job r = elim (Bool-cases ((p.tail + 1) % p.cap == p.head)) [
  | inr spare ↦
      submit_of_space allocates p p l job (space_free p l r allocates 1 spare) r spare refl refl
  | inl full ↦ elim (Bool-cases (leb (2 ^ 31) (p.cap * 2))) [
    | inl large ↦
        subst (Submits allocates p l job)
          (sym (
            no_space allocates p job
              (space_none p l r allocates 1 full (grow_large p l r allocates large))))
          (inl (full_iff p l r full, inl (ground (arith, large))))
    | inr fits ↦ elim (Bool-cases (allocates (p.cap * 2 * 8))) [
      | inr null ↦
          subst (Submits allocates p l job)
            (sym (
              no_space allocates p job
                (space_none p l r allocates 1 full (grow_null p l r allocates fits null))))
            (inl (full_iff p l r full, inr null))
      | inl room ↦
          let (a, result, all) =
            copy-Copied p l r p.cap 0 (λ _. 0) (omega arith) (omega (arith, r.spare))
              (λ j lt. absurd (omega arith)) in
          let p' = grown p l r a in
          let r' = grown-Ring p l r a all in
          let spare = grown_spare p l r a in
          let grows =
            grow_of_copy p l r allocates a fits room
              (ap (λ i. copy p.cap p i (λ _. 0) 0) (sym (start p l r)) ∙ result) in
          submit_of_space allocates p p' l job
            (space_full p l r allocates 1 p' full grows ∙ space_free p' l r' allocates 0 spare) r'
            spare refl refl
    ]
  ]
]

next_of_tail :
    (p : Pool) → (p.head == p.tail) ≡ true → next_job p ≡ (if p.stop then ends else waits)
unfolding next_job
next_of_tail p h = rw h refl

next_of_job :
    (p : Pool)
    → (p.head == p.tail) ≡ false
    → next_job p ≡ has_job (p.queue p.head) (record p { head = (p.head + 1) % p.cap })
unfolding next_job
next_of_job p h = rw h refl

-- A worker that looks at a ring that holds some jobs takes the oldest, and the ring then holds
-- the others, with as many jobs in flight and as many workers.
pub next_job-Ring :
    (p : Pool) (job : ℕ) (l : List ℕ)
    → Ring p (job ∷ l)
    → (p' : Pool) × (next_job p ≡ has_job job p')
      × Ring p' l
      × (p'.inflight ≡ p.inflight)
      × (p'.nthreads ≡ p.nthreads)
next_job-Ring p job l r = (
  record p { head = (p.head + 1) % p.cap },
  next_of_job p busy ∙ ap (λ j. has_job j (record p { head = (p.head + 1) % p.cap })) first,
  record {
    head_lt = mod-lt (p.head + 1) (omega (arith, r.two));
    spare = omega (arith, r.spare);
    two = r.two;
    tail_at = shift (length l) ∙ r.tail_at;
    holds = λ k lt. ap p.queue (shift k) ∙ r.holds (suc k) (omega arith);
  },
  refl,
  refl,
)
  where
    at_head : (p.head + 0) % p.cap ≡ p.head
    at_head = start p (job ∷ l) r

    busy : (p.head == p.tail) ≡ false
    busy = rw at_head at (not_tail p (job ∷ l) r 0 (omega arith))

    first : p.queue p.head ≡ job
    first = ap p.queue (sym at_head) ∙ r.holds 0 (omega arith)

    shift : (k : ℕ) → ((p.head + 1) % p.cap + k) % p.cap ≡ (p.head + suc k) % p.cap
    shift k = mod-add-mod (p.head + 1) p.cap k ∙ ap (λ w. w % p.cap) (omega arith)

-- At an empty ring a worker waits, or ends if the pool is to stop.
pub next_job-empty : (p : Pool) → Ring p [] → next_job p ≡ (if p.stop then ends else waits)
next_job-empty p r = next_of_tail p ((==_iff p.head p.tail).1 (sym (start p [] r) ∙ r.tail_at))
