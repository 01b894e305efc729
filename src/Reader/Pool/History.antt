-- ===== src/Reader/Pool/History.antt =====
-- The pool of c/src/reader.c as a state machine: clients submit jobs, workers take and finish
-- them, in any interleaving of the three locked sections.
use qwen3_8_flash_next.Base.{
  ℕ, ◌+◌, ◌≤◌, ◌<◌, ◌≡◌, refl, sym, ap, ◌∙◌, subst, arith, some, List, [], ◌∷◌, ◌++◌, length,
  length-append, Bool, true, false, if◌then◌else◌,
}
use qwen3_8_flash_next.Reader.Pool.Ring.{
  Ring, Submits, submit-Submits, next_job-Ring, next_job-empty,
}
use qwen3_8_flash_next.Reader.Pool.{
  Pool, init, submit, next_job, has_job, waits, ends, finish, request_stop,
}

-- The pool, what was submitted and what was taken, in order, the jobs that the workers run, and how
-- many are finished. Each worker runs one job.
pub record System : Type 0 where
  pub pool : Pool
  pub submitted : List ℕ
  pub taken : List ℕ
  pub running : List ℕ
  pub finished : ℕ

pub data Step (allocates : ℕ → Bool) : System → System → Type 0 where
  submits :
      (s : System) (job : ℕ) (p' : Pool)
      → submit allocates s.pool job ≡ some p'
      → Step allocates s (record s { pool = p'; submitted = s.submitted ++ job ∷ [] })
  takes :
      (s : System) (job : ℕ) (p' : Pool)
      → length s.running < s.pool.nthreads
      → next_job s.pool ≡ has_job job p'
      → Step allocates s
          (record s { pool = p'; taken = s.taken ++ job ∷ []; running = job ∷ s.running })
  finishes :
      (s : System) (xs : List ℕ) (job : ℕ) (ys : List ℕ)
      → s.running ≡ xs ++ job ∷ ys
      → Step allocates s
          (record s { pool = finish s.pool; running = xs ++ ys; finished = s.finished + 1 })
  stops : (s : System) → Step allocates s (record s { pool = request_stop s.pool })

abbrev pub initial : ℕ → System
initial nthreads = record {
  pool = init nthreads;
  submitted = [];
  taken = [];
  running = [];
  finished = 0;
}

-- The systems that steps lead to from `io_pool_init`.
pub data Reachable (allocates : ℕ → Bool) (nthreads : ℕ) : System → Type 0 where
  starts : Reachable allocates nthreads (initial nthreads)
  steps :
      (s s' : System)
      → Reachable allocates nthreads s
      → Step allocates s s'
      → Reachable allocates nthreads s'

-- The ring holds what was submitted and not yet taken, and `inflight` counts what is unfinished.
pub record Sound (s : System) : Type 0 where
  pub waiting : List ℕ
  pub ring : Ring s.pool waiting
  pub order : s.submitted ≡ s.taken ++ waiting
  pub workers : length s.running ≤ s.pool.nthreads
  pub taken_are : s.finished + length s.running ≡ length s.taken
  pub unfinished : s.pool.inflight + s.finished ≡ length s.submitted

init-Sound : (nthreads : ℕ) → Sound (initial nthreads)
unfolding init
init-Sound nthreads = record {
  waiting = [];
  ring = record {
    head_lt = omega arith;
    spare = omega arith;
    two = omega arith;
    tail_at = refl;
    holds = λ k lt. absurd (omega arith);
  };
  order = refl;
  workers = omega arith;
  taken_are = refl;
  unfinished = refl;
}

append_assoc : (xs : List ℕ) (x : ℕ) (ys : List ℕ) → xs ++ x ∷ ys ≡ (xs ++ x ∷ []) ++ ys
append_assoc [] x ys = refl
append_assoc (z ∷ xs) x ys = ap (λ w. z ∷ w) (append_assoc xs x ys)

append_last : (xs ys : List ℕ) (x : ℕ) → (xs ++ ys) ++ x ∷ [] ≡ xs ++ (ys ++ x ∷ [])
append_last [] ys x = refl
append_last (z ∷ xs) ys x = ap (λ w. z ∷ w) (append_last xs ys x)

takes-Sound :
    (s : System) (job : ℕ) (p' : Pool)
    → length s.running < s.pool.nthreads
    → next_job s.pool ≡ has_job job p'
    → (l : List ℕ) → Ring s.pool l
    → s.submitted ≡ s.taken ++ l
    → s.finished + length s.running ≡ length s.taken
    → s.pool.inflight + s.finished ≡ length s.submitted
    → Sound (record s { pool = p'; taken = s.taken ++ job ∷ []; running = job ∷ s.running })
takes-Sound s job p' free e [] r order runs count =
    absurd (nothing s.pool.stop (sym e ∙ next_job-empty s.pool r))
  where
    nothing : (b : Bool) → has_job job p' ≡ (if b then ends else waits) → ⊥
    nothing true h = cc h
    nothing false h = cc h
takes-Sound s job p' free e (x ∷ l) r order runs count =
    let (q, e', r', inf, threads) = next_job-Ring s.pool x l r in
    let same_job : x ≡ job = cc (e, e') in
    let same_pool : q ≡ p' = cc (e, e') in
    record {
      waiting = l;
      ring = subst (λ w. Ring w l) same_pool r';
      order = order ∙ append_assoc s.taken x l ∙ ap (λ w. (s.taken ++ w ∷ []) ++ l) same_job;
      workers = omega (arith, free, ap (λ (w : Pool). w.nthreads) same_pool, threads);
      taken_are = omega (arith, runs, length-append s.taken (job ∷ []));
      unfinished = ap (λ w. w.inflight + s.finished) (sym same_pool) ∙ omega (arith, inf, count);
    }

Step-Sound : (allocates : ℕ → Bool) (s s' : System) → Step allocates s s' → Sound s → Sound s'
unfolding finish request_stop
Step-Sound allocates _ _ (submits s job p' e) v =
    let (ring', inf, threads) : Submits allocates s.pool v.waiting job (some p') =
      subst (Submits allocates s.pool v.waiting job) e
        (submit-Submits allocates s.pool v.waiting job v.ring) in
    record {
      waiting = v.waiting ++ job ∷ [];
      ring = ring';
      order = ap (λ w. w ++ job ∷ []) v.order ∙ append_last s.taken v.waiting job;
      workers = omega (arith, v.workers, threads);
      taken_are = v.taken_are;
      unfinished = omega (arith, inf, v.unfinished, length-append s.submitted (job ∷ []));
    }
Step-Sound allocates _ _ (takes s job p' free e) v =
    takes-Sound s job p' free e v.waiting v.ring v.order v.taken_are v.unfinished
Step-Sound allocates _ _ (finishes s xs job ys is) v =
    let before = ap length is ∙ length-append xs (job ∷ ys) in
    let after = length-append xs ys in
    record {
      waiting = v.waiting;
      ring = record {
        head_lt = v.ring.head_lt;
        spare = v.ring.spare;
        two = v.ring.two;
        tail_at = v.ring.tail_at;
        holds = v.ring.holds;
      };
      order = v.order;
      workers = omega (arith, v.workers, before, after);
      taken_are = omega (arith, v.taken_are, before, after);
      unfinished = omega (
        arith,
        v.unfinished,
        v.taken_are,
        before,
        ap length v.order,
        length-append s.taken v.waiting,
      );
    }
Step-Sound allocates _ _ (stops s) v = record {
  waiting = v.waiting;
  ring = record {
    head_lt = v.ring.head_lt;
    spare = v.ring.spare;
    two = v.ring.two;
    tail_at = v.ring.tail_at;
    holds = v.ring.holds;
  };
  order = v.order;
  workers = v.workers;
  taken_are = v.taken_are;
  unfinished = v.unfinished;
}

-- In every state that submits, takings, finishings and a stop lead to from io_pool_init, in any
-- interleaving, where a worker takes a job only when it runs none and finishes the one that it
-- runs: the jobs submitted are those taken, in the order of their submission, followed by those
-- in the ring; no more jobs run than there are workers; those that run and those finished are as
-- many as those taken; and inflight with the finished jobs counts the submitted ones.
pub Reachable-Sound :
    (allocates : ℕ → Bool) (nthreads : ℕ) (s : System) → Reachable allocates nthreads s → Sound s
Reachable-Sound allocates nthreads _ starts = init-Sound nthreads
Reachable-Sound allocates nthreads _ (steps s s' r st) =
    Step-Sound allocates s s' st (Reachable-Sound allocates nthreads s r)
