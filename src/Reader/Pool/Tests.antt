-- ===== src/Reader/Pool/Tests.antt =====
-- Runs of the pool on a full ring of two slots that wraps around.
use qwen3_8_flash_next.Base.{
  ℕ, zero, suc, ◌+◌, ◌%◌, ◌<◌, ◌≡◌, refl, arith, Bool, true, false, some, [], ◌∷◌, get_or,
}
use qwen3_8_flash_next.Reader.Pool.History.{
  System, initial, starts, steps, submits, takes, Sound, Reachable-Sound,
}
use qwen3_8_flash_next.Reader.Pool.Ring.{Ring, Submits, submit-Submits, next_job-Ring}
use qwen3_8_flash_next.Reader.Pool.{Pool, init, submit, write, next_job, has_job}

abbrev full : Pool
full = record {
  nthreads = 1;
  queue = λ i. 40 + i;
  head = 1;
  tail = 0;
  cap = 2;
  inflight = 1;
  stop = false;
}

full-Ring : Ring full (41 ∷ [])
full-Ring = record {
  head_lt = omega arith;
  spare = omega arith;
  two = omega arith;
  tail_at = refl;
  holds = holds;
}
  where
    holds : (k : ℕ) → k < 1 → full.queue ((1 + k) % 2) ≡ get_or (41 ∷ []) k 0
    holds zero lt = refl
    holds (suc k) lt = absurd (omega arith)

abbrev always : ℕ → Bool
always n = true

submit-Submits_example : Submits always full (41 ∷ []) 7 (submit always full 7)
submit-Submits_example = submit-Submits always full (41 ∷ []) 7 full-Ring

next_job-Ring_example :
    (p' : Pool) × (next_job full ≡ has_job 41 p')
    × Ring p' []
    × (p'.inflight ≡ 1)
    × (p'.nthreads ≡ 1)
next_job-Ring_example = next_job-Ring full 41 [] full-Ring

abbrev busy : Pool
unfolding init submit write
busy = record (init 2) { queue = write (λ _. 0) 0 7; tail = 1; inflight = 1 }

busy-submit : submit always (init 2) 7 ≡ some busy
unfolding init submit write busy
busy-submit = refl

abbrev taking : Pool
unfolding init submit write busy
taking = record busy { head = 1 }

busy-next_job : next_job busy ≡ has_job 7 taking
unfolding init submit write busy next_job taking
busy-next_job = refl

abbrev submitted_one : System
submitted_one = record (initial 2) { pool = busy; submitted = 7 ∷ [] }

abbrev running_one : System
running_one = record submitted_one { pool = taking; taken = 7 ∷ []; running = 7 ∷ [] }

two_workers : 0 < busy.nthreads
unfolding init submit write busy
two_workers = omega arith

-- A job is submitted and taken.
Reachable-Sound_example : Sound running_one
unfolding init submit write busy taking
Reachable-Sound_example = Reachable-Sound always 2 running_one (
    steps submitted_one running_one
      (steps (initial 2) submitted_one starts (submits (initial 2) 7 busy busy-submit))
      (takes submitted_one 7 taking two_workers busy-next_job))
