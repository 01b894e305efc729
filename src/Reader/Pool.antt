-- ===== src/Reader/Pool.antt =====
-- The queue of c/src/reader.c: `io_pool` is a ring of job pointers, which grows when it is full.
-- The pool's lock makes each of the three steps atomic: a submit, a worker's taking of a job, and
-- the count at the end of a job.
pub mod Ring
pub mod History
mod Tests
use qwen3_8_flash_next.Base.{
  ℕ, zero, suc, ◌+◌, ◌-◌, ◌*◌, ◌%◌, Bool, true, false, Option, none, some, ◌==◌, if◌then◌else◌, ◌^◌,
  leb, not,
}

-- `queue` is the array; the ints are not negative.
pub record Pool : Type 0 where
  pub nthreads : ℕ
  pub queue : ℕ → ℕ
  pub head : ℕ
  pub tail : ℕ
  pub cap : ℕ
  pub inflight : ℕ
  pub stop : Bool

unfoldable pub init : ℕ → Pool
init nthreads = record {
  nthreads = if nthreads == 0 then 1 else nthreads;
  queue = λ _. 0;
  head = 0;
  tail = 0;
  cap = 256;
  inflight = 0;
  stop = false;
}

-- `a[i] = v`
unfoldable pub write : (ℕ → ℕ) → ℕ → ℕ → ℕ → ℕ
write a i v j = if i == j then v else a j

-- `for (i = head; i != tail; i = (i + 1) % cap) nq[n++] = queue[i];`: the array and `n`. The fuel
-- is `cap`.
unfoldable pub copy : ℕ → Pool → ℕ → (ℕ → ℕ) → ℕ → Option ((ℕ → ℕ) × ℕ)
unfolding write
copy zero p i nq n = none
copy (suc fuel) p i nq n =
    let rest = copy fuel p ((i + 1) % p.cap) (write nq n (p.queue i)) (n + 1) in
    if i == p.tail then some (nq, n) else rest

-- `allocates` tells whether `calloc` of so many bytes gives memory; without it the job pointers go
-- through a null pointer. `none` is this, and an int of 2 ^ 31 or more.
unfoldable pub grow : (ℕ → Bool) → Pool → Option Pool
unfolding copy
grow allocates p =
    if leb (2 ^ 31) (p.cap * 2)
    then none
    else if not (allocates (p.cap * 2 * 8))
    then none
    else elim (copy p.cap p p.head (λ _. 0) 0) [
      | none ↦ none
      | some (nq, n) ↦ some (record p { queue = nq; head = 0; tail = n; cap = p.cap * 2 })
    ]

-- `while ((tail + 1) % cap == head)`
unfoldable pub make_space : (ℕ → Bool) → ℕ → Pool → Option Pool
unfolding grow
make_space allocates zero p = none
make_space allocates (suc fuel) p = elim ((p.tail + 1) % p.cap == p.head) [
  | false ↦ some p
  | true ↦ elim (grow allocates p) [ none ↦ none | some p' ↦ make_space allocates fuel p' ]
]

-- Two rounds are enough: after one the ring is not full.
unfoldable pub submit : (ℕ → Bool) → Pool → ℕ → Option Pool
unfolding make_space write
submit allocates p job = elim (make_space allocates 2 p) [
  | none ↦ none
  | some p' ↦
      if leb (2 ^ 31) (p'.inflight + 1)
      then none
      else some (record p' {
        queue = write p'.queue p'.tail job;
        tail = (p'.tail + 1) % p'.cap;
        inflight = p'.inflight + 1;
      })
]

-- What a worker does at its lock: it waits, it ends, or it has a job.
pub data Next : Type 0 where
  waits ends : Next
  has_job : ℕ → Pool → Next

unfoldable pub next_job : Pool → Next
next_job p =
    if p.head == p.tail
    then (if p.stop then ends else waits)
    else has_job (p.queue p.head) (record p { head = (p.head + 1) % p.cap })

unfoldable pub finish : Pool → Pool
finish p = record p { inflight = p.inflight - 1 }

-- `io_pool_destroy` at its lock; it then joins the workers.
unfoldable pub request_stop : Pool → Pool
request_stop p = record p { stop = true }
