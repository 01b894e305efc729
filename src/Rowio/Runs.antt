-- ===== src/Rowio/Runs.antt =====
-- The runs of native/rowio.c, and the requests that it makes of the items.
use qwen3_8_flash_next.Base.{
  ℕ, zero, suc, ◌+◌, ◌-◌, ◌*◌, ◌/◌, ◌≤◌, ◌<◌, ◌≡◌, pos, negsuc, refl, sym, ap, ◌∙◌, subst, arith,
  Bool, true, false, ◌&&◌, not, some, List, [], ◌∷◌, ◌++◌, ◌==◌, ltb, leb, if◌then◌else◌, length,
  length-append, mul64, word, All, Any, Bool-cases, inl, inr, ◌⊎◌,
}
use qwen3_8_flash_next.Rowio.Offset.{quotient_iff}
use qwen3_8_flash_next.Rowio.{
  RowRequest, Failure, large_number, not_a_number, outside_shape, Converted, overflowed, raised,
  value, request_of, requests_from, follows, split_run, unique_from, max_block_from,
}

-- Each request follows the one before it.
abbrev Chain : RowRequest → List RowRequest → Type 0
Chain before [] = Unit
Chain before (a ∷ run) = (follows before a ≡ true) × Chain a run

pub split_run-append :
    (a : RowRequest) (requests : List RowRequest)
    → (split_run a requests).0 ++ (split_run a requests).1 ≡ requests
unfolding split_run
split_run-append before [] = refl
split_run-append before (a ∷ requests) = elim (Bool-cases (follows before a)) [
  | inl more ↦ rw more (ap (λ w. a ∷ w) (split_run-append a requests))
  | inr stop ↦ rw stop refl
]

split_run-Chain : (a : RowRequest) (requests : List RowRequest) → Chain a (split_run a requests).0
unfolding split_run
split_run-Chain before [] = tt
split_run-Chain before (a ∷ requests) = elim (Bool-cases (follows before a)) [
  | inl more ↦ rw more (more, split_run-Chain a requests)
  | inr stop ↦ rw stop tt
]

-- `u` rows from `start` on, of which `n` came before the run.
abbrev Counted : ℕ → ℕ → List RowRequest → ℕ → Type 0
Counted start n run u =
    (n ≤ u) × (u ≤ n + length run) × All (λ r. (start ≤ r.row) × (r.row < start + u)) run

unique_step :
    (before a : RowRequest) (run : List RowRequest) (n : ℕ) (b : Bool)
    → (a.row == before.row) ≡ b
    → unique_from before (a ∷ run) n ≡ unique_from a run (if b then n else n + 1)
unfolding unique_from
unique_step before a run n b h = ap (λ c. unique_from a run (if c then n else n + 1)) h

-- The rows of a run are those from its first on, as many as are counted.
unique_from-Counted :
    (start n : ℕ) (before : RowRequest) (run : List RowRequest)
    → Chain before run
    → before.row + 1 ≡ start + n
    → 1 ≤ n
    → Counted start n run (unique_from before run n)
unfolding unique_from
unique_from-Counted start n before [] chain is some_row = (omega arith, omega arith, tt)
unique_from-Counted start n before (a ∷ run) (h, chain) is some_row =
    elim (Bool-cases (a.row == before.row)) [
      | inl same ↦
          let (lo, hi, all) = unique_from-Counted start n a run chain (ground arith) some_row in
          subst (Counted start n (a ∷ run)) (sym (unique_step before a run n true same))
            (lo, omega (arith, hi), ((ground arith, ground (arith, lo)), all))
      | inr other ↦
          let (lo, hi, all) =
            unique_from-Counted start (n + 1) a run chain (ground arith) (omega arith) in
          subst (Counted start n (a ∷ run)) (sym (unique_step before a run n false other))
            (omega (arith, lo), omega (arith, hi), ((ground arith, ground (arith, lo)), all))
    ]

unique_from-limit :
    (start limit n : ℕ) (before : RowRequest) (run : List RowRequest)
    → Chain before run
    → before.row + 1 ≡ start + n
    → before.row < limit
    → All (λ r. r.row < limit) run
    → start + unique_from before run n ≤ limit
unfolding unique_from
unique_from-limit start limit n before [] chain is lt all = omega arith
unique_from-limit start limit n before (a ∷ run) (h, chain) is lt (here, all) =
    elim (Bool-cases (a.row == before.row)) [
      | inl same ↦ rw same (unique_from-limit start limit n a run chain (ground arith) here all)
      | inr other ↦
          rw other (unique_from-limit start limit (n + 1) a run chain (ground arith) here all)
    ]

pub split_run-All :
    (P : RowRequest → Type 0) (a : RowRequest) (requests : List RowRequest)
    → All P requests
    → All P (split_run a requests).0 × All P (split_run a requests).1
unfolding split_run
split_run-All P before [] all = (tt, tt)
split_run-All P before (a ∷ requests) (p, all) = elim (Bool-cases (follows before a)) [
  | inl more ↦ rw more (let (run, rest) = split_run-All P a requests all in ((p, run), rest))
  | inr stop ↦ rw stop (tt, (p, all))
]

module _ (a : RowRequest) (requests : List RowRequest) where
  abbrev pub unique : ℕ
  unique = unique_from a (split_run a requests).0 1

  pub run-bounds :
      (1 ≤ unique)
      × (unique ≤ suc (length requests))
      × All (λ r. (a.row ≤ r.row) × (r.row < a.row + unique)) (a ∷ (split_run a requests).0)
  run-bounds =
      let run = (split_run a requests).0 in
      let (lo, hi, all) =
        unique_from-Counted (a.row) 1 a run (split_run-Chain a requests) refl (omega arith) in
      let total = ap length (split_run-append a requests) in
      (
        lo,
        omega (arith, hi, total, length-append run (split_run a requests).1),
        ((omega arith, omega (arith, lo)), all),
      )

  pub run-limit :
      (limit : ℕ) → a.row < limit → All (λ r. r.row < limit) requests → a.row + unique ≤ limit
  run-limit limit lt all =
      unique_from-limit (a.row) limit 1 a (split_run a requests).0 (split_run-Chain a requests) refl
        lt (split_run-All (λ r. r.row < limit) a requests all).0

  pub length-rest : length (split_run a requests).1 ≤ length requests
  length-rest = omega (
    arith,
    ap length (split_run-append a requests),
    length-append (split_run a requests).0 (split_run a requests).1,
  )

-- The first loop over the runs: no run is larger than what it finds, if the product of the counts fits.
max_block_lem :
    (left row_bytes : ℕ) (a : RowRequest) (requests : List RowRequest) (m : ℕ)
    → (not (row_bytes == 0) && ltb ((word - 1) / row_bytes) (unique a requests)) ≡ false
    → max_block_from (suc left) row_bytes (a ∷ requests) m
      ≡ max_block_from left row_bytes (split_run a requests).1 (
          if ltb m (mul64 (unique a requests) row_bytes)
          then mul64 (unique a requests) row_bytes
          else m)
unfolding max_block_from
max_block_lem left row_bytes a requests m h = rw h refl

-- The product of a count up to `n` and the size of a row fits.
fits_word :
    (row_bytes n u : ℕ)
    → u ≤ n
    → n * row_bytes < word
    → (not (row_bytes == 0) && ltb ((word - 1) / row_bytes) u) ≡ false
fits_word row_bytes n u le fit = elim (Bool-cases (row_bytes == 0)) [
  | inl first ↦ rw first refl
  | inr later ↦
      let product : row_bytes * u ≤ n * row_bytes = grind arith in
      let quotient =
        (quotient_iff (word - 1) row_bytes u (ground arith)).1 (omega (arith, product, fit)) in
      rw later (ground (arith, quotient))
]

pub record Found (left row_bytes : ℕ) (requests : List RowRequest) (m room : ℕ) : Type 0 where
  pub found : max_block_from left row_bytes requests m ≡ some room
  pub at_least : m ≤ room

pub max_block_from-Found :
    (left row_bytes : ℕ) (requests : List RowRequest) (m n : ℕ)
    → length requests ≤ n
    → n * row_bytes < word
    → (room : ℕ) × Found left row_bytes requests m room
unfolding max_block_from
max_block_from-Found zero row_bytes requests m n le fit =
    (m, record { found = refl; at_least = omega arith })
max_block_from-Found (suc left) row_bytes [] m n le fit =
    (m, record { found = refl; at_least = omega arith })
max_block_from-Found (suc left) row_bytes (a ∷ requests) m n le fit =
    let size = mul64 (unique a requests) row_bytes in
    let next = if ltb m size then size else m in
    let (lo, hi, _) = run-bounds a requests in
    let (room, r) =
      max_block_from-Found left row_bytes (split_run a requests).1 next n
        (omega (arith, le, length-rest a requests)) fit in
    (
      room,
      record {
        found =
            max_block_lem left row_bytes a requests m
              (fits_word row_bytes n (unique a requests) (omega (arith, hi, le)) fit)
            ∙ r.found;
        at_least = ground (arith, r.at_least);
      },
    )

-- A round of it: the run fits, and so do those that are left.
pub max_block-step :
    (left row_bytes : ℕ) (a : RowRequest) (requests : List RowRequest) (m n room : ℕ)
    → suc (length requests) ≤ n
    → n * row_bytes < word
    → max_block_from (suc left) row_bytes (a ∷ requests) m ≡ some room
    → (mul64 (unique a requests) row_bytes ≤ room)
      × ((m' : ℕ) × (max_block_from left row_bytes (split_run a requests).1 m' ≡ some room))
max_block-step left row_bytes a requests m n room le fit e =
    let size = mul64 (unique a requests) row_bytes in
    let next = if ltb m size then size else m in
    let (lo, hi, _) = run-bounds a requests in
    let step =
      max_block_lem left row_bytes a requests m
        (fits_word row_bytes n (unique a requests) (omega (arith, hi, le)) fit) in
    let (room', r) =
      max_block_from-Found left row_bytes (split_run a requests).1 next n
        (omega (arith, le, length-rest a requests)) fit in
    let same : some room' ≡ some room = sym r.found ∙ sym step ∙ e in
    let same_room : room' ≡ room = cc same in
    (ground (arith, r.at_least, same_room), (next, sym step ∙ e))

-- The row that an item asks for.
abbrev pub row_value : Converted → ℕ
row_value (value (pos n)) = n
row_value _ = 0

abbrev pub IsOverflowed : Converted → Type 0
IsOverflowed c = c ≡ overflowed

abbrev pub IsRaised : Converted → Type 0
IsRaised c = c ≡ raised

-- The number of a row that is not there.
abbrev pub IsOutside : ℕ → Converted → Type 0
IsOutside total (value (negsuc n)) = Unit
IsOutside total (value (pos n)) = total ≤ n
IsOutside total _ = ⊥

module _ {A : Type 0} (convert : A → Converted) (total : ℕ) where
  abbrev pub row_at : List A → ℕ → ℕ
  row_at [] i = 0
  row_at (item ∷ items) zero = row_value (convert item)
  row_at (item ∷ items) (suc i) = row_at items i

  -- The request of the item at the place, counted from `i`.
  abbrev pub IsOf : List A → ℕ → RowRequest → Type 0
  IsOf items i r =
      (j : ℕ) × (j < length items)
      × (r.output_index ≡ i + j)
      × (r.row ≡ row_at items j)
      × (r.row < total)

  -- What the requests are, or why there are none.
  abbrev pub Requested : List A → ℕ → List RowRequest ⊎ Failure → Type 0
  Requested items i (inl requests) =
      All (IsOf items i) requests
      × ((j : ℕ)
          → j < length items
          → Any (λ r. (r.output_index ≡ i + j) × (r.row ≡ row_at items j)) requests)
      × (length requests ≡ length items)
  Requested items i (inr large_number) = Any (λ x. IsOverflowed (convert x)) items
  Requested items i (inr not_a_number) = Any (λ x. IsRaised (convert x)) items
  Requested items i (inr outside_shape) = Any (λ x. IsOutside total (convert x)) items
  Requested items i (inr _) = ⊥

  shift-IsOf :
      (items : List A) (item : A) (i : ℕ) (requests : List RowRequest)
      → All (IsOf items (i + 1)) requests
      → All (IsOf (item ∷ items) i) requests
  shift-IsOf items item i [] all = tt
  shift-IsOf items item i (r ∷ requests) ((j, lt, place, is, fits), all) =
      ((suc j, omega arith, omega (arith, place), is, fits), shift-IsOf items item i requests all)

  shift-Any :
      (j i n : ℕ) (requests : List RowRequest)
      → Any (λ r. (r.output_index ≡ i + 1 + j) × (r.row ≡ n)) requests
      → Any (λ r. (r.output_index ≡ i + suc j) × (r.row ≡ n)) requests
  shift-Any j i n [] any = any
  shift-Any j i n (r ∷ requests) (inl (place, is)) = inl (omega (arith, place), is)
  shift-Any j i n (r ∷ requests) (inr any) = inr (shift-Any j i n requests any)

  add-Requested :
      (items : List A) (item : A) (i n : ℕ) (rest : List RowRequest ⊎ Failure)
      → n < total
      → n ≡ row_value (convert item)
      → Requested items (i + 1) rest
      → Requested (item ∷ items) i (elim rest [
        | inr e ↦ inr e
        | inl requests ↦ inl (record { row = n; output_index = i } ∷ requests)
      ])
  add-Requested items item i n (inl requests) fits is (all, every, size) = (
    ((0, omega arith, omega arith, is, fits), shift-IsOf items item i requests all),
    λ j lt. at j lt,
    ap suc size,
  )
    where
      at :
          (j : ℕ)
          → j < suc (length items)
          → Any
              (λ r. (r.output_index ≡ i + j) × (r.row ≡ row_at (item ∷ items) j))
              (record { row = n; output_index = i } ∷ requests)
      at zero lt = inl (omega arith, is)
      at (suc j) lt = inr (shift-Any j i (row_at items j) requests (every j (omega arith)))
  add-Requested items item i n (inr large_number) fits is h = inr h
  add-Requested items item i n (inr not_a_number) fits is h = inr h
  add-Requested items item i n (inr outside_shape) fits is h = inr h
  add-Requested items item i n (inr Failure.negative_row_bytes) fits is h = h
  add-Requested items item i n (inr Failure.too_many_rows) fits is h = h
  add-Requested items item i n (inr Failure.too_large) fits is h = h
  add-Requested items item i n (inr Failure.no_memory) fits is h = h
  add-Requested items item i n (inr Failure.no_output) fits is h = h
  add-Requested items item i n (inr Failure.short) fits is h = h
  add-Requested items item i n (inr Failure.too_far) fits is h = h
  add-Requested items item i n (inr Failure.overrun) fits is h = h
  add-Requested items item i n (inr Failure.unending) fits is h = h
  add-Requested items item i n (inr (Failure.os_error e)) fits is h = h

  pub requests_from-Requested :
      (items : List A) (i : ℕ) → Requested items i (requests_from convert total i items)
  unfolding requests_from request_of
  requests_from-Requested [] i = (tt, λ j lt. absurd (omega arith), refl)
  requests_from-Requested (item ∷ items) i =
      go (convert item) refl (requests_from-Requested items (i + 1))
    where
      go :
          (c : Converted)
          → convert item ≡ c
          → Requested items (i + 1) (requests_from convert total (i + 1) items)
          → Requested (item ∷ items) i (elim (request_of total i c) [
            | inr e ↦ inr e
            | inl request ↦ elim (requests_from convert total (i + 1) items) [
              | inr e ↦ inr e
              | inl requests ↦ inl (request ∷ requests)
            ]
          ])
      go overflowed e h = inl e
      go raised e h = inl e
      go (value (negsuc n)) e h = inl (subst (IsOutside total) (sym e) tt)
      go (value (pos n)) e h = elim (Bool-cases (leb total n)) [
        | inl outside ↦ rw outside (inl (subst (IsOutside total) (sym e) (ground arith)))
        | inr inside ↦ rw inside (
            add-Requested items item i n (requests_from convert total (i + 1) items) (ground arith)
              (sym (ap row_value e)) h)
      ]
