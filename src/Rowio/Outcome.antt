-- ===== src/Rowio/Outcome.antt =====
-- `read_rows` of native/rowio.c as a whole.
use mathlib.Core.List.{Permᴰ}
use mathlib.Core.List.Permᴰ
use qwen3_8_flash_next.Base.{
  Bool-cases, ℤ, negsuc, ℕ, suc, ◌+◌, ◌*◌, ◌/◌, ◌≤◌, ◌<◌, ◌≡◌, pos, refl, sym, ap, ◌∙◌, subst,
  arith, Bool, true, false, not, Option, none, some, List, [], ◌∷◌, ◌==◌, ltb, if◌then◌else◌,
  length, word, All, Any, inl, inr, ◌⊎◌, dec_le,
}
use qwen3_8_flash_next.Pread.Fill.{Reads, IsCalm, Refuses, RunsOut}
use qwen3_8_flash_next.Pread.{Pread}
use qwen3_8_flash_next.Rowio.Blocks.{Asks, Delivers, read_blocks-Delivers}
use qwen3_8_flash_next.Rowio.Offset.{quotient_iff}
use qwen3_8_flash_next.Rowio.Runs.{
  max_block_from-Found, row_at, IsOf, Requested, requests_from-Requested, IsOverflowed, IsRaised,
  IsOutside,
}
use qwen3_8_flash_next.Rowio.{
  RowRequest, Failure, too_many_rows, too_large, not_a_number, large_number, outside_shape,
  no_memory, no_output, short, too_far, os_error, negative_row_bytes, overrun, unending, Converted,
  Rows, rows_read, no_rows, failure, long_max, read_blocks, read_sorted, reported, enomem,
  read_items, read_rows, max_block_from, requests_from, is_sorted,
}

-- What holds of a list holds of what a sort makes of it.
All-perm : (P : RowRequest → Type 0) {xs ys : List RowRequest} → Permᴰ xs ys → All P xs → All P ys
All-perm P Permᴰ.nil all = tt
All-perm P (Permᴰ.cons e p) (x, all) = (subst P e x, All-perm P p all)
All-perm P (Permᴰ.swap e e') (x, (y, all)) = (subst P e' y, (subst P e x, all))
All-perm P (Permᴰ.trans p q) all = All-perm P q (All-perm P p all)

Any-perm : (P : RowRequest → Type 0) {xs ys : List RowRequest} → Permᴰ xs ys → Any P xs → Any P ys
Any-perm P Permᴰ.nil any = any
Any-perm P (Permᴰ.cons e p) (inl x) = inl (subst P e x)
Any-perm P (Permᴰ.cons e p) (inr any) = inr (Any-perm P p any)
Any-perm P (Permᴰ.swap e e') (inl x) = inr (inl (subst P e x))
Any-perm P (Permᴰ.swap e e') (inr (inl y)) = inl (subst P e' y)
Any-perm P (Permᴰ.swap e e') (inr (inr any)) = inr (inr any)
Any-perm P (Permᴰ.trans p q) any = Any-perm P q (Any-perm P p any)

length-perm : {xs ys : List RowRequest} → Permᴰ xs ys → length xs ≡ length ys
length-perm Permᴰ.nil = refl
length-perm (Permᴰ.cons e p) = ap suc (length-perm p)
length-perm (Permᴰ.swap e e') = refl
length-perm (Permᴰ.trans p q) = length-perm p ∙ length-perm q

-- What the loader of the rows was asked for, and why it gives none.
module _ {A : Type 0} (convert : A → Converted) (qsort : List RowRequest → List RowRequest)
    (sorts : (requests : List RowRequest) → Permᴰ requests (qsort requests)) (pread : Pread)
    (file : ℕ → ℕ) (reads : Reads pread file) (k : ℕ) (calm : IsCalm pread k)
    (rounds base row_bytes total : ℕ) (items : List A) (small : base < word)
    (enough : length items * row_bytes * (k + 1) + k < rounds) where
  abbrev wanted_row : ℕ → ℕ
  wanted_row = row_at convert total items

  abbrev WhyNot : (ℕ → Bool) → Failure → Type 0
  WhyNot allocates negative_row_bytes = ⊥
  WhyNot allocates too_many_rows = long_max < total
  WhyNot allocates too_large = long_max < length items * row_bytes
  WhyNot allocates not_a_number = Any (λ x. IsRaised (convert x)) items
  WhyNot allocates large_number = Any (λ x. IsOverflowed (convert x)) items
  WhyNot allocates outside_shape = Any (λ x. IsOutside total (convert x)) items
  WhyNot allocates no_memory = ((m : ℕ) × (allocates m ≡ false)) ⊎ Refuses pread enomem
  WhyNot allocates no_output = (m : ℕ) × (allocates m ≡ false)
  WhyNot allocates short = RunsOut pread
  WhyNot allocates too_far = long_max < base + total * row_bytes
  WhyNot allocates (os_error e) = Refuses pread e
  WhyNot allocates overrun = ⊥
  WhyNot allocates unending = ⊥

  abbrev pub Outcome : (ℕ → Bool) → (ℕ → ℕ) → Rows → Type 0
  Outcome allocates before (rows_read out calls sum) =
      ((i j : ℕ)
        → i < length items
        → j < row_bytes
        → out (i * row_bytes + j) ≡ file (base + wanted_row i * row_bytes + j))
      × ((p : ℕ) → length items * row_bytes ≤ p → out p ≡ before p)
  Outcome allocates before no_rows = length items ≡ 0
  Outcome allocates before (failure e) = WhyNot allocates e

  Outcome-if :
      (allocates : ℕ → Bool) (before : ℕ → ℕ) (b : Bool) (x y : Rows)
      → (b ≡ true → Outcome allocates before x)
      → (b ≡ false → Outcome allocates before y)
      → Outcome allocates before (if b then x else y)
  Outcome-if allocates before true x y h h' = h refl
  Outcome-if allocates before false x y h h' = h' refl

  module _ (fit : length items * row_bytes ≤ long_max) where
    -- What the blocks give is what the whole gives.
    Delivers-Outcome :
        (allocates : ℕ → Bool) (before : ℕ → ℕ) (r : Rows)
        → Delivers pread file reads k calm rounds base row_bytes total
            (length items)
            wanted_row
            small
            fit
            enough
            before
            r
        → Outcome allocates before r
    Delivers-Outcome allocates before (rows_read out calls sum) h = h
    Delivers-Outcome allocates before no_rows h = absurd h
    Delivers-Outcome allocates before (failure short) h = h
    Delivers-Outcome allocates before (failure (os_error e)) h = h
    Delivers-Outcome allocates before (failure too_far) h = h
    Delivers-Outcome allocates before (failure negative_row_bytes) h = absurd h
    Delivers-Outcome allocates before (failure too_many_rows) h = absurd h
    Delivers-Outcome allocates before (failure too_large) h = absurd h
    Delivers-Outcome allocates before (failure not_a_number) h = absurd h
    Delivers-Outcome allocates before (failure large_number) h = absurd h
    Delivers-Outcome allocates before (failure outside_shape) h = absurd h
    Delivers-Outcome allocates before (failure no_memory) h = absurd h
    Delivers-Outcome allocates before (failure no_output) h = absurd h
    Delivers-Outcome allocates before (failure overrun) h = absurd h
    Delivers-Outcome allocates before (failure unending) h = absurd h

    abbrev AllAsk : List RowRequest → Type 0
    AllAsk = All (
        Asks pread file reads k calm rounds base row_bytes total (length items) wanted_row small fit
          enough)

    IsOf-Asks :
        (requests : List RowRequest) → All (IsOf convert total items 0) requests → AllAsk requests
    IsOf-Asks [] all = tt
    IsOf-Asks (r ∷ requests) ((j, lt, place, is, below), all) =
        let same : r.output_index ≡ j = omega (arith, place) in
        ((omega (arith, lt, same), is ∙ ap wanted_row (sym same), below), IsOf-Asks requests all)

    -- From the sorted requests on.
    sorted_lem :
        (allocates : ℕ → Bool) (before : ℕ → ℕ) (requests : List RowRequest) (room : ℕ)
        → max_block_from (length requests) row_bytes requests 0 ≡ some room
        → read_sorted pread rounds base row_bytes allocates before requests ≡ (
            if not (allocates (length requests * row_bytes))
            then failure no_output
            else if not (allocates (if room == 0 then 1 else room))
            then failure no_memory
            else reported (
                read_blocks pread rounds base row_bytes
                  (suc (length requests))
                  room
                  requests
                  0
                  0
                  0
                  before))
    unfolding read_sorted
    sorted_lem allocates before requests room found =
        ap
          (λ (o : Option ℕ). elim o [
            | none ↦ failure too_large
            | some m ↦
                if not (allocates (length requests * row_bytes))
                then failure no_output
                else if not (allocates (if m == 0 then 1 else m))
                then failure no_memory
                else reported (
                    read_blocks pread rounds base row_bytes (suc (length requests)) m requests 0 0 0
                      before)
          ])
          found

    reported-Outcome :
        (allocates : ℕ → Bool) (before : ℕ → ℕ) (r : Rows)
        → Outcome allocates before r
        → Outcome allocates before (reported r)
    reported-Outcome allocates before (rows_read out calls sum) h = h
    reported-Outcome allocates before no_rows h = h
    reported-Outcome allocates before (failure (os_error e)) h = elim (Bool-cases (e == enomem)) [
      | inl same ↦
          let is : e ≡ enomem = ground (arith, same) in rw same (inr (subst (Refuses pread) is h))
      | inr other ↦ rw other h
    ]
    reported-Outcome allocates before (failure negative_row_bytes) h = h
    reported-Outcome allocates before (failure too_many_rows) h = h
    reported-Outcome allocates before (failure too_large) h = h
    reported-Outcome allocates before (failure not_a_number) h = h
    reported-Outcome allocates before (failure large_number) h = h
    reported-Outcome allocates before (failure outside_shape) h = h
    reported-Outcome allocates before (failure no_memory) h = h
    reported-Outcome allocates before (failure no_output) h = h
    reported-Outcome allocates before (failure short) h = h
    reported-Outcome allocates before (failure too_far) h = h
    reported-Outcome allocates before (failure overrun) h = h
    reported-Outcome allocates before (failure unending) h = h

    read_sorted-Outcome :
        (allocates : ℕ → Bool) (before : ℕ → ℕ) (requests : List RowRequest)
        → All (IsOf convert total items 0) requests
        → ((j : ℕ)
            → j < length items
            → Any (λ r. (r.output_index ≡ j) × (r.row ≡ wanted_row j)) requests)
        → length requests ≡ length items
        → Outcome allocates before
            (read_sorted pread rounds base row_bytes allocates before requests)
    read_sorted-Outcome allocates before requests all every size =
        let (room, found) =
          max_block_from-Found (length requests) row_bytes requests 0 (length items)
            (omega (arith, size)) (omega (arith, fit)) in
        subst (Outcome allocates before)
          (sym (sorted_lem allocates before requests room found.found))
          (Outcome-if allocates before (not (allocates (length requests * row_bytes))) _ _
            (λ full. (length requests * row_bytes, ground arith))
            (λ enough_1.
              Outcome-if allocates before (not (allocates (if room == 0 then 1 else room))) _ _
                (λ full. inl ((if room == 0 then 1 else room), ground arith))
                (λ enough_2. reported-Outcome allocates before _ (
                  Delivers-Outcome allocates before _ (
                    read_blocks-Delivers pread file reads k calm rounds base row_bytes total
                      (length items) wanted_row small fit enough before room (suc (length requests))
                      (length requests) 0 requests 0 0 0 before (omega arith) (omega arith)
                      (omega (arith, size)) found.found (IsOf-Asks requests all)
                      (record { each = λ i lt. inr (every i lt); behind = λ p le. refl }))))))

    choose :
        (requests : List RowRequest) (b : Bool)
        → Permᴰ requests (if b then requests else qsort requests)
    choose requests true = Permᴰ.refl requests
    choose requests false = sorts requests

    requests-Outcome :
        (allocates : ℕ → Bool) (before : ℕ → ℕ) (made : List RowRequest ⊎ Failure)
        → Requested convert total items 0 made
        → Outcome allocates before (elim made [
          | inr e ↦ failure e
          | inl requests ↦
              read_sorted pread rounds base row_bytes allocates before
                (if is_sorted requests then requests else qsort requests)
        ])
    requests-Outcome allocates before (inl requests) (all, every, size) =
        let p = choose requests (is_sorted requests) in
        read_sorted-Outcome allocates before _ (All-perm _ p all)
          (λ j lt. at _ j (Any-perm _ p (every j lt))) (sym (length-perm p) ∙ size)
      where
        at :
            (xs : List RowRequest) (j : ℕ)
            → Any (λ r. (r.output_index ≡ 0 + j) × (r.row ≡ wanted_row j)) xs
            → Any (λ r. (r.output_index ≡ j) × (r.row ≡ wanted_row j)) xs
        at xs j any =
            subst (λ i. Any (λ r. (r.output_index ≡ i) × (r.row ≡ wanted_row j)) xs)
              (let z : 0 + j ≡ j = omega arith in z) any
    requests-Outcome allocates before (inr large_number) h = h
    requests-Outcome allocates before (inr not_a_number) h = h
    requests-Outcome allocates before (inr outside_shape) h = h
    requests-Outcome allocates before (inr negative_row_bytes) h = absurd h
    requests-Outcome allocates before (inr too_many_rows) h = absurd h
    requests-Outcome allocates before (inr too_large) h = absurd h
    requests-Outcome allocates before (inr no_memory) h = absurd h
    requests-Outcome allocates before (inr no_output) h = absurd h
    requests-Outcome allocates before (inr short) h = absurd h
    requests-Outcome allocates before (inr too_far) h = absurd h
    requests-Outcome allocates before (inr overrun) h = absurd h
    requests-Outcome allocates before (inr unending) h = absurd h
    requests-Outcome allocates before (inr (os_error e)) h = absurd h

  -- The row size is not negative.
  read_rows_plain :
      (allocates : ℕ → Bool) (output : ℕ → ℕ)
      → Outcome allocates output
          (read_rows convert qsort pread rounds base (pos row_bytes) items total allocates output)
  unfolding read_rows read_items
  read_rows_plain allocates output =
      Outcome-if allocates output (ltb long_max total) _ _ (λ many. ground arith)
        (λ few.
          Outcome-if allocates output (length items == 0) _ _ (λ none. ground arith)
            (λ some.
              let divides = quotient_iff long_max (length items) row_bytes (ground arith) in
              Outcome-if allocates output (ltb (long_max / length items) row_bytes) _ _
                (λ large. exceeds (divides.1) (ground arith))
                (λ fits.
                  let fit = divides.0 (ground arith) in
                  Outcome-if allocates output (not (allocates (length items * 16))) _ _
                    (λ full. inl (length items * 16, ground arith))
                    (λ enough_1.
                      requests-Outcome fit allocates output (requests_from convert total 0 items)
                        (requests_from-Requested convert total items 0)))))
    where
      exceeds :
          (length items * row_bytes ≤ long_max → row_bytes ≤ long_max / length items)
          → long_max / length items < row_bytes
          → long_max < length items * row_bytes
      exceeds h above = elim (dec_le (length items * row_bytes) long_max) [
        | yes fit ↦ absurd (omega (arith, h fit, above))
        | no not_fit ↦ omega (arith, not_fit)
      ]

-- The row size as a number.
abbrev pub bytes_of : ℤ → ℕ
bytes_of (pos n) = n
bytes_of (negsuc n) = 0

module _ {A : Type 0} (convert : A → Converted) (qsort : List RowRequest → List RowRequest)
    (sorts : (requests : List RowRequest) → Permᴰ requests (qsort requests)) (pread : Pread)
    (file : ℕ → ℕ) (reads : Reads pread file) (k : ℕ) (calm : IsCalm pread k)
    (rounds base total : ℕ) (items : List A) (small : base < word) where
  -- A negative row size is refused.
  abbrev pub Answers :
      (size : ℤ)
      → length items * bytes_of size * (k + 1) + k < rounds
      → (ℕ → Bool)
      → (ℕ → ℕ)
      → Rows
      → Type 0
  Answers (negsuc n) enough allocates before rows = rows ≡ failure negative_row_bytes
  Answers (pos row_bytes) enough allocates before rows =
      Outcome convert qsort sorts pread file reads k calm rounds base row_bytes total items small
        enough allocates before rows

  -- Where qsort permutes, the calls of pread read from the file at the offset (as few bytes as
  -- they like) and one of any k + 1 calls is not interrupted, read_rows ends for any items, base
  -- offset, row size and row count. A negative row size gives the error for it. Any other gives
  -- the bytes of the wanted row in each place and nothing changed behind the last, or no rows
  -- where there are no items, or an error whose cause is there: an item that is no number, too
  -- large or outside of the tensor, a total or a size above 2 ^ 63 - 1, an allocation that failed
  -- or a call refused with ENOMEM, an end of the tensor above 2 ^ 63 - 1, a call that was refused
  -- or one that read nothing. No read is larger than the block.
  pub read_rows-Answers :
      (size : ℤ) (enough : length items * bytes_of size * (k + 1) + k < rounds)
      (allocates : ℕ → Bool) (output : ℕ → ℕ)
      → Answers size enough allocates output
          (read_rows convert qsort pread rounds base size items total allocates output)
  unfolding read_rows
  read_rows-Answers (negsuc n) enough allocates output = refl
  read_rows-Answers (pos row_bytes) enough allocates output =
      read_rows_plain convert qsort sorts pread file reads k calm rounds base row_bytes total items
        small enough allocates output
