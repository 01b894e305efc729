-- ===== src/Rowio/Blocks.antt =====
-- The walk over the blocks of native/rowio.c: the rows come to their places.
use qwen3_8_flash_next.Base.{
  ℕ, zero, suc, ◌+◌, ◌*◌, ◌≤◌, ◌<◌, ◌≡◌, refl, sym, ap, ◌∙◌, subst, arith, false, ◌&&◌, not, Option,
  none, some, List, [], ◌∷◌, ◌++◌, ◌==◌, ltb, length, take, take-length, add64, sub64, mul64, word,
  All, Bool-cases, inl, inr, dec_le,
}
use qwen3_8_flash_next.Gather.Right.{Inv, put_row-Inv, mul_add, mul_le}
use qwen3_8_flash_next.Pread.Fill.{
  content, length-content, Reads, IsCalm, Refuses, RunsOut, Fills, fill_start-Fills,
}
use qwen3_8_flash_next.Pread.{Pread, Filled, filled, failed, ended, unfinished}
use qwen3_8_flash_next.Rowio.Offset.{checked_offset_iff}
use qwen3_8_flash_next.Rowio.Runs.{
  unique, run-bounds, run-limit, split_run-append, split_run-All, length-rest, max_block-step,
}
use qwen3_8_flash_next.Rowio.{
  RowRequest, Failure, short, too_far, os_error, Block, block, broken, block_of, block_or, Rows,
  rows_read, no_rows, failure, long_max, checked_offset, read_fully, read_block, read_blocks,
  split_run, scatter, max_block_from,
}

module _ (pread : Pread) (file : ℕ → ℕ) (reads : Reads pread file) (k : ℕ) (calm : IsCalm pread k)
    (rounds base row_bytes total n : ℕ) (wanted : ℕ → ℕ) (small : base < word)
    (fit : n * row_bytes ≤ long_max) (enough : n * row_bytes * (k + 1) + k < rounds) where
  abbrev pub Met : (ℕ → ℕ) → (ℕ → ℕ) → List RowRequest → Type 0
  Met = Inv (λ r. r.row) (λ r. r.output_index) row_bytes file base wanted n

  -- A request for the row of its place.
  abbrev pub Asks : RowRequest → Type 0
  Asks r = (r.output_index < n) × (r.row ≡ wanted r.output_index) × (r.row < total)

  scatter-Met :
      (before : ℕ → ℕ) (start u : ℕ) (run rest : List RowRequest) (out : ℕ → ℕ)
      → All (λ r. (start ≤ r.row) × (r.row < start + u)) run
      → All Asks run
      → Met before out (run ++ rest)
      → Met before
          (scatter row_bytes start
            (content file (base + start * row_bytes) (u * row_bytes))
            run
            out)
          rest
  unfolding scatter
  scatter-Met before start u [] rest out bounds asks met = met
  scatter-Met before start u (r ∷ run) rest out ((lo, hi), bounds) ((inside, is, lt), asks) met =
      scatter-Met before start u run rest _ bounds asks (
        put_row-Inv (λ r. r.row) (λ r. r.output_index) row_bytes file base wanted n before out r
          (run ++ rest) start u _ met inside is lo hi
          (ap (λ m. take m (content file (base + start * row_bytes) (u * row_bytes)))
              (sym (length-content file _ _))
            ∙ take-length _))

  -- Why a block is not read.
  abbrev pub Explains : Failure → Type 0
  Explains short = RunsOut pread
  Explains (os_error e) = Refuses pread e
  Explains too_far = long_max < base + total * row_bytes
  Explains _ = ⊥

  abbrev BlockRead : ℕ → ℕ → Block → Type 0
  BlockRead start u (block bytes time calls) =
      bytes ≡ content file (base + start * row_bytes) (u * row_bytes)
  BlockRead start u (broken e) = Explains e

  block_of-BlockRead :
      (start u : ℕ) (f : Filled)
      → Fills pread file (base + start * row_bytes) (u * row_bytes) f
      → BlockRead start u (block_of f)
  block_of-BlockRead start u (filled bytes time calls) h = h
  block_of-BlockRead start u (failed e) h = h
  block_of-BlockRead start u ended h = h
  block_of-BlockRead start u unfinished h = absurd h

  module _ (start u : ℕ) (inside : start + u ≤ total) (some_rows : 1 ≤ u) (few : u ≤ n) where
    abbrev len : ℕ
    len = u * row_bytes

    len-bounds : (len ≤ n * row_bytes) × (start * row_bytes + len ≤ total * row_bytes)
    len-bounds = (
      mul_le u n row_bytes few,
      omega (arith, mul_add start u row_bytes, mul_le (start + u) total row_bytes inside),
    )

    len-pos : 1 ≤ row_bytes → 1 ≤ len
    len-pos pos_bytes = omega (
      arith,
      mul_le 1 u row_bytes some_rows,
      pos_bytes,
      (let z : 1 * row_bytes ≡ row_bytes = omega arith in z),
    )

    -- The test that the block ends below 2 ^ 63.
    fully-BlockRead :
        (time calls : ℕ)
        → 1 ≤ row_bytes
        → base + start * row_bytes ≤ long_max
        → BlockRead start u
            (block_or (read_fully pread rounds time len (base + start * row_bytes) calls))
    unfolding read_fully
    fully-BlockRead time calls pos_bytes low =
        elim (Bool-cases
          (not (len == 0) && ltb (sub64 long_max (sub64 len 1)) (base + start * row_bytes))) [
            | inl far ↦ rw far (ground (arith, len-bounds, len-pos pos_bytes, fit))
            | inr near ↦
                let ends : base + start * row_bytes + len ≤ long_max + 1 =
                  ground (arith, len-bounds, len-pos pos_bytes, fit) in
                rw near (
                  block_of-BlockRead start u _ (
                    fill_start-Fills pread file reads k calm (base + start * row_bytes) len
                      (omega (arith, ends)) rounds time calls
                      (omega (arith, enough, mul_le len (n * row_bytes) (k + 1) (len-bounds.0)))))
          ]

    read_block-BlockRead :
        (room time calls : ℕ)
        → len ≤ room
        → base + start * row_bytes ≤ long_max
        → BlockRead start u
            (read_block pread rounds base row_bytes room len (base + start * row_bytes) time calls)
    unfolding read_block
    read_block-BlockRead room time calls fits low = elim (Bool-cases (row_bytes == 0)) [
      | inl first ↦
          let none_at_all : len ≡ 0 =
            ap (λ b. u * b) (let z : row_bytes ≡ 0 = ground arith in z) ∙ omega arith in
          rw first (sym (ap (content file (base + start * row_bytes)) none_at_all))
      | inr later ↦
          let h : ltb room len ≡ false = ground (arith, fits) in
          rw later (rw h (fully-BlockRead time calls (ground arith) low))
    ]

  -- The rows are in their places, or a block was not read.
  abbrev pub Delivers : (ℕ → ℕ) → Rows → Type 0
  Delivers before (rows_read out calls sum) =
      ((i j : ℕ)
        → i < n
        → j < row_bytes
        → out (i * row_bytes + j) ≡ file (base + wanted i * row_bytes + j))
      × ((p : ℕ) → n * row_bytes ≤ p → out p ≡ before p)
  Delivers before no_rows = ⊥
  Delivers before (failure e) = Explains e

  module _ (room left : ℕ) (a : RowRequest) (requests : List RowRequest) (time calls sum : ℕ)
      (out : ℕ → ℕ) where
    abbrev rest : List RowRequest
    rest = (split_run a requests).1

    abbrev run : List RowRequest
    run = a ∷ (split_run a requests).0

    abbrev block_size : ℕ
    block_size = mul64 (unique a requests) row_bytes

    abbrev with_block : Block → Rows
    with_block (broken e) = failure e
    with_block (block bytes time' calls') =
        read_blocks pread rounds base row_bytes left room rest time' calls' (add64 sum block_size)
          (scatter row_bytes (a.row) bytes run out)

    abbrev with_offset : Option ℕ → Rows
    with_offset none = failure too_far
    with_offset (some offset) =
        with_block (read_block pread rounds base row_bytes room block_size offset time calls)

    round_lem :
        read_blocks pread rounds base row_bytes (suc left) room (a ∷ requests) time calls sum out
        ≡ with_offset (checked_offset base (a.row) row_bytes)
    unfolding read_blocks
    round_lem = go (checked_offset base (a.row) row_bytes)
      where
        at_block :
            (b : Block)
            → (elim b [
              | broken e ↦ failure e
              | block bytes time' calls' ↦
                  read_blocks pread rounds base row_bytes left room rest time' calls'
                    (add64 sum block_size)
                    (scatter row_bytes (a.row) bytes run out)
            ])
              ≡ with_block b
        at_block (broken e) = refl
        at_block (block bytes time' calls') = refl

        go :
            (o : Option ℕ)
            → (elim o [
              | none ↦ failure too_far
              | some offset ↦
                  elim (read_block pread rounds base row_bytes room block_size offset time calls) [
                    | broken e ↦ failure e
                    | block bytes time' calls' ↦
                        read_blocks pread rounds base row_bytes left room rest time' calls'
                          (add64 sum block_size)
                          (scatter row_bytes (a.row) bytes run out)
                  ]
            ])
              ≡ with_offset o
        go none = refl
        go (some offset) =
            at_block (read_block pread rounds base row_bytes room block_size offset time calls)

  Asks-below : (requests : List RowRequest) → All Asks requests → All (λ r. r.row < total) requests
  Asks-below [] all = tt
  Asks-below (r ∷ requests) ((inside, is, lt), all) = (lt, Asks-below requests all)

  blocks_none :
      (room left time calls sum : ℕ) (out : ℕ → ℕ)
      → read_blocks pread rounds base row_bytes (suc left) room [] time calls sum out
        ≡ rows_read out calls sum
  unfolding read_blocks
  blocks_none room left time calls sum out = refl

  Met-Delivers :
      (before out : ℕ → ℕ) (calls sum : ℕ)
      → Met before out []
      → Delivers before (rows_read out calls sum)
  Met-Delivers before out calls sum met =
      (λ i j lt. elim (met.each i lt) [ inl right ↦ right j | inr any ↦ absurd any ], met.behind)

  fit_word : n * row_bytes < word
  fit_word = omega (arith, fit)

  pub read_blocks-Delivers :
      (before : ℕ → ℕ) (room left f m : ℕ) (requests : List RowRequest) (time calls sum : ℕ)
      (out : ℕ → ℕ)
      → length requests < left
      → length requests ≤ f
      → length requests ≤ n
      → max_block_from f row_bytes requests m ≡ some room
      → All Asks requests
      → Met before out requests
      → Delivers before
          (read_blocks pread rounds base row_bytes left room requests time calls sum out)
  read_blocks-Delivers before room zero f m requests time calls sum out lt deep few found asks met =
      absurd (omega arith)
  read_blocks-Delivers before room (suc left) f m [] time calls sum out lt deep few found asks met =
      subst (Delivers before) (sym (blocks_none room left time calls sum out))
        (Met-Delivers before out calls sum met)
  read_blocks-Delivers before room (suc left) zero m (a ∷ requests) time calls sum out lt deep few
        found asks met =
      absurd (omega arith)
  read_blocks-Delivers before room (suc left) (suc f) m (a ∷ requests) time calls sum out lt deep
        few found (ask, asks) met =
      let (fits, (m', found')) =
        max_block-step f row_bytes a requests m n room few fit_word found in
      subst (Delivers before) (sym (round_lem room left a requests time calls sum out)) (
        at_offset (checked_offset base (a.row) row_bytes) refl fits
          (λ (time' calls' sum' : ℕ) (out' : ℕ → ℕ).
            read_blocks-Delivers before room left f m' (split_run a requests).1 time' calls' sum'
              out' (omega (arith, lt, length-rest a requests))
              (omega (arith, deep, length-rest a requests))
              (omega (arith, few, length-rest a requests)) found'
              (split_run-All Asks a requests asks).1))
    where
      at_block :
          (b : Block)
          → BlockRead (a.row) (unique a requests) b
          → ((time' calls' sum' : ℕ) (out' : ℕ → ℕ)
              → Met before out' (split_run a requests).1
              → Delivers before (
                  read_blocks pread rounds base row_bytes left room
                    (split_run a requests).1
                    time'
                    calls'
                    sum'
                    out'))
          → Delivers before (with_block room left a requests time calls sum out b)
      at_block (broken e) h rec = h
      at_block (block bytes time' calls') h rec = rec time' calls' _ _ (
          subst
            (λ b.
              Met before (scatter row_bytes (a.row) b (a ∷ (split_run a requests).0) out)
                (split_run a requests).1)
            (sym h)
            (scatter-Met before (a.row) (unique a requests) (a ∷ (split_run a requests).0)
              (split_run a requests).1 out (run-bounds a requests).2
              (ask, (split_run-All Asks a requests asks).0)
              (subst (λ l. Met before out (a ∷ l)) (sym (split_run-append a requests)) met)))

      at_offset :
          (o : Option ℕ)
          → checked_offset base (a.row) row_bytes ≡ o
          → mul64 (unique a requests) row_bytes ≤ room
          → ((time' calls' sum' : ℕ) (out' : ℕ → ℕ)
              → Met before out' (split_run a requests).1
              → Delivers before (
                  read_blocks pread rounds base row_bytes left room
                    (split_run a requests).1
                    time'
                    calls'
                    sum'
                    out'))
          → Delivers before (with_offset room left a requests time calls sum out o)
      at_offset none e fits rec = elim (dec_le (base + a.row * row_bytes) long_max) [
        | yes low ↦ absurd (
            cc (
              e,
              (checked_offset_iff base (a.row) row_bytes (base + a.row * row_bytes) small).1
                  (refl, low),
            ))
        | no high ↦ omega (arith, high, mul_le (a.row) total row_bytes (omega (arith, ask.2)))
      ]
      at_offset (some offset) e fits rec =
          let (is, low) = (checked_offset_iff base (a.row) row_bytes offset small).0 e in
          let (some_rows, many, _) = run-bounds a requests in
          let inside = run-limit a requests total (ask.2) (Asks-below requests asks) in
          let u_few : unique a requests ≤ n = omega (arith, many, few) in
          let size : mul64 (unique a requests) row_bytes ≡ unique a requests * row_bytes =
            omega (arith, mul_le (unique a requests) n row_bytes u_few, fit) in
          at_block
            (read_block pread rounds base row_bytes room (mul64 (unique a requests) row_bytes)
              offset time calls)
            (subst
              (λ l.
                BlockRead (a.row) (unique a requests)
                  (read_block pread rounds base row_bytes room l offset time calls))
              (sym size)
              (subst
                (λ o. BlockRead (a.row) (unique a requests) (
                  read_block pread rounds base row_bytes room (unique a requests * row_bytes) o time
                    calls))
                (sym is)
                (read_block-BlockRead (a.row) (unique a requests) inside some_rows u_few room time
                  calls (omega (arith, size, fits)) (omega (arith, is, low)))))
            rec
