-- ===== src/Reader/Rows/Outcome.antt =====
-- `read_rows_impl` of c/src/reader.c as a whole.
use qwen3_8_flash_next.Base.{
  ◌⊎◌, ℕ, zero, suc, ◌+◌, ◌-◌, ◌*◌, ◌≤◌, ◌<◌, ◌≡◌, refl, sym, ap, ◌∙◌, subst, arith, Bool, true,
  false, List, [], ◌∷◌, ◌==◌, ltb, if◌then◌else◌, length, take, get_or, add64, mul64, word, All,
  Any, Bool-cases, inl, inr,
}
use qwen3_8_flash_next.Gather.Right.{Inv, put_row-Inv, put_row_behind, mul_add, mul_le}
use qwen3_8_flash_next.Pread.Fill.{content, Reads, IsCalm, Refuses, RunsOut}
use qwen3_8_flash_next.Pread.{Pread, Filled, filled, failed, ended, unfinished}
use qwen3_8_flash_next.Reader.Rows.Fill.{Holds, Fills, fill_start-Fills}
use qwen3_8_flash_next.Reader.Rows.Order.{
  row, Ascends, sorted_order-Ascends, sorted_order-All, sorted_order-Any, length-sorted_order,
  All-map,
}
use qwen3_8_flash_next.Reader.Rows.Runs.{
  drop_below, drop_below-All, drop_below-Ascends, length-drop_below, Run, head_run-Run,
  scatter_leaves,
}
use qwen3_8_flash_next.Reader.Rows.Largest.{max_run-ge, max_run-step}
use qwen3_8_flash_next.Reader.Rows.{
  Status, done, error, short, no_memory, overflow, unending, run_from, max_run_from, scatter,
  sorted_order, fill_block, read_runs, read_rows_impl,
}

module _ (pread : Pread) (file : ℕ → ℕ) (reads : Reads pread file) (k : ℕ) (calm : IsCalm pread k)
    (rounds base row_bytes : ℕ) (rows : List ℕ) (limit : ℕ) (below : All (λ r. r < limit) rows)
    (inside : base + limit * row_bytes < word)
    (enough : length rows * row_bytes * (k + 1) + k < rounds) where
  abbrev n : ℕ
  n = length rows

  -- Every place has its row, or an index that is left has it.
  abbrev Met : (ℕ → ℕ) → (ℕ → ℕ) → List ℕ → Type 0
  Met = Inv (row rows) (λ o. o) row_bytes file base (row rows) n

  scatter-Met :
      (before : ℕ → ℕ) (start expect : ℕ) (block : List ℕ) (order : List ℕ) (out : ℕ → ℕ)
      → take ((expect - start) * row_bytes) block
        ≡ content file (base + start * row_bytes) ((expect - start) * row_bytes)
      → start ≤ expect
      → All (λ p. start ≤ row rows p) order
      → All (λ p. p < n) order
      → Met before out order
      → Met before
          (scatter rows row_bytes start expect block order out).0
          (scatter rows row_bytes start expect block order out).1
  unfolding scatter
  scatter-Met before start expect block [] out holds le from within met = met
  scatter-Met before start expect block (r ∷ order) out holds le (lo, from) (lt, within) met =
      elim (Bool-cases (ltb (row rows r) expect)) [
        | inr stop ↦ rw stop met
        | inl more ↦ rw more (
            scatter-Met before start expect block order _ holds le from within (
              put_row-Inv (row rows) (λ o. o) row_bytes file base (row rows) n before out r order
                start (expect - start) block met lt refl lo (ground arith) holds))
      ]

  -- Nothing behind the last place is touched.
  abbrev Kept : (ℕ → ℕ) → (ℕ → ℕ) → Type 0
  Kept before out = (p : ℕ) → n * row_bytes ≤ p → out p ≡ before p

  scatter-Kept :
      (before : ℕ → ℕ) (start expect : ℕ) (block order : List ℕ) (out : ℕ → ℕ)
      → All (λ p. p < n) order
      → Kept before out
      → Kept before (scatter rows row_bytes start expect block order out).0
  unfolding scatter
  scatter-Kept before start expect block [] out within kept = kept
  scatter-Kept before start expect block (r ∷ order) out (lt, within) kept =
      elim (Bool-cases (ltb (row rows r) expect)) [
        | inr stop ↦ rw stop kept
        | inl more ↦ rw more (
            scatter-Kept before start expect block order _ within (λ p le.
              put_row_behind (row rows) (λ o. o) row_bytes file base (row rows) n out r start block
                p lt le
              ∙ kept p le))
      ]

  -- The number of the runs of consecutive rows in an order.
  abbrev pub runs_from : ℕ → List ℕ → ℕ
  unfolding run_from
  runs_from zero order = 0
  runs_from (suc f) [] = 0
  runs_from (suc f) (o ∷ order) =
      suc (runs_from f (run_from (suc (length order)) rows (o ∷ order) (row rows o)).0)

  abbrev pub runs : ℕ
  runs = runs_from n (sorted_order rows)

  -- The rows are in their places, unless there were more calls than runs.
  abbrev State : (ℕ → ℕ) → (ℕ → ℕ) → List ℕ → ℕ → ℕ → Type 0
  State before out order r calls =
      ((calls ≡ r) × Met before out order) ⊎ ((r < calls) × Kept before out)

  -- What `read_rows_impl` does: the requests are met, unless a run took more than one call that read
  -- some bytes; or a call was refused or read nothing; or there is no memory.
  abbrev pub Outcome : (ℕ → Bool) → (ℕ → ℕ) → Status → Type 0
  Outcome allocates before (done out calls total) =
      (((i j : ℕ)
          → i < n
          → j < row_bytes
          → out (i * row_bytes + j) ≡ file (base + row rows i * row_bytes + j))
        ⊎ (runs < calls))
      × ((p : ℕ) → n * row_bytes ≤ p → out p ≡ before p)
  Outcome allocates before (error e) = Refuses pread e
  Outcome allocates before short = RunsOut pread
  Outcome allocates before no_memory = (m : ℕ) × (allocates m ≡ false)
  Outcome allocates before overflow = ⊥
  Outcome allocates before unending = ⊥

  State-done :
      (allocates : ℕ → Bool) (before out : ℕ → ℕ) (calls total r : ℕ)
      → r ≡ runs
      → State before out [] r calls
      → Outcome allocates before (done out calls total)
  State-done allocates before out calls total r e (inl (is, met)) = (
    inl (λ i j lt. elim (met.each i lt) [ inl right ↦ right j | inr any ↦ absurd any ]),
    met.behind,
  )
  State-done allocates before out calls total r e (inr (more, kept)) =
      (inr (omega (arith, e, more)), kept)

  row-limit : (p : ℕ) → p < n → row rows p < limit
  row-limit p lt = go rows p below lt
    where
      go : (rs : List ℕ) (p : ℕ) → All (λ r. r < limit) rs → p < length rs → get_or rs p 0 < limit
      go [] p all lt = absurd (omega arith)
      go (r ∷ rs) zero (h, all) lt = h
      go (r ∷ rs) (suc p) (h, all) lt = go rs p all (omega arith)

  module _ (room left o : ℕ) (old : List ℕ) (order : List ℕ) (time calls total : ℕ)
      (out : ℕ → ℕ) where
    abbrev first : ℕ
    first = row rows o

    abbrev expect : ℕ
    expect = (run_from (suc (length order)) rows (o ∷ order) first).1

    abbrev run_bytes : ℕ
    run_bytes = mul64 (expect - first) row_bytes

    abbrev filling : Filled
    filling =
        fill_block pread rounds time (add64 base (mul64 first row_bytes)) run_bytes 0 old calls

    abbrev scattered : List ℕ → (ℕ → ℕ) × List ℕ
    scattered block = scatter rows row_bytes first expect block (o ∷ order) out

    -- What a round does with what the calls read.
    abbrev next : Filled → Status
    next (failed e) = error e
    next ended = short
    next unfinished = unending
    next (filled block time' calls') =
        read_runs pread rounds base row_bytes rows left room block (scattered block).1 time' calls'
          (add64 total run_bytes) (scattered block).0

    round_lem :
        ltb room run_bytes ≡ false
        → read_runs pread rounds base row_bytes rows
            (suc left)
            room
            old
            (o ∷ order)
            time
            calls
            total
            out
          ≡ next filling
    unfolding read_runs
    round_lem h = rw (h, read_runs) (go filling)
      where
        go :
            (f : Filled)
            → (elim f [
              | failed e ↦ error e
              | ended ↦ short
              | unfinished ↦ unending
              | filled block time' calls' ↦
                  let (out', rest) = scatter rows row_bytes first expect block (o ∷ order) out in
                  read_runs pread rounds base row_bytes rows left room block rest time' calls'
                    (add64 total run_bytes)
                    out'
            ])
              ≡ next f
        go (failed e) = refl
        go ended = refl
        go unfinished = refl
        go (filled block time' calls') = refl

    module _ (a : Ascends rows (o ∷ order)) (within : All (λ p. p < n) (o ∷ order))
        (few : length (o ∷ order) ≤ n) where
      at_limit : All (λ p. row rows p < limit) (o ∷ order)
      at_limit = All-map (λ p. p < n) (λ p. row rows p < limit) row-limit (o ∷ order) within

      run :
          Run rows limit
            (suc (length order))
            first
            (o ∷ order)
            (run_from (suc (length order)) rows (o ∷ order) first)
      run = (head_run-Run rows limit o order a at_limit).0

      moved : first < expect
      moved = (head_run-Run rows limit o order a at_limit).1

      stretch : (expect - first) * row_bytes + first * row_bytes ≤ limit * row_bytes
      stretch = omega (
        arith,
        mul_add (expect - first) first row_bytes,
        mul_le (expect - first + first) limit row_bytes
            (omega (arith, moved, (head_run-Run rows limit o order a at_limit).2)),
      )

      no_wrap :
          (run_bytes ≡ (expect - first) * row_bytes)
          × (add64 base (mul64 first row_bytes) ≡ base + first * row_bytes)
      no_wrap = (omega (arith, inside, stretch), omega (arith, inside, stretch))

      filling-Fills :
          0 < row_bytes
          → Fills pread file (base + first * row_bytes) ((expect - first) * row_bytes) calls filling
      filling-Fills some_bytes =
          let bytes = (expect - first) * row_bytes in
          let at = base + first * row_bytes in
          let count : bytes ≤ n * row_bytes =
            mul_le (expect - first) n row_bytes (omega (arith, run.short, few)) in
          let some_len : 0 < bytes = omega (
            arith,
            some_bytes,
            mul_le 1 (expect - first) row_bytes (omega (arith, moved)),
            (let z : 1 * row_bytes ≡ row_bytes = omega arith in z),
          ) in
          subst
            (λ x.
              Fills pread file at bytes calls
                (fill_block pread rounds time x run_bytes 0 old calls))
            (sym (no_wrap.1))
            (subst
              (λ x.
                Fills pread file at bytes calls
                  (fill_block pread rounds time (base + first * row_bytes) x 0 old calls))
              (sym (no_wrap.0))
              (fill_start-Fills pread file reads k calm at bytes (omega (arith, inside, stretch))
                calls rounds time old some_len
                (omega (arith, enough, mul_le bytes (n * row_bytes) (k + 1) count))))

      scattered-Met :
          (before : ℕ → ℕ) (block : List ℕ)
          → take ((expect - first) * row_bytes) block
            ≡ content file (base + first * row_bytes) ((expect - first) * row_bytes)
          → Met before out (o ∷ order)
          → Met before (scattered block).0 (scattered block).1
      scattered-Met before block is met =
          scatter-Met before first expect block (o ∷ order) out is (omega (arith, moved))
            (omega arith, a.0) within met

      scattered-State :
          (before : ℕ → ℕ) (block : List ℕ) (r calls' : ℕ)
          → Holds file (base + first * row_bytes) ((expect - first) * row_bytes) calls block calls'
          → State before out (o ∷ order) r calls
          → State before (scattered block).0 (scattered block).1 (r + 1) calls'
      scattered-State before block r calls' (inl (one, holds)) (inl (is, met)) =
          inl (omega (arith, one, is), scattered-Met before block holds met)
      scattered-State before block r calls' (inr some_more) (inl (is, met)) = inr (
        omega (arith, some_more, is),
        scatter-Kept before first expect block (o ∷ order) out within met.behind,
      )
      scattered-State before block r calls' (inl (one, holds)) (inr (more, kept)) = inr (
        omega (arith, one, more),
        scatter-Kept before first expect block (o ∷ order) out within kept,
      )
      scattered-State before block r calls' (inr some_more) (inr (more, kept)) = inr (
        omega (arith, some_more, more),
        scatter-Kept before first expect block (o ∷ order) out within kept,
      )

      left_over : (block : List ℕ) → (scattered block).1 ≡ drop_below rows expect (o ∷ order)
      left_over block = scatter_leaves rows row_bytes first expect block (o ∷ order) out

      shorter : (block : List ℕ) → length (scattered block).1 ≤ length order
      shorter block =
          let h : ltb first expect ≡ true = ground (arith, moved) in
          let step : drop_below rows expect (o ∷ order) ≡ drop_below rows expect order =
            ap (λ b. if b then drop_below rows expect order else o ∷ order) h in
          omega (arith, ap length (left_over block ∙ step), length-drop_below rows expect order)

      run_leaves :
          (block : List ℕ)
          → (run_from (suc (length order)) rows (o ∷ order) first).0 ≡ (scattered block).1
      run_leaves block = run.leaves ∙ sym (left_over block)

  runs_none :
      (room left : ℕ) (old : List ℕ) (time calls total : ℕ) (out : ℕ → ℕ)
      → read_runs pread rounds base row_bytes rows (suc left) room old [] time calls total out
        ≡ done out calls total
  unfolding read_runs
  runs_none room left old time calls total out = refl

  ended_count : (f r : ℕ) → r + runs_from f [] ≡ runs → r ≡ runs
  unfolding runs_from
  ended_count zero r e = omega (arith, e)
  ended_count (suc f) r e = omega (arith, e)

  read_runs-Outcome :
      (allocates : ℕ → Bool) (before : ℕ → ℕ) (room left f m : ℕ) (old order : List ℕ)
      (time calls total r : ℕ) (out : ℕ → ℕ)
      → 0 < row_bytes
      → r + runs_from f order ≡ runs
      → length order < left
      → length order ≤ f
      → length order ≤ n
      → max_run_from f rows row_bytes order m ≤ room
      → Ascends rows order
      → All (λ p. p < n) order
      → State before out order r calls
      → Outcome allocates before
          (read_runs pread rounds base row_bytes rows left room old order time calls total out)
  unfolding runs_from
  read_runs-Outcome allocates before room zero f m old order time calls total r out some_bytes count
        lt deep few fits a within met =
      absurd (omega arith)
  read_runs-Outcome allocates before room (suc left) f m old [] time calls total r out some_bytes
        count lt deep few fits a within met =
      subst (Outcome allocates before) (sym (runs_none room left old time calls total out))
        (State-done allocates before out calls total r (ended_count f r count) met)
  read_runs-Outcome allocates before room (suc left) zero m old (o ∷ order) time calls total r out
        some_bytes count lt deep few fits a within met =
      absurd (omega arith)
  read_runs-Outcome allocates before room (suc left) (suc f) m old (o ∷ order) time calls total r
        out some_bytes count lt deep few fits a within met =
      let (m', run_fits, rest_fits) = max_run-step f rows row_bytes o order m room fits in
      let within_room : ltb room (run_bytes room left o old order time calls total out) ≡ false =
        ground (
          arith,
          run_fits,
          max_run-ge f rows row_bytes
              (run_from (suc (length order)) rows (o ∷ order) (row rows o)).0 m',
          rest_fits,
        ) in
      subst (Outcome allocates before)
        (sym (round_lem room left o old order time calls total out within_room))
        (go (filling room left o old order time calls total out)
          (filling-Fills room left o old order time calls total out a within few some_bytes) m'
          rest_fits
          (λ (old' order' : List ℕ) (time' calls' total' : ℕ) (out' : ℕ → ℕ)
              (count' : r + 1 + runs_from f order' ≡ runs).
            read_runs-Outcome allocates before room left f m' old' order' time' calls' total'
              (r + 1) out' some_bytes count'))
    where
      go :
          (r' : Filled)
          → Fills pread file
              (base + first room left o old order time calls total out * row_bytes)
              ((expect room left o old order time calls total out
                  - first room left o old order time calls total out)
                * row_bytes)
              calls
              r'
          → (m' : ℕ)
          → max_run_from f rows row_bytes
              (run_from (suc (length order)) rows (o ∷ order) (row rows o)).0
              m'
            ≤ room
          → ((old' order' : List ℕ) (time' calls' total' : ℕ) (out' : ℕ → ℕ)
              → r + 1 + runs_from f order' ≡ runs
              → length order' < left
              → length order' ≤ f
              → length order' ≤ n
              → max_run_from f rows row_bytes order' m' ≤ room
              → Ascends rows order'
              → All (λ p. p < n) order'
              → State before out' order' (r + 1) calls'
              → Outcome allocates before (
                  read_runs pread rounds base row_bytes rows left room old' order' time' calls'
                    total' out'))
          → Outcome allocates before (next room left o old order time calls total out r')
      go (failed e) h m' rest_fits rec = h
      go ended h m' rest_fits rec = h
      go unfinished h m' rest_fits rec = absurd h
      go (filled block time' calls') h m' rest_fits rec =
          let rest = (scattered room left o old order time calls total out block).1 in
          let less = shorter room left o old order time calls total out a within few block in
          let is_rest = left_over room left o old order time calls total out a within few block in
          rec block rest time' calls' _ _
            (omega (
              arith,
              count,
              ap (runs_from f)
                  (run_leaves room left o old order time calls total out a within few block),
            ))
            (omega (arith, lt, less)) (omega (arith, deep, less)) (omega (arith, few, less))
            (subst (λ r. max_run_from f rows row_bytes r m' ≤ room)
              (run_leaves room left o old order time calls total out a within few block) rest_fits)
            (subst (Ascends rows) (sym is_rest) (
              drop_below-Ascends rows (expect room left o old order time calls total out)
                (o ∷ order) a))
            (subst (All (λ p. p < n)) (sym is_rest) (
              drop_below-All rows (λ p. p < n) (expect room left o old order time calls total out)
                (o ∷ order) within))
            (scattered-State room left o old order time calls total out a within few before block r
              calls' h met)

  Outcome-if :
      (allocates : ℕ → Bool) (before : ℕ → ℕ) (b : Bool) (x y : Status)
      → (b ≡ true → Outcome allocates before x)
      → (b ≡ false → Outcome allocates before y)
      → Outcome allocates before (if b then x else y)
  Outcome-if allocates before true x y h h' = h refl
  Outcome-if allocates before false x y h h' = h' refl

  start-Met : (out : ℕ → ℕ) → Met out out (sorted_order rows)
  start-Met out = record {
    each = λ i lt. inr (wanted i (sorted_order rows) (sorted_order-Any rows i lt));
    behind = λ p le. refl;
  }
    where
      wanted :
          (i : ℕ) (order : List ℕ)
          → Any (λ q. q ≡ i) order
          → Any (λ q. (q ≡ i) × (row rows q ≡ row rows i)) order
      wanted i [] any = any
      wanted i (o ∷ order) (inl e) = inl (e, ap (row rows) e)
      wanted i (o ∷ order) (inr any) = inr (wanted i order any)

  -- Where the calls of pread read from the file at the offset, as few bytes as they like, and one
  -- of any k + 1 calls is not interrupted, read_rows_impl of rows below a limit up to which the
  -- tensor's offsets fit into 64 bits ends, for any order and repetition of the rows. If it gives
  -- 0, nothing behind the last place of out has changed, and each place holds the bytes of the
  -- row that was asked for there unless pread was called more often than there are runs of
  -- consecutive rows, as it is where a read was short or interrupted. Else it gives the errno of
  -- a call that was refused, EIO where a call read nothing, or ENOMEM where there is no room. No
  -- read is larger than the block.
  pub read_rows_impl-Outcome :
      (allocates : ℕ → Bool) (fresh : List ℕ) (out : ℕ → ℕ)
      → Outcome allocates out (read_rows_impl pread rounds base row_bytes rows allocates fresh out)
  unfolding read_rows_impl
  read_rows_impl-Outcome allocates fresh out =
      Outcome-if allocates out (n == 0) _ _
        (λ none. (inl (λ i j lt lt'. absurd (ground arith)), λ p le. refl))
        (λ some.
          Outcome-if allocates out (row_bytes == 0) _ _
            (λ none. (inl (λ i j lt lt'. absurd (ground arith)), λ p le. refl))
            (λ some'.
              Outcome-if allocates out (allocates (n * 8)) _ _
                (λ enough_1.
                  Outcome-if allocates out (allocates max_run) _ _
                    (λ enough_2.
                      read_runs-Outcome allocates out max_run (suc n) n row_bytes fresh
                        (sorted_order rows) 0 0 0 0 out (ground arith) (omega arith)
                        (omega (arith, size)) (omega (arith, size)) (omega (arith, size))
                        (omega arith) (sorted_order-Ascends rows) (sorted_order-All rows)
                        (inl (refl, start-Met out)))
                    (λ full. (max_run, full)))
                (λ full. (n * 8, full))))
    where
      max_run : ℕ
      max_run = max_run_from n rows row_bytes (sorted_order rows) row_bytes

      size : length (sorted_order rows) ≡ n
      size = length-sorted_order rows
