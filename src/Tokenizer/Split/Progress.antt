-- ===== src/Tokenizer/Split/Progress.antt =====
-- How far a pre-token of c/src/tokenizer.c reaches.
use qwen3_8_flash_next.Base.{
  ℕ, zero, suc, ◌+◌, ◌-◌, ◌≤◌, ◌<◌, ◌≡◌, refl, sym, ap, ◌∙◌, arith, Bool, true, false, ◌||◌, ◌&&◌,
  Option, none, some, List, ◌==◌, ltb, leb, if◌then◌else◌, Bool-cases, inl, inr, ◌⊎◌,
}
use qwen3_8_flash_next.Tokenizer.Split.{
  Chars, CharClass, byte_at, is_continuation, is_newline, next_cp, newlines_from, newline_run,
  walk_back, cls_at, run_from, wordlike, punctuation, spacelike, letter_run, punct_run, space_run,
  contraction, word, digit, punct, last_newline, trailing, spaces, pretoken_end,
}

pub next_cp-bounds :
    (s : List ℕ) (len p : ℕ) → p < len → (p < next_cp s len p) × (next_cp s len p ≤ len)
unfolding next_cp
next_cp-bounds s len p lt = ground arith

-- A byte below 128 is a character.
pub next_cp-ascii : (s : List ℕ) (len p : ℕ) → p < len → byte_at s p < 128 → next_cp s len p ≡ p + 1
unfolding next_cp
next_cp-ascii s len p lt small = ground arith

newlines_from-bounds :
    (left : ℕ) (s : List ℕ) (len q : ℕ)
    → q ≤ len
    → (q ≤ newlines_from left s len q) × (newlines_from left s len q ≤ len)
unfolding newlines_from
newlines_from-bounds zero s len q le = (omega arith, le)
newlines_from-bounds (suc left) s len q le =
    elim (Bool-cases (ltb q len && is_newline (byte_at s q))) [
      | inr stop ↦ rw stop (omega arith, le)
      | inl go ↦
          let (lo, hi) = newlines_from-bounds left s len (q + 1) (ground arith) in
          rw go (omega (arith, lo), hi)
    ]

pub newline_run-bounds :
    (s : List ℕ) (len q : ℕ) → q ≤ len → (q ≤ newline_run s len q) × (newline_run s len q ≤ len)
unfolding newline_run
newline_run-bounds s len q le = newlines_from-bounds (len - q) s len q le

newline_run-step :
    (s : List ℕ) (len q : ℕ) → q < len → is_newline (byte_at s q) ≡ true → q < newline_run s len q
unfolding newline_run newlines_from
newline_run-step s len q lt nl = go (len - q) refl
  where
    go : (left : ℕ) → len - q ≡ left → q < newlines_from (len - q) s len q
    go zero e = absurd (omega arith)
    go (suc left) e =
        let (lo, _) = newlines_from-bounds left s len (q + 1) (omega arith) in
        let h : (ltb q len && is_newline (byte_at s q)) ≡ true = ground arith in
        rw e (rw h (omega (arith, lo)))

walk_back-le : (s : List ℕ) (i k : ℕ) → i ≤ k → (i ≤ walk_back s i k) × (walk_back s i k ≤ k)
unfolding walk_back
walk_back-le s i zero le = (le, omega arith)
walk_back-le s i (suc k) le =
    elim (Bool-cases (ltb i (suc k) && is_continuation (byte_at s (suc k)))) [
      | inr stop ↦ rw stop (le, omega arith)
      | inl go ↦ let (lo, hi) = walk_back-le s i k (ground arith) in rw go (lo, omega (arith, hi))
    ]

walk_back-stays :
    (s : List ℕ) (i k : ℕ) → is_continuation (byte_at s k) ≡ false → walk_back s i k ≡ k
unfolding walk_back
walk_back-stays s i zero h = refl
walk_back-stays s i (suc k) h =
    let h' : (ltb i (suc k) && is_continuation (byte_at s (suc k))) ≡ false = ground arith in
    rw h' refl

module _ (cs : Chars) (s : List ℕ) (len : ℕ) where
  -- What a run is: it ends at `q`, behind characters of the class, the last of them at `last`.
  pub record Ran (more : CharClass → Bool) (p q : ℕ) : Type 0 where
    pub lower : p ≤ q
    pub upper : q ≤ len
    pub stops : (q ≡ len) ⊎ (more (cls_at cs s len q) ≡ false)
    pub moved :
        (p ≡ q)
        ⊎ ((more (cls_at cs s len p) ≡ true)
            × ((last : ℕ) × (p ≤ last)
                × (last < q)
                × (more (cls_at cs s len last) ≡ true)
                × (next_cp s len last ≡ q)))

  pub run_from-Ran :
      (more : CharClass → Bool) (left p : ℕ)
      → p ≤ len
      → len ≤ p + left
      → Ran more p (run_from cs s len more left p)
  unfolding run_from
  run_from-Ran more zero p le enough = record {
    lower = omega arith;
    upper = le;
    stops = inl (omega arith);
    moved = inl refl;
  }
  run_from-Ran more (suc left) p le enough =
      elim (Bool-cases (ltb p len && more (cls_at cs s len p))) [
        | inr stop ↦ rw stop (record {
          lower = omega arith;
          upper = le;
          stops = elim (Bool-cases (ltb p len)) [
            | inl lt ↦ inr (ground arith)
            | inr ge ↦ inl (ground arith)
          ];
          moved = inl refl;
        })
        | inl go ↦
            let (lo, hi) = next_cp-bounds s len p (ground arith) in
            let is_more : more (cls_at cs s len p) ≡ true = ground arith in
            let r = run_from-Ran more left (next_cp s len p) hi (omega (arith, lo)) in
            rw go (record {
              lower = omega (arith, lo, r.lower);
              upper = r.upper;
              stops = r.stops;
              moved = inr (
                is_more,
                elim r.moved [
                  | inl here ↦ (p, omega arith, omega (arith, lo, here), is_more, here)
                  | inr (_, (last, from, before, h, e)) ↦
                      (last, omega (arith, lo, from), before, h, e)
                ],
              );
            })
      ]

  letter_run-Ran : (p : ℕ) → p ≤ len → Ran wordlike p (letter_run cs s len p)
  unfolding letter_run
  letter_run-Ran p le = run_from-Ran wordlike (len - p) p le (omega arith)

  punct_run-Ran : (p : ℕ) → p ≤ len → Ran punctuation p (punct_run cs s len p)
  unfolding punct_run
  punct_run-Ran p le = run_from-Ran punctuation (len - p) p le (omega arith)

  pub space_run-Ran : (p : ℕ) → p ≤ len → Ran spacelike p (space_run cs s len p)
  unfolding space_run
  space_run-Ran p le = run_from-Ran spacelike (len - p) p le (omega arith)

  Ran-step :
      (more : CharClass → Bool) (p q : ℕ)
      → p < len
      → more (cls_at cs s len p) ≡ true
      → Ran more p q
      → p < q
  Ran-step more p q lt h r = elim r.moved [
    | inl here ↦ elim r.stops [
      | inl end ↦ omega (arith, here, end)
      | inr stop ↦ absurd (cc (sym h ∙ ap (λ w. more (cls_at cs s len w)) here ∙ stop))
    ]
    | inr (_, (last, from, before, _, _)) ↦ omega (arith, from, before)
  ]

  -- What an alternative matches is not empty and lies in the text.
  abbrev Matched : ℕ → Option ℕ → Type 0
  Matched i none = Unit
  Matched i (some e) = (i < e) × (e ≤ len)

  Matched-if :
      (i e : ℕ) (b : Bool)
      → (b ≡ true → (i < e) × (e ≤ len))
      → Matched i (if b then some e else none)
  Matched-if i e true h = h refl
  Matched-if i e false h = tt

  contraction-Matched : (i : ℕ) → i < len → Matched i (contraction cs s len i)
  unfolding contraction
  contraction-Matched i lt = elim (Bool-cases (byte_at s i == 39 && ltb (i + 1) len)) [
    | inr other ↦ rw other tt
    | inl quote ↦
        rw quote
          (go (cs.to_lower (byte_at s (i + 1))) (cs.to_lower (byte_at s (i + 2))) (ground arith))
  ]
    where
      go :
          (a b : ℕ)
          → i + 1 < len
          → Matched i (
              if a == 115 || a == 116 || a == 109 || a == 100
              then some (i + 2)
              else if ltb (i + 2) len
                  && (a == 114 && b == 101 || a == 118 && b == 101 || a == 108 && b == 108)
              then some (i + 3)
              else none)
      go a b le = elim (Bool-cases (a == 115 || a == 116 || a == 109 || a == 100)) [
        | inl short ↦ rw short (omega arith, omega arith)
        | inr long ↦ rw long (
            Matched-if i (i + 3)
              (ltb (i + 2) len
                && (a == 114 && b == 101 || a == 118 && b == 101 || a == 108 && b == 108))
              (λ h. (omega arith, ground arith)))
      ]

  word-Matched : (i : ℕ) → i < len → Matched i (word cs s len i)
  unfolding word
  word-Matched i lt = elim (Bool-cases (wordlike (cls_at cs s len i))) [
    | inl is_word ↦
        let r = letter_run-Ran i (omega arith) in
        rw is_word (Ran-step wordlike i _ lt is_word r, r.upper)
    | inr other ↦ rw other (
        Matched-if i _ _ (λ h.
          let next = next_cp s len i in
          let (lo, hi) = next_cp-bounds s len i lt in
          let r = letter_run-Ran next hi in (omega (arith, lo, r.lower), r.upper)))
  ]

  digit-Matched : (i : ℕ) → i < len → Matched i (digit cs s len i)
  unfolding digit
  digit-Matched i lt = Matched-if i _ _ (λ _. next_cp-bounds s len i lt)

  punct-Matched : (i : ℕ) → i < len → Matched i (punct cs s len i)
  unfolding punct
  punct-Matched i lt = Matched-if i _ _ (λ h.
      let p = if byte_at s i == 32 then i + 1 else i in
      let start : (i ≤ p) × (p ≤ len) = ground arith in
      let r = punct_run-Ran p start.1 in
      let (lo, hi) = newline_run-bounds s len (punct_run cs s len p) r.upper in
      (ground (arith, start.0, lo), hi))

  -- An end of a pre-token: 0 where nothing matches.
  abbrev pub Ahead : ℕ → ℕ → Type 0
  Ahead i e = (e ≡ 0) ⊎ ((i < e) × (e ≤ len))

  last_newline-cases :
      (left q last : ℕ)
      → (last_newline cs s len left q last ≡ last)
        ⊎ ((q < last_newline cs s len left q last) × (last_newline cs s len left q last ≤ len))
  unfolding last_newline
  last_newline-cases zero q last = inl refl
  last_newline-cases (suc left) q last =
      elim (Bool-cases (ltb q len && (cls_at cs s len q).space)) [
        | inr stop ↦ rw stop (inl refl)
        | inl go ↦ elim (Bool-cases (is_newline (byte_at s q))) [
          | inl nl ↦
              let r = newline_run s len q in
              let lt : q < len = ground arith in
              let step = newline_run-step s len q lt nl in
              let (_, hi) = newline_run-bounds s len q (omega arith) in
              rw go (
                rw nl (elim (last_newline-cases left r r) [
                  | inl same ↦ inr (omega (arith, same, step), omega (arith, same, hi))
                  | inr (lo, le) ↦ inr (omega (arith, lo, step), le)
                ]))
          | inr other ↦
              let (step, _) = next_cp-bounds s len q (ground arith) in
              rw go (
                rw other (elim (last_newline-cases left (next_cp s len q) last) [
                  | inl same ↦ inl same
                  | inr (lo, le) ↦ inr (omega (arith, lo, step), le)
                ]))
        ]
      ]

  -- Each white space of the text is a byte below 128.
  abbrev pub IsPlain : Type 0
  IsPlain = (p : ℕ) → p < len → (cls_at cs s len p).space ≡ true → byte_at s p < 128

  trailing-Ahead :
      IsPlain → (i : ℕ) → i < len → (cls_at cs s len i).space ≡ true → Ahead i (trailing cs s len i)
  unfolding trailing
  trailing-Ahead plain i lt h = elim (Bool-cases (leb len (space_run cs s len i))) [
    | inl end ↦ rw end (inr (ground arith, r.upper))
    | inr inside ↦ rw inside (elim (Bool-cases (ltb 1 (space_run cs s len i - i))) [
      | inr short ↦ rw short (inl refl)
      | inl long ↦ rw long (rw stays (inr (ground arith, omega (arith, r.upper))))
    ])
  ]
    where
      r : Ran spacelike i (space_run cs s len i)
      r = space_run-Ran i (omega arith)

      stays : walk_back s i (space_run cs s len i - 1) ≡ space_run cs s len i - 1
      stays = elim r.moved [
        | inl here ↦
            let step = Ran-step spacelike i (space_run cs s len i) lt h r in
            absurd (omega (arith, here, step))
        | inr (_, (last, from, before, is_space, next)) ↦
            let small = plain last (omega (arith, before, r.upper)) is_space in
            let is_last : space_run cs s len i - 1 ≡ last =
              omega
                (arith, next, next_cp-ascii s len last (omega (arith, before, r.upper)) small) in
            walk_back-stays s i _ (rw is_last (ground (arith, small)))
      ]

  spaces-Ahead : IsPlain → (i : ℕ) → i < len → Ahead i (spaces cs s len i)
  unfolding spaces
  spaces-Ahead plain i lt = elim (Bool-cases (cls_at cs s len i).space) [
    | inr other ↦ rw other (inl refl)
    | inl is_space ↦ rw is_space (elim (Bool-cases (last_newline cs s len (len - i) i 0 == 0)) [
      | inl none_found ↦ rw none_found (trailing-Ahead plain i lt is_space)
      | inr has ↦
          rw has (elim (last_newline-cases (len - i) i 0) [ inl same ↦ inl same | inr h ↦ inr h ])
    ])
  ]

  -- At a place inside a text in which each white space is a byte below 128, pretoken_end returns
  -- 0 or an end behind the place and not behind the end of the text.
  pub pretoken_end-Ahead : IsPlain → (i : ℕ) → i < len → Ahead i (pretoken_end cs s len i)
  unfolding pretoken_end
  pretoken_end-Ahead plain i lt = first (contraction cs s len i) (contraction-Matched i lt) (
      first (word cs s len i) (word-Matched i lt) (
        first (digit cs s len i) (digit-Matched i lt)
          (first (punct cs s len i) (punct-Matched i lt) (spaces-Ahead plain i lt))))
    where
      first :
          (o : Option ℕ) {other : ℕ}
          → Matched i o
          → Ahead i other
          → Ahead i (elim o [ some e ↦ e | none ↦ other ])
      first none m h = h
      first (some e) m h = inr m
