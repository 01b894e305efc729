-- ===== src/Tokenizer/Text/Endless.antt =====
-- A text on which `tokenizer_encode` of c/src/tokenizer.c does not end: `pretoken_end` stays where
-- it is on a single white space of several bytes.
use qwen3_8_flash_next.Base.{
  ℕ, zero, suc, ◌+◌, ◌-◌, ◌≤◌, ◌<◌, ◌≡◌, refl, ap, ◌∙◌, arith, Bool, true, false, ◌&&◌, not, none,
  List, [], ◌==◌, ltb, leb, take, drop, Bool-cases, inl, inr,
}
use qwen3_8_flash_next.Tokenizer.Bpe.{
  Tokenizer, stuck, coded, encode_chunk, ids_of, merge_all, ranks_of, merge_loop,
}
use qwen3_8_flash_next.Tokenizer.Split.{
  Chars, CharClass, byte_at, is_continuation, is_newline, next_cp, walk_back, cls_at, run_from,
  wordlike, punctuation, spacelike, punct_run, space_run, contraction, word, digit, punct,
  last_newline, trailing, spaces, pretoken_end,
}
use qwen3_8_flash_next.Tokenizer.Text.Steps.{chunks_next}
use qwen3_8_flash_next.Tokenizer.Text.{slice, append_coded, chunk_end, encode_chunks}

walk_back-start :
    (s : List ℕ) (i k : ℕ)
    → i ≤ k
    → ((j : ℕ) → i < j → j ≤ k → is_continuation (byte_at s j) ≡ true)
    → walk_back s i k ≡ i
unfolding walk_back
walk_back-start s i zero le all = omega arith
walk_back-start s i (suc k) le all = elim (Bool-cases (ltb i (suc k))) [
  | inl more ↦
      let c = all (suc k) (ground arith) (omega arith) in
      let go : (ltb i (suc k) && is_continuation (byte_at s (suc k))) ≡ true = ground arith in
      rw go (walk_back-start s i k (ground arith) (λ j lo hi. all j lo (omega arith)))
  | inr stop ↦
      let go : (ltb i (suc k) && is_continuation (byte_at s (suc k))) ≡ false = ground arith in
      rw go (ground arith)
]

encode_chunk_nil : (t : Tokenizer) (room : ℕ) → encode_chunk t [] room ≡ coded []
unfolding encode_chunk ids_of merge_all ranks_of merge_loop
encode_chunk_nil t room = let h : ltb room 0 ≡ false = ground arith in rw h refl

-- At `i`, behind the start of the text, stands one white space of several bytes that is no letter,
-- mark or digit, and then a character that is none of white space, letter and mark.
pub record IsWide (cs : Chars) (s : List ℕ) (len i : ℕ) : Type 0 where
  pub inside : 0 < i
  pub behind : next_cp s len i < len
  pub lead : 0xC0 ≤ byte_at s i
  pub continued : (j : ℕ) → i < j → j < next_cp s len i → is_continuation (byte_at s j) ≡ true
  pub is_space : (cls_at cs s len i).space ≡ true
  pub is_plain : (cls_at cs s len i).letter ≡ false
  pub is_unmarked : (cls_at cs s len i).mark ≡ false
  pub is_numberless : (cls_at cs s len i).digit ≡ false
  pub then_solid : (cls_at cs s len (next_cp s len i)).space ≡ false
  pub then_wordless : wordlike (cls_at cs s len (next_cp s len i)) ≡ false

module _ (cs : Chars) (s : List ℕ) (len i : ℕ) (w : IsWide cs s len i) where
  abbrev next : ℕ
  next = next_cp s len i

  ahead : (i + 2 ≤ next) × (i < len)
  unfolding next_cp
  ahead = ground (arith, w.lead, w.behind)

  no_word : wordlike (cls_at cs s len i) ≡ false
  no_word = ground (arith, w.is_plain, w.is_unmarked)

  contraction-none : contraction cs s len i ≡ none
  unfolding contraction
  contraction-none =
      let h : (byte_at s i == 39 && ltb (i + 1) len) ≡ false = ground (arith, w.lead) in rw h refl

  word-none : word cs s len i ≡ none
  unfolding word
  word-none =
      let h : (not (is_newline (byte_at s i))
            && not (cls_at cs s len i).letter
            && not (cls_at cs s len i).digit
            && ltb (next_cp s len i) len
            && wordlike (cls_at cs s len (next_cp s len i)))
          ≡ false =
        ground (arith, w.then_wordless) in
      rw no_word (rw h refl)

  digit-none : digit cs s len i ≡ none
  unfolding digit
  digit-none = rw w.is_numberless refl

  run_stops :
      (more : CharClass → Bool) (left p : ℕ)
      → more (cls_at cs s len p) ≡ false
      → run_from cs s len more left p ≡ p
  unfolding run_from
  run_stops more zero p h = refl
  run_stops more (suc left) p h =
      let h' : (ltb p len && more (cls_at cs s len p)) ≡ false = ground arith in rw h' refl

  run_once :
      (more : CharClass → Bool) (left p : ℕ)
      → 0 < left
      → p < len
      → more (cls_at cs s len p) ≡ true
      → more (cls_at cs s len (next_cp s len p)) ≡ false
      → run_from cs s len more left p ≡ next_cp s len p
  unfolding run_from
  run_once more zero p pos lt h stop = absurd (omega arith)
  run_once more (suc left) p pos lt h stop =
      let h' : (ltb p len && more (cls_at cs s len p)) ≡ true = ground arith in
      rw h' (run_stops more left (next_cp s len p) stop)

  punct-none : punct cs s len i ≡ none
  unfolding punct punct_run
  punct-none =
      let h : (byte_at s i == 32) ≡ false = ground (arith, w.lead) in
      let no_punct : punctuation (cls_at cs s len i) ≡ false = ground (arith, w.is_space) in
      let stays : run_from cs s len punctuation (len - i) i ≡ i =
        run_stops punctuation (len - i) i no_punct in
      let h' : ltb i i ≡ false = ground arith in rw h (rw stays (rw h' refl))

  space_run_one : space_run cs s len i ≡ next
  unfolding space_run
  space_run_one =
      run_once spacelike (len - i) i (omega (arith, ahead.1)) (ahead.1) w.is_space w.then_solid

  no_newline_behind : (left : ℕ) → last_newline cs s len left next 0 ≡ 0
  unfolding last_newline
  no_newline_behind zero = refl
  no_newline_behind (suc left) =
      let h : (ltb next len && (cls_at cs s len next).space) ≡ false =
        ground (arith, w.then_solid) in
      rw h refl

  no_newline : (left : ℕ) → last_newline cs s len left i 0 ≡ 0
  unfolding last_newline
  no_newline zero = refl
  no_newline (suc left) =
      let h : (ltb i len && (cls_at cs s len i).space) ≡ true =
        ground (arith, w.is_space, ahead.1) in
      let h' : is_newline (byte_at s i) ≡ false = ground (arith, w.lead) in
      rw h (rw h' (no_newline_behind left))

  trailing_here : trailing cs s len i ≡ i
  unfolding trailing
  trailing_here =
      let h : leb len (space_run cs s len i) ≡ false =
        rw space_run_one (ground (arith, w.behind)) in
      let h' : ltb 1 (space_run cs s len i - i) ≡ true =
        rw space_run_one (ground (arith, ahead.0)) in
      let start : walk_back s i (space_run cs s len i - 1) ≡ i = rw space_run_one (
        walk_back-start s i (next - 1) (omega (arith, ahead.0))
          (λ j lo hi. w.continued j lo (omega (arith, hi, ahead.0)))) in
      rw h (rw h' start)

  spaces_here : spaces cs s len i ≡ i
  unfolding spaces
  spaces_here = rw w.is_space (rw (no_newline (len - i)) trailing_here)

  pretoken_end_here : pretoken_end cs s len i ≡ i
  unfolding pretoken_end
  pretoken_end_here =
      rw (contraction-none, pretoken_end, word-none, digit-none, punct-none, spaces_here)

  chunk_end_here : (t : Tokenizer) → chunk_end cs t s len i ≡ i
  unfolding chunk_end
  chunk_end_here t =
      let h : (i == 0) ≡ false = ground (arith, w.inside) in
      let h' : ltb len i ≡ false = ground (arith, ahead.1) in
      rw pretoken_end_here (rw h (rw h' refl))

  -- At a place behind the start of the text where one white space of several bytes stands,
  -- neither letter, mark nor digit, and then a character that is not white space, a letter or a
  -- mark, the inner loop of tokenizer_encode has not ended after any number of rounds, in every
  -- tokenizer.
  pub encode_chunks-stuck :
      (t : Tokenizer) (fuel room : ℕ) → encode_chunks cs t s fuel len i room ≡ stuck
  unfolding encode_chunks
  encode_chunks-stuck t zero room = refl
  encode_chunks-stuck t (suc fuel) room =
      let here = chunk_end_here t in
      let more : ltb i len ≡ true = ground (arith, ahead.1) in
      let nothing : encode_chunk t (slice s i i) room ≡ coded [] =
        ap (λ n. encode_chunk t (take n (drop i s)) room) (let z : i - i ≡ 0 = omega arith in z)
        ∙ encode_chunk_nil t room in
      chunks_next cs t s fuel len i room [] more
        (ap (λ e. encode_chunk t (slice s i e) room) here ∙ nothing)
      ∙ ap (λ e. append_coded [] (encode_chunks cs t s fuel len e (room - 0))) here
      ∙ ap (append_coded []) (encode_chunks-stuck t fuel (room - 0))
