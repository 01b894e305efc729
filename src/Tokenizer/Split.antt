-- ===== src/Tokenizer/Split.antt =====
-- The pre-tokenization of c/src/tokenizer.c: `cls_at`, `next_cp`, the runs and `pretoken_end`. The
-- text is the list of its bytes, and `byte_at` reads the ending 0 behind them. The functions of
-- ICU and of libc are parameters.
pub mod Progress
use qwen3_8_flash_next.Base.{
  ℕ, zero, suc, ◌+◌, ◌-◌, ◌*◌, ◌/◌, ◌%◌, ◌^◌, bit_or, Bool, true, false, ◌||◌, ◌&&◌, not, Option,
  none, some, List, ◌==◌, ltb, leb, if◌then◌else◌, get_or,
}

-- The types of `u_charType` that the source names.
pub data CharType : Type 0 where
  non_spacing_mark combining_spacing_mark enclosing_mark : CharType
  decimal_digit_number letter_number other_number : CharType
  other_type : CharType

-- `u_charType`, `u_isalpha`, `u_isspace` and `tolower`
pub record Chars : Type 0 where
  pub char_type : ℕ → CharType
  pub is_alpha : ℕ → Bool
  pub is_space : ℕ → Bool
  pub to_lower : ℕ → ℕ

-- `cclass`
pub record CharClass : Type 0 where
  pub letter : Bool
  pub mark : Bool
  pub digit : Bool
  pub space : Bool

abbrev pub is_mark : CharType → Bool
is_mark non_spacing_mark = true
is_mark combining_spacing_mark = true
is_mark enclosing_mark = true
is_mark _ = false

abbrev pub is_digit : CharType → Bool
is_digit decimal_digit_number = true
is_digit letter_number = true
is_digit other_number = true
is_digit _ = false

abbrev pub byte_at : List ℕ → ℕ → ℕ
byte_at s p = get_or s p 0

-- `(b & 0xC0) == 0x80` of a byte
abbrev pub is_continuation : ℕ → Bool
is_continuation b = b / 2 ^ 6 == 2

abbrev pub is_newline : ℕ → Bool
is_newline b = b == 13 || b == 10

-- `for (k = 1; k <= n && p + k < len; k++)`, where `p` is the place of the next byte.
unfoldable pub code_from : ℕ → List ℕ → ℕ → ℕ → ℕ → ℕ
code_from zero s len p cp = cp
code_from (suc n) s len p cp =
    let rest = code_from n s len (p + 1) (bit_or (cp * 2 ^ 6) (byte_at s p % 2 ^ 6)) in
    if ltb p len then rest else cp

abbrev pub more_bytes : ℕ → ℕ
more_bytes b = if leb 0xF0 b then 3 else if leb 0xE0 b then 2 else 1

unfoldable pub code_at : List ℕ → ℕ → ℕ → ℕ
unfolding code_from
code_at s len p =
    let b = byte_at s p in
    let n = more_bytes b in
    if leb 0xC0 b && ltb b 0xF8 && ltb (p + 1) len && is_continuation (byte_at s (p + 1))
    then code_from n s len (p + 1) (b % 2 ^ (7 - n))
    else b

abbrev pub class_of : Chars → ℕ → CharClass
class_of cs cp = record {
  letter = cs.is_alpha cp;
  mark = is_mark (cs.char_type cp);
  digit = is_digit (cs.char_type cp);
  space = cs.is_space cp;
}

unfoldable pub next_cp : List ℕ → ℕ → ℕ → ℕ
next_cp s len p =
    let b = byte_at s p in
    let n = if leb 0xF0 b then 4 else if leb 0xE0 b then 3 else if leb 0xC0 b then 2 else 1 in
    if ltb len (p + n) then len else p + n

-- `while (q < len && (s[q] == '\r' || s[q] == '\n')) q++;` with a unit for each byte that is left.
unfoldable pub newlines_from : ℕ → List ℕ → ℕ → ℕ → ℕ
newlines_from zero s len q = q
newlines_from (suc left) s len q =
    let rest = newlines_from left s len (q + 1) in
    if ltb q len && is_newline (byte_at s q) then rest else q

unfoldable pub newline_run : List ℕ → ℕ → ℕ → ℕ
unfolding newlines_from
newline_run s len q = newlines_from (len - q) s len q

-- `while (k > i && (s[k] & 0xC0) == 0x80) k--;`
unfoldable pub walk_back : List ℕ → ℕ → ℕ → ℕ
walk_back s i zero = zero
walk_back s i (suc k) =
    let before = walk_back s i k in
    if ltb i (suc k) && is_continuation (byte_at s (suc k)) then before else suc k

abbrev pub wordlike : CharClass → Bool
wordlike c = c.letter || c.mark

abbrev pub punctuation : CharClass → Bool
punctuation c = not (c.space || c.letter || c.mark || c.digit)

abbrev pub spacelike : CharClass → Bool
spacelike c = c.space

module _ (cs : Chars) (s : List ℕ) (len : ℕ) where
  unfoldable pub cls_at : ℕ → CharClass
  unfolding code_at
  cls_at p = class_of cs (code_at s len p)

  -- The loop of the three runs, with a unit for each byte that is left.
  unfoldable pub run_from : (CharClass → Bool) → ℕ → ℕ → ℕ
  unfolding cls_at next_cp
  run_from more zero p = p
  run_from more (suc left) p =
      let rest = run_from more left (next_cp s len p) in
      if ltb p len && more (cls_at p) then rest else p

  unfoldable pub letter_run : ℕ → ℕ
  unfolding run_from
  letter_run p = run_from wordlike (len - p) p

  unfoldable pub punct_run : ℕ → ℕ
  unfolding run_from
  punct_run p = run_from punctuation (len - p) p

  unfoldable pub space_run : ℕ → ℕ
  unfolding run_from
  space_run p = run_from spacelike (len - p) p

  -- The alternatives of `pretoken_end`, each with the end of what it matches at `i`.
  unfoldable pub contraction : ℕ → Option ℕ
  contraction i =
      let a = cs.to_lower (byte_at s (i + 1)) in
      let b = cs.to_lower (byte_at s (i + 2)) in
      if byte_at s i == 39 && ltb (i + 1) len
      then if a == 115 || a == 116 || a == 109 || a == 100
        then some (i + 2)
        else if ltb (i + 2) len
            && (a == 114 && b == 101 || a == 118 && b == 101 || a == 108 && b == 108)
        then some (i + 3)
        else none
      else none

  unfoldable pub word : ℕ → Option ℕ
  unfolding cls_at next_cp letter_run
  word i =
      let c = cls_at i in
      let next = next_cp s len i in
      if wordlike c
      then some (letter_run i)
      else if not (is_newline (byte_at s i))
          && not c.letter
          && not c.digit
          && ltb next len
          && wordlike (cls_at next)
      then some (letter_run next)
      else none

  unfoldable pub digit : ℕ → Option ℕ
  unfolding cls_at next_cp
  digit i = if (cls_at i).digit then some (next_cp s len i) else none

  unfoldable pub punct : ℕ → Option ℕ
  unfolding punct_run newline_run
  punct i =
      let p = if byte_at s i == 32 then i + 1 else i in
      let q = punct_run p in if ltb p q then some (newline_run s len q) else none

  -- The end of the last newline of the run of spaces at `q`, or `last`.
  unfoldable pub last_newline : ℕ → ℕ → ℕ → ℕ
  unfolding cls_at next_cp newline_run
  last_newline zero q last = last
  last_newline (suc left) q last =
      let r = newline_run s len q in
      let behind = last_newline left r r in
      let next = last_newline left (next_cp s len q) last in
      if ltb q len && (cls_at q).space
      then if is_newline (byte_at s q) then behind else next
      else last

  -- `\s+(?!\S)`
  unfoldable pub trailing : ℕ → ℕ
  unfolding space_run walk_back
  trailing i =
      let e = space_run i in
      if leb len e then e else if ltb 1 (e - i) then walk_back s i (e - 1) else 0

  unfoldable pub spaces : ℕ → ℕ
  unfolding cls_at last_newline trailing
  spaces i =
      let last = last_newline (len - i) i 0 in
      if (cls_at i).space then if last == 0 then trailing i else last else 0

  unfoldable pub pretoken_end : ℕ → ℕ
  unfolding contraction word digit punct spaces
  pretoken_end i = elim (contraction i) [
    | some e ↦ e
    | none ↦ elim (word i) [
      | some e ↦ e
      | none ↦ elim (digit i) [
        | some e ↦ e
        | none ↦ elim (punct i) [ some e ↦ e | none ↦ spaces i ]
      ]
    ]
  ]
