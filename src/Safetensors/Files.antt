-- ===== src/Safetensors/Files.antt =====
-- The files of c/src/safetensors.c one by one.
use qwen3_8_flash_next.Base.{
  ℕ, ◌+◌, ◌-◌, ◌≤◌, ◌<◌, ◌≡◌, ◌≢◌, refl, sym, subst, arith, Bool, true, false, not, Option, List,
  [], ◌∷◌, ◌++◌, ◌==◌, ltb, if◌then◌else◌, length, add64, sub64, word, ℤ, All,
}
use qwen3_8_flash_next.Json.{Value, Parsed, json_parse}
use qwen3_8_flash_next.Pread.{
  Pread, Answer, interrupted, refused, bytes, Filled, filled, failed, ended, unfinished, fill,
}
use qwen3_8_flash_next.Safetensors.Header.{
  Refusal, truncated_header, truncated_json, invalid_json, read_failed, unending, Parse, accepted,
  refusal, little, parse_root, parse_text, parse_file, parse_files,
}
use qwen3_8_flash_next.Safetensors.Index.{IsIndex, Parses, parse_root-Parses}
use qwen3_8_flash_next.Safetensors.{Tensor}

-- No call reads behind the end of the file.
abbrev pub EndsAt : Pread → ℕ → Type 0
EndsAt pread size =
    (time count offset : ℕ) (read : List ℕ)
    → pread time count offset ≡ bytes read
    → length read ≤ size - offset

-- The files from this number on, and their sizes.
abbrev pub AreFiles : (ℕ → ℕ) → ℕ → List (Pread × ℕ) → Type 0
AreFiles sizes file [] = Unit
AreFiles sizes file ((pread, size) ∷ files) =
    (sizes file ≡ size) × (size < word) × EndsAt pread size × AreFiles sizes (file + 1) files

module _ (to_i64 : ℕ → ℤ) (is_space : ℕ → Bool) (strtod : List ℕ → Option (ℕ × List ℕ)) (rounds : ℕ)
    (sizes : ℕ → ℕ) where
  -- An index of files up to this one, or the one there was.
  abbrev pub Extends : ℕ → List Tensor → Parse → Type 0
  Extends file tensors (accepted all) =
      IsIndex sizes all
      × ((added : List Tensor) × (all ≡ added ++ tensors) × All (λ t. t.file ≡ file) added)
  Extends file tensors (refusal e left) = left ≡ tensors

  below_others :
      (file : ℕ) (tensors : List Tensor)
      → All (λ t. t.file < file) tensors
      → All (λ t. t.file ≢ file) tensors
  below_others file [] all = tt
  below_others file (t ∷ tensors) (lt, all) =
      (λ e. absurd (omega (arith, lt, e)), below_others file tensors all)

  below_next :
      (file : ℕ) (added tensors : List Tensor)
      → All (λ t. t.file ≡ file) added
      → All (λ t. t.file < file) tensors
      → All (λ t. t.file < file + 1) (added ++ tensors)
  below_next file [] [] same below = tt
  below_next file [] (t ∷ tensors) same (lt, below) =
      (omega (arith, lt), below_next file [] tensors same below)
  below_next file (t ∷ added) tensors (e, same) below =
      (omega (arith, e), below_next file added tensors same below)

  module _ (file size : ℕ) (small : size < word) (is_size : sizes file ≡ size)
      (tensors : List Tensor) (below : All (λ t. t.file < file) tensors)
      (index : IsIndex sizes tensors) where
    parse_root-Extends :
        (base : ℕ)
        → base ≤ size
        → (root : Value) → Extends file tensors (parse_root to_i64 file size base root tensors)
    parse_root-Extends base room root = go (parse_root to_i64 file size base root tensors) (
        parse_root-Parses to_i64 file size base small room sizes is_size tensors
          (below_others file tensors below) root index)
      where
        go :
            (p : Parse)
            → Parses to_i64 file size base small room sizes is_size tensors
                (below_others file tensors below)
                p
            → Extends file tensors p
        go (accepted all) h = h
        go (refusal e left) h = h

    parse_text-Extends :
        (base : ℕ) (text : List ℕ)
        → base ≤ size
        → Extends file tensors
            (parse_text to_i64 is_space strtod rounds file size base text tensors)
    unfolding parse_text
    parse_text-Extends base text room = go (json_parse is_space strtod text)
      where
        go :
            (p : Parsed Value)
            → Extends file tensors (elim p [
              | Parsed.failed m at ↦ refusal invalid_json tensors
              | Parsed.unfinished ↦ refusal unending tensors
              | Parsed.parsed root rest ↦ parse_root to_i64 file size base root tensors
            ])
        go (Parsed.failed m at) = refl
        go Parsed.unfinished = refl
        go (Parsed.parsed root rest) = parse_root-Extends base room root

    filled-Extends :
        (base : ℕ) (f : Filled)
        → base ≤ size
        → Extends file tensors (elim f [
          | failed e ↦ refusal read_failed tensors
          | ended ↦ refusal truncated_json tensors
          | unfinished ↦ refusal unending tensors
          | filled text time calls ↦
              parse_text to_i64 is_space strtod rounds file size base text tensors
        ])
    filled-Extends base (failed e) room = refl
    filled-Extends base ended room = refl
    filled-Extends base unfinished room = refl
    filled-Extends base (filled text time calls) room = parse_text-Extends base text room

    Extends-if :
        (b : Bool) (e : Refusal) (p : Parse)
        → (b ≡ false → Extends file tensors p)
        → Extends file tensors (if b then refusal e tensors else p)
    Extends-if true e p h = refl
    Extends-if false e p h = h refl

    parse_file-Extends :
        (pread : Pread)
        → EndsAt pread size
        → Extends file tensors (parse_file to_i64 is_space strtod rounds pread file size tensors)
    unfolding parse_file
    parse_file-Extends pread ends = go (pread 0 8 0) refl
      where
        go :
            (a : Answer)
            → pread 0 8 0 ≡ a
            → Extends file tensors (elim a [
              | interrupted ↦ refusal truncated_header tensors
              | refused e ↦ refusal truncated_header tensors
              | bytes lenbuf ↦
                  if not (length lenbuf == 8)
                  then refusal truncated_header tensors
                  else if ltb (sub64 size 8) (little lenbuf)
                  then refusal truncated_json tensors
                  else elim (fill pread rounds 1 8 (little lenbuf) [] 0) [
                    | failed e ↦ refusal read_failed tensors
                    | ended ↦ refusal truncated_json tensors
                    | unfinished ↦ refusal unending tensors
                    | filled text time calls ↦
                        parse_text to_i64 is_space strtod rounds file size
                          (add64 8 (little lenbuf))
                          text
                          tensors
                  ]
            ])
        go interrupted e = refl
        go (refused n) e = refl
        go (bytes lenbuf) e = Extends-if (not (length lenbuf == 8)) truncated_header _ (λ eight.
            let large : 8 ≤ size = ground (arith, eight, ends 0 8 0 lenbuf e) in
            Extends-if (ltb (sub64 size 8) (little lenbuf)) truncated_json _ (λ fits.
              filled-Extends (add64 8 (little lenbuf)) (fill pread rounds 1 8 (little lenbuf) [] 0)
                (let within : little lenbuf ≤ size - 8 = ground (arith, fits, large, small) in
                  omega (arith, within, large, small))))

  -- What all files leave: an index, or the loop stopped.
  abbrev pub Opens : Parse → Type 0
  Opens (accepted all) = IsIndex sizes all
  Opens (refusal e left) = IsIndex sizes left

  -- The files extend the index one after the other.
  pub parse_files-Opens :
      (files : List (Pread × ℕ)) (file : ℕ) (tensors : List Tensor)
      → AreFiles sizes file files
      → All (λ t. t.file < file) tensors
      → IsIndex sizes tensors
      → Opens (parse_files to_i64 is_space strtod rounds file files tensors)
  unfolding parse_files
  parse_files-Opens [] file tensors are below index = index
  parse_files-Opens ((pread, size) ∷ files) file tensors (is_size, small, ends, are) below index =
      go (parse_file to_i64 is_space strtod rounds pread file size tensors)
        (parse_file-Extends file size small is_size tensors below index pread ends)
        (λ all. parse_files-Opens files (file + 1) all are)
    where
      go :
          (p : Parse)
          → Extends file tensors p
          → ((all : List Tensor)
              → All (λ t. t.file < file + 1) all
              → IsIndex sizes all
              → Opens (parse_files to_i64 is_space strtod rounds (file + 1) files all))
          → Opens (elim p [
            | refusal e left ↦ refusal e left
            | accepted all ↦ parse_files to_i64 is_space strtod rounds (file + 1) files all
          ])
      go (refusal e left) is rec = subst (IsIndex sizes) (sym is) index
      go (accepted all) (valid, (added, is, same)) rec =
          rec all
            (subst (All (λ t. t.file < file + 1)) (sym is)
              (below_next file added tensors same below))
            valid
