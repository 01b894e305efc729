-- ===== src/Tokenizer/Text.antt =====
-- The texts of c/src/tokenizer.c: `tokenizer_encode`, `tokenizer_special` and `tokenizer_eos`. A
-- text is the list of the bytes before its ending 0.
pub mod Added
pub mod Plain
pub mod Steps
pub mod Ends
pub mod Endless
use qwen3_8_flash_next.Base.{
  ℤ, pos, negsuc, ◌%◌, ◌^◌, ℕ, zero, suc, ◌+◌, ◌-◌, ◌≤◌, Bool, true, false, ◌&&◌, Option, none,
  some, List, [], ◌∷◌, ◌++◌, ◌==◌, ltb, leb, if◌then◌else◌, length, take, drop,
}
use qwen3_8_flash_next.Tokenizer.Bpe.{Tokenizer, Coded, stuck, failed, coded, encode_chunk}
use qwen3_8_flash_next.Tokenizer.Split.{Chars, next_cp, pretoken_end}
use qwen3_8_flash_next.Tokenizer.Vocab.{equal_bytes}

unfoldable pub special_from : List (List ℕ × ℕ) → List ℕ → Option ℕ
unfolding equal_bytes
special_from [] content = none
special_from ((bytes, id) ∷ added) content =
    let rest = special_from added content in if equal_bytes bytes content then some id else rest

unfoldable pub tokenizer_special : Tokenizer → List ℕ → Option ℕ
unfolding special_from
tokenizer_special t content = special_from t.added content

unfoldable pub tokenizer_eos : Tokenizer → Option ℕ
tokenizer_eos t = t.eos_id

-- The bytes from `i` up to `e`.
abbrev pub slice : List ℕ → ℕ → ℕ → List ℕ
slice s i e = take (e - i) (drop i s)

-- The loop of `added_at`, with the longest match so far.
unfoldable pub added_from : List (List ℕ × ℕ) → List ℕ → ℕ → ℕ → Option ℕ → ℕ → Option ℕ × ℕ
unfolding equal_bytes
added_from [] s len p id ml = (id, ml)
added_from ((bytes, x) ∷ added) s len p id ml =
    let l = length bytes in
    let longer = ltb ml l && leb l (len - p) && equal_bytes (slice s p (p + l)) bytes in
    added_from added s len p (if longer then some x else id) (if longer then l else ml)

unfoldable pub added_at : Tokenizer → List ℕ → ℕ → ℕ → Option ℕ × ℕ
unfolding added_from
added_at t s len p = added_from t.added s len p none 0

-- `for (p = i + 1; p < len; p++)`, for the `left` places from `p` on.
unfoldable pub limit_from : ℕ → Tokenizer → List ℕ → ℕ → ℕ → ℕ
unfolding added_at
limit_from zero t s len p = len
limit_from (suc left) t s len p =
    let rest = limit_from left t s len (p + 1) in
    elim (added_at t s len p).0 [ none ↦ rest | some id ↦ p ]

unfoldable pub limit : Tokenizer → List ℕ → ℕ → ℕ → ℕ
unfolding limit_from
limit t s len i = limit_from (len - (i + 1)) t s len (i + 1)

-- What follows once `ids` are out.
abbrev pub append_coded : List ℕ → Coded → Coded
append_coded ids stuck = stuck
append_coded ids failed = failed
append_coded ids (coded rest) = coded (ids ++ rest)

-- `(int)total`
unfoldable pub as_int : ℕ → ℤ
as_int total = let w = total % 2 ^ 32 in if ltb w (2 ^ 31) then pos w else negsuc (2 ^ 32 - 1 - w)

-- The int that is returned, with what is in `ids` up to `total` where it is not -1.
pub data Returned : Type 0 where
  no_return : Returned
  returned : ℤ → List ℕ → Returned

module _ (cs : Chars) (t : Tokenizer) (s : List ℕ) where
  -- The end of the chunk at `i`.
  unfoldable pub chunk_end : ℕ → ℕ → ℕ
  unfolding pretoken_end next_cp
  chunk_end lim i =
      let e = pretoken_end cs s lim i in
      let e' = if e == 0 then next_cp s lim i else e in if ltb lim e' then lim else e'

  -- `while (i < lim)`; `room` is `cap - total`.
  unfoldable pub encode_chunks : ℕ → ℕ → ℕ → ℕ → Coded
  unfolding chunk_end encode_chunk
  encode_chunks zero lim i room = stuck
  encode_chunks (suc fuel) lim i room = elim (ltb i lim) [
    | false ↦ coded []
    | true ↦ elim (encode_chunk t (slice s i (chunk_end lim i)) room) [
      | stuck ↦ stuck
      | failed ↦ failed
      | coded ids ↦ append_coded ids (encode_chunks fuel lim (chunk_end lim i) (room - length ids))
    ]
  ]

  -- `while (i < len)`; each inner loop has the fuel `rounds`.
  unfoldable pub encode_from : ℕ → ℕ → ℕ → ℕ → Coded
  unfolding added_at limit encode_chunks
  encode_from rounds zero i room = stuck
  encode_from rounds (suc fuel) i room = elim (ltb i (length s)) [
    | false ↦ coded []
    | true ↦ elim (added_at t s (length s) i).0 [
      | some id ↦ elim (ltb room 1) [
        | true ↦ failed
        | false ↦
            append_coded (id ∷ [])
              (encode_from rounds fuel (i + (added_at t s (length s) i).1) (room - 1))
      ]
      | none ↦ elim (encode_chunks rounds (limit t s (length s) i) i room) [
        | stuck ↦ stuck
        | failed ↦ failed
        | coded ids ↦
            append_coded ids (encode_from rounds fuel (limit t s (length s) i) (room - length ids))
      ]
    ]
  ]

  -- The loops have `rounds` rounds each.
  unfoldable pub tokenizer_encode : ℕ → ℕ → Returned
  unfolding encode_from as_int
  tokenizer_encode rounds room = elim (encode_from rounds rounds 0 room) [
    | stuck ↦ no_return
    | failed ↦ returned (negsuc 0) []
    | coded ids ↦ returned (as_int (length ids)) ids
  ]
