-- ===== src/Tokenizer/Tests.antt =====
-- The theorems on c/src/tokenizer.c at a tokenizer with the tokens "a", "b" and "ab", and one merge.
use qwen3_8_flash_next.Json.{parsed, parse_string}
use qwen3_8_flash_next.Tokenizer.Scan.Strings.{js_string_raw-parse_string}
use qwen3_8_flash_next.Tokenizer.Scan.{raw, js_string_raw, js_skip_ws}
use qwen3_8_flash_next.Tokenizer.Split.Progress.{IsPlain, Ahead, pretoken_end-Ahead}
use qwen3_8_flash_next.Tokenizer.Split.{
  Chars, other_type, decimal_digit_number, cls_at, code_at, code_from, next_cp, pretoken_end,
}
use qwen3_8_flash_next.Tokenizer.Text.Endless.{IsWide, encode_chunks-stuck}
use qwen3_8_flash_next.Tokenizer.Text.{encode_chunks}
use qwen3_8_flash_next.Base.{
  ℕ, zero, suc, ◌*◌, ◌^◌, ◌≤◌, ◌<◌, ◌≡◌, ◌≢◌, ◌↔◌, refl, sym, ap, ◌∙◌, arith, Bool, true, Option,
  none, some, List, [], ◌∷◌, ◌++◌, ◌==◌, ==_iff, if◌then◌else◌, leb, ◌||◌, ◌&&◌, length, ltb,
  Bool-cases, inl, inr, ◌⊎◌,
}
use qwen3_8_flash_next.Probe.Walk.{IsPow}
use qwen3_8_flash_next.Table.Map.{put-get, empty-IsValid, get-empty}
use qwen3_8_flash_next.Table.Valid.{IsValid}
use qwen3_8_flash_next.Table.{Table, Fault, fault, missing, found, empty, get}
use qwen3_8_flash_next.Tokenizer.Bpe.Decode.{decode-encode_chunk}
use qwen3_8_flash_next.Tokenizer.Bpe.Spells.{IsConsistent}
use qwen3_8_flash_next.Tokenizer.Bpe.{stuck, Tokenizer, coded, failed, encode_chunk, decode, key_of}
use qwen3_8_flash_next.Tokenizer.Form.{byte_form, load_uni-byte_form}
use qwen3_8_flash_next.Tokenizer.Vocab.{
  VocabMap, MergesMap, Merge, fnv1a, equal_bytes, equal_bytes_iff, equal_keys, hash_pair, pair_key,
  vmap_get_lem, mmap_find_lem,
}

sized : IsPow 1024
sized = record { exponent = 10; fits = omega arith; power = refl }

-- A map after one put: what a search finds is the new value, or was there before.
module _ {K V : Type 0} (hash : K → ℕ) (same : K → K → Bool)
    (same_iff : (a b : K) → (same a b ≡ true) ↔ (a ≡ b)) where
  record Known (t : Table K V) (n : ℕ) : Type 0 where
    valid : IsValid hash same t
    small : t.nslots ≤ n
    total : (k : K) (f : Fault) → get hash same t k ≢ fault f

  start : Known (empty 1024) 1024
  unfolding empty
  start = record {
    valid = empty-IsValid hash same same_iff 1024 sized (omega arith);
    small = omega arith;
    total = λ k f e.
        let e' : get hash same (empty {K = K} {V = V} 1024) k ≡ missing =
          get-empty hash same same_iff 1024 sized (omega arith) k in
        cc (e, e');
  }

  module _ (t : Table K V) (n : ℕ) (h : Known t n) (small : n ≤ 2 ^ 60) (k : K) (x : V) where
    after : Table K V
    after = (put-get hash same same_iff t k x h.valid (omega (arith, h.small))).0

    gets : (k' : K) → get hash same after k' ≡ (if same k k' then found x else get hash same t k')
    unfolding after
    gets = (put-get hash same same_iff t k x h.valid (omega (arith, h.small))).3

    after-Known : Known after (n * 2)
    unfolding after
    after-Known = record {
      valid = (put-get hash same same_iff t k x h.valid (omega (arith, h.small))).2;
      small =
          omega
            (arith, h.small, (put-get hash same same_iff t k x h.valid (omega (arith, h.small))).5);
      total = λ k' f e. elim (Bool-cases (same k k')) [
        | inl yes_k ↦
            let e' = gets k' in
            cc (e, e', ap (λ b. if b then found x else get hash same t k') yes_k)
        | inr other ↦
            h.total k' f
              (sym (ap (λ b. if b then found x else get hash same t k') other) ∙ sym (gets k') ∙ e)
      ];
    }

    from :
        (k' : K) (v : V)
        → get hash same after k' ≡ found v
        → ((k ≡ k') × (x ≡ v)) ⊎ (get hash same t k' ≡ found v)
    from k' v e = elim (Bool-cases (same k k')) [
      | inl yes_k ↦ inl (
        (same_iff k k').0 yes_k,
        cc (e, gets k', ap (λ b. if b then found x else get hash same t k') yes_k),
      )
      | inr other ↦
          inr (sym (ap (λ b. if b then found x else get hash same t k') other) ∙ sym (gets k') ∙ e)
    ]

abbrev vocab_start : Known fnv1a equal_bytes equal_bytes_iff (empty {V = ℕ} 1024) 1024
vocab_start = start fnv1a equal_bytes equal_bytes_iff

abbrev vocab_a : VocabMap
vocab_a =
    after fnv1a equal_bytes equal_bytes_iff (empty 1024) 1024 vocab_start (omega arith) (97 ∷ []) 0

abbrev known_a : Known fnv1a equal_bytes equal_bytes_iff vocab_a 2048
known_a =
    after-Known fnv1a equal_bytes equal_bytes_iff (empty 1024) 1024 vocab_start (omega arith)
      (97 ∷ []) 0

abbrev vocab_b : VocabMap
vocab_b = after fnv1a equal_bytes equal_bytes_iff vocab_a 2048 known_a (omega arith) (98 ∷ []) 1

abbrev known_b : Known fnv1a equal_bytes equal_bytes_iff vocab_b 4096
known_b =
    after-Known fnv1a equal_bytes equal_bytes_iff vocab_a 2048 known_a (omega arith) (98 ∷ []) 1

abbrev merge_ab : Merge
merge_ab = record { rank = 0; merged = some 2 }

keys_iff : (a b : ℕ) → (equal_keys a b ≡ true) ↔ (a ≡ b)
keys_iff a b = ==_iff a b

abbrev merges_start : Known hash_pair equal_keys keys_iff (empty {V = Merge} 1024) 1024
merges_start = start hash_pair equal_keys keys_iff

abbrev merges_ab : MergesMap
merges_ab =
    after hash_pair equal_keys keys_iff (empty 1024) 1024 merges_start (omega arith) (pair_key 0 1)
      merge_ab

abbrev known_ab : Known hash_pair equal_keys keys_iff merges_ab 2048
known_ab =
    after-Known hash_pair equal_keys keys_iff (empty 1024) 1024 merges_start (omega arith)
      (pair_key 0 1) merge_ab

abbrev keys : ℕ → Option (List ℕ)
keys id =
    if id == 0
    then some (97 ∷ [])
    else if id == 1
    then some (98 ∷ [])
    else if id == 2
    then some (97 ∷ 98 ∷ [])
    else none

abbrev small : Tokenizer
small = record {
  vocab = vocab_b;
  merges = merges_ab;
  uni = load_uni-byte_form.0;
  id_bytes = keys;
  nvocab = 3;
  eos_id = none;
  added = [];
}

below : (id : ℕ) (x : List ℕ) → key_of small id ≡ some x → id < 3
unfolding key_of
below id x e = elim (Bool-cases (ltb id 3)) [
  | inl lt ↦ ground arith
  | inr ge ↦ let e' = rw ge at e in absurd (cc e')
]

merged_two : (m : Merge) (id : ℕ) → merge_ab ≡ m → m.merged ≡ some id → id ≡ 2
merged_two m id e has_id = let e' : some 2 ≡ some id = ap (λ n. n.merged) e ∙ has_id in cc e'

small-IsConsistent : IsConsistent small
unfolding key_of
small-IsConsistent = record {
  vocab_total = λ k f e. known_b.total k f (sym (vmap_get_lem vocab_b k) ∙ e);
  merges_total = λ a b f e. known_ab.total (pair_key a b) f (sym (mmap_find_lem merges_ab a b) ∙ e);
  vocab_keys = λ b id e. vocab_keys (byte_form b) id (sym (vmap_get_lem vocab_b (byte_form b)) ∙ e);
  merge_keys = λ a b id merge x y e has_id key_a key_b.
      merge_keys a b id merge x y (sym (mmap_find_lem merges_ab a b) ∙ e) has_id key_a key_b;
}
  where
    vocab_keys :
        (k : List ℕ) (id : ℕ)
        → get fnv1a equal_bytes vocab_b k ≡ found id
        → key_of small id ≡ some k
    vocab_keys k id e =
        elim (from fnv1a equal_bytes equal_bytes_iff vocab_a 2048 known_a (omega arith) (98 ∷ []) 1
          k id e) [
            | inl (is_k, is_id) ↦ ap (key_of small) (sym is_id) ∙ ap some is_k
            | inr e' ↦
                elim (from fnv1a equal_bytes equal_bytes_iff (empty 1024) 1024 vocab_start
                  (omega arith) (97 ∷ []) 0 k id e') [
                    | inl (is_k, is_id) ↦ ap (key_of small) (sym is_id) ∙ ap some is_k
                    | inr e'' ↦ absurd (
                        let e3 =
                          get-empty {V = ℕ} fnv1a equal_bytes equal_bytes_iff 1024 sized
                            (omega arith) k in
                        cc (e3, e''))
                  ]
          ]

    merge_keys :
        (a b id : ℕ) (merge : Merge) (x y : List ℕ)
        → get hash_pair equal_keys merges_ab (pair_key a b) ≡ found merge
        → merge.merged ≡ some id
        → key_of small a ≡ some x
        → key_of small b ≡ some y
        → key_of small id ≡ some (x ++ y)
    merge_keys a b id merge x y e has_id key_a key_b =
        elim (from hash_pair equal_keys keys_iff (empty 1024) 1024 merges_start (omega arith)
          (pair_key 0 1) merge_ab (pair_key a b) merge e) [
            | inl (is_pair, is_merge) ↦
                let lt_a = below a x key_a in
                let lt_b = below b y key_b in
                let is_a : a ≡ 0 = omega (arith, is_pair, lt_a, lt_b) in
                let is_b : b ≡ 1 = omega (arith, is_pair, lt_a, lt_b) in
                let x_is : some x ≡ some (97 ∷ []) = sym key_a ∙ ap (key_of small) is_a in
                let y_is : some y ≡ some (98 ∷ []) = sym key_b ∙ ap (key_of small) is_b in
                let is_id : id ≡ 2 = merged_two merge id is_merge has_id in
                ap (key_of small) is_id ∙ ap some (sym (cc (x_is, y_is)))
            | inr e' ↦ absurd (
                let e3 =
                  get-empty {V = Merge} hash_pair equal_keys keys_iff 1024 sized (omega arith)
                    (pair_key a b) in
                cc (e3, e'))
          ]

decode-encode_chunk_example :
    (encode_chunk small (97 ∷ 98 ∷ []) 10 ≡ failed)
    ⊎ ((ids : List ℕ) × (encode_chunk small (97 ∷ 98 ∷ []) 10 ≡ coded ids)
        × (length ids ≤ 10)
        × (decode small ids ≡ some (97 ∷ 98 ∷ [])))
decode-encode_chunk_example =
    decode-encode_chunk small load_uni-byte_form.2 small-IsConsistent (97 ∷ 98 ∷ []) 10
      (omega arith, (omega arith, tt))

-- Characters of which 'a' to 'z' are letters, and the space and U+00A0 are white space.
abbrev latin : Chars
latin = record {
  char_type = λ c. if leb 48 c && leb c 57 then decimal_digit_number else other_type;
  is_alpha = λ c. leb 97 c && leb c 122;
  is_space = λ c. c == 32 || c == 160;
  to_lower = λ c. c;
}

-- "a", U+00A0, "5"
abbrev wide_text : List ℕ
wide_text = 97 ∷ 0xC2 ∷ 0xA0 ∷ 53 ∷ []

wide_text-IsWide : IsWide latin wide_text 4 1
unfolding cls_at code_at code_from next_cp
wide_text-IsWide = record {
  inside = omega arith;
  behind = omega arith;
  lead = omega arith;
  continued = λ j lo hi. let is_two : j ≡ 2 = omega arith in rw is_two refl;
  is_space = refl;
  is_plain = refl;
  is_unmarked = refl;
  is_numberless = refl;
  then_solid = refl;
  then_wordless = refl;
}

encode_chunks-stuck_example : encode_chunks latin small wide_text 7 4 1 10 ≡ stuck
encode_chunks-stuck_example = encode_chunks-stuck latin wide_text 4 1 wide_text-IsWide small 7 10

abbrev ab : List ℕ
ab = 97 ∷ 98 ∷ []

ab-IsPlain : (len : ℕ) → len ≤ 2 → IsPlain latin ab len
ab-IsPlain len le zero lt h = omega arith
ab-IsPlain len le (suc zero) lt h = omega arith
ab-IsPlain len le (suc (suc p)) lt h = absurd (omega arith)

-- "b" is an added token too.
abbrev with_b : Tokenizer
with_b = record small { added = (98 ∷ [], 1) ∷ [] }

pretoken_end-Ahead_example : Ahead latin ab 2 0 (pretoken_end latin ab 2 0)
pretoken_end-Ahead_example =
    pretoken_end-Ahead latin ab 2 (ab-IsPlain 2 (omega arith)) 0 (omega arith)

js_string_raw-parse_string_example :
    (js_string_raw (λ c. c == 32) (32 ∷ 34 ∷ 97 ∷ 34 ∷ []) 8 ≡ raw (97 ∷ []) []) ↔ (
      (parse_string (js_skip_ws (λ c. c == 32) (32 ∷ 34 ∷ 97 ∷ 34 ∷ [])) ≡ parsed (97 ∷ []) [])
      × (length {A = ℕ} (97 ∷ []) ≤ 8))
js_string_raw-parse_string_example =
    js_string_raw-parse_string (λ c. c == 32) (32 ∷ 34 ∷ 97 ∷ 34 ∷ []) 8 (97 ∷ []) []
