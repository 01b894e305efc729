-- ===== src/Tokenizer/Text/Added.antt =====
-- The added tokens that c/src/tokenizer.c finds in a text.
use qwen3_8_flash_next.Base.{
  ℕ, zero, suc, ◌+◌, ◌-◌, ◌≤◌, ◌<◌, ◌≡◌, refl, sym, subst, arith, Bool, true, false, ◌&&◌, Option,
  none, some, List, [], ◌∷◌, ltb, leb, if◌then◌else◌, length, All,
}
use qwen3_8_flash_next.Tokenizer.Bpe.{Tokenizer}
use qwen3_8_flash_next.Tokenizer.Text.{slice, added_from, added_at, limit_from, limit}
use qwen3_8_flash_next.Tokenizer.Vocab.{equal_bytes, equal_bytes_iff}

-- A match of an added token at `p`: the bytes there are its bytes.
abbrev pub Found : (List ℕ → ℕ → Type 0) → List ℕ → ℕ → ℕ → Option ℕ → ℕ → Type 0
Found P s len p none ml = Unit
Found P s len p (some id) ml = (0 < ml) × (ml ≤ len - p) × P (slice s p (p + ml)) id

module _ (P : List ℕ → ℕ → Type 0) (s : List ℕ) (len p : ℕ) where
  -- Where each token has `P`, the match has it.
  added_from-Found :
      (added : List (List ℕ × ℕ)) (id : Option ℕ) (ml : ℕ)
      → All (λ e. P e.0 e.1) added
      → Found P s len p id ml
      → Found P s len p (added_from added s len p id ml).0 (added_from added s len p id ml).1
  unfolding added_from
  added_from-Found [] id ml all h = h
  added_from-Found ((bytes, x) ∷ added) id ml (px, all) h =
      let l = length bytes in
      go (ltb ml l && leb l (len - p) && equal_bytes (slice s p (p + l)) bytes)
        (λ longer.
          let same : slice s p (p + l) ≡ bytes =
            (equal_bytes_iff (slice s p (p + l)) bytes).0 (ground arith) in
          added_from-Found added (some x) l all
            (ground arith, ground arith, subst (λ b. P b x) (sym same) px))
        (added_from-Found added id ml all h)
    where
      go :
          (b : Bool)
          → (b ≡ true
              → Found P s len p
                  (added_from added s len p (some x) (length bytes)).0
                  (added_from added s len p (some x) (length bytes)).1)
          → Found P s len p (added_from added s len p id ml).0 (added_from added s len p id ml).1
          → Found P s len p
              (added_from added s len p
                (if b then some x else id)
                (if b then length bytes else ml)).0
              (added_from added s len p
                (if b then some x else id)
                (if b then length bytes else ml)).1
      go true yes_b no_b = yes_b refl
      go false yes_b no_b = no_b

  pub added_at-Found :
      (t : Tokenizer)
      → All (λ e. P e.0 e.1) t.added
      → Found P s len p (added_at t s len p).0 (added_at t s len p).1
  unfolding added_at
  added_at-Found t all = added_from-Found t.added none 0 all tt

limit_from-bounds :
    (left : ℕ) (t : Tokenizer) (s : List ℕ) (len p : ℕ)
    → p + left ≡ len
    → (p ≤ limit_from left t s len p) × (limit_from left t s len p ≤ len)
unfolding limit_from
limit_from-bounds zero t s len p e = (omega arith, omega arith)
limit_from-bounds (suc left) t s len p e =
    go (added_at t s len p).0 (limit_from-bounds left t s len (p + 1) (omega arith))
  where
    go :
        (o : Option ℕ)
        → (p + 1 ≤ limit_from left t s len (p + 1)) × (limit_from left t s len (p + 1) ≤ len)
        → (p ≤ (elim o [ none ↦ limit_from left t s len (p + 1) | some id ↦ p ]))
          × ((elim o [ none ↦ limit_from left t s len (p + 1) | some id ↦ p ]) ≤ len)
    go none rest = (omega (arith, rest.0), rest.1)
    go (some id) rest = (omega arith, omega arith)

pub limit-bounds :
    (t : Tokenizer) (s : List ℕ) (len i : ℕ)
    → i < len
    → (i < limit t s len i) × (limit t s len i ≤ len)
unfolding limit
limit-bounds t s len i lt =
    let (lo, hi) = limit_from-bounds (len - (i + 1)) t s len (i + 1) (omega arith) in
    (omega (arith, lo), hi)
