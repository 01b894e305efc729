-- ===== src/Tokenizer/Vocab.antt =====
-- The two maps of c/src/tokenizer.c: `vocab_map` from bytes to an id, and `merges_map` from a pair
-- of ids to the rank of their merge and the merged id. Ids are below 2 ^ 31.
use qwen3_8_flash_next.Base.{
  ℕ, zero, suc, ◌+◌, ◌*◌, ◌/◌, ◌%◌, ◌^◌, ◌≡◌, ◌↔◌, refl, sym, ap, ◌∙◌, arith, bit_xor, Bool, true,
  false, ◌&&◌, Option, List, [], ◌∷◌, ◌==◌, ==_refl, mul64,
}
use qwen3_8_flash_next.Table.{Table, Lookup, init, get, put}

unfoldable pub fnv1a_from : ℕ → List ℕ → ℕ
fnv1a_from h [] = h
fnv1a_from h (b ∷ bytes) = fnv1a_from (mul64 (bit_xor h b) 1099511628211) bytes

unfoldable pub fnv1a : List ℕ → ℕ
unfolding fnv1a_from
fnv1a bytes = fnv1a_from 1469598103934665603 bytes

-- `len == len && memcmp(...) == 0`
unfoldable pub equal_bytes : List ℕ → List ℕ → Bool
equal_bytes [] [] = true
equal_bytes (x ∷ xs) (y ∷ ys) = x == y && equal_bytes xs ys
equal_bytes [] (y ∷ ys) = false
equal_bytes (x ∷ xs) [] = false

pub equal_bytes_refl : (xs : List ℕ) → equal_bytes xs xs ≡ true
unfolding equal_bytes
equal_bytes_refl [] = refl
equal_bytes_refl (x ∷ xs) = rw (==_refl x) (equal_bytes_refl xs)

equal_bytes_sound : (xs ys : List ℕ) → equal_bytes xs ys ≡ true → xs ≡ ys
unfolding equal_bytes
equal_bytes_sound [] [] h = refl
equal_bytes_sound [] (y ∷ ys) h = cc
equal_bytes_sound (x ∷ xs) [] h = cc
equal_bytes_sound (x ∷ xs) (y ∷ ys) h = ground (arith, equal_bytes_sound xs ys)

pub equal_bytes_iff : (xs ys : List ℕ) → (equal_bytes xs ys ≡ true) ↔ (xs ≡ ys)
equal_bytes_iff xs ys =
    (equal_bytes_sound xs ys, λ e. ap (equal_bytes xs) (sym e) ∙ equal_bytes_refl xs)

abbrev pub VocabMap : Type 0
VocabMap = Table (List ℕ) ℕ

unfoldable pub vmap_init : ℕ → Option VocabMap
unfolding init
vmap_init n = init n

unfoldable pub vmap_get : VocabMap → List ℕ → Lookup ℕ
unfolding fnv1a equal_bytes get
vmap_get m bytes = get fnv1a equal_bytes m bytes

unfoldable pub vmap_put : VocabMap → List ℕ → ℕ → Option VocabMap
unfolding fnv1a equal_bytes put
vmap_put m bytes id = put fnv1a equal_bytes m bytes id

pub vmap_get_lem : (m : VocabMap) (k : List ℕ) → vmap_get m k ≡ get fnv1a equal_bytes m k
unfolding vmap_get
vmap_get_lem m k = refl

pub vmap_put_lem :
    (m : VocabMap) (k : List ℕ) (id : ℕ) → vmap_put m k id ≡ put fnv1a equal_bytes m k id
unfolding vmap_put
vmap_put_lem m k id = refl

-- The eight bytes of a `uint64_t`, the lowest first.
unfoldable pub le_bytes : ℕ → ℕ → List ℕ
le_bytes zero x = []
le_bytes (suc n) x = (x % 256) ∷ le_bytes n (x / 256)

unfoldable pub hash_pair : ℕ → ℕ
unfolding fnv1a le_bytes
hash_pair key = fnv1a (le_bytes 8 key)

abbrev pub equal_keys : ℕ → ℕ → Bool
equal_keys a b = a == b

-- `((uint64_t)a << 32) | b`, on `uint32_t`.
abbrev pub pair_key : ℕ → ℕ → ℕ
pair_key a b = a * 2 ^ 32 + b

-- `merged` is `none` where the source has -1.
pub record Merge : Type 0 where
  pub rank : ℕ
  pub merged : Option ℕ

abbrev pub MergesMap : Type 0
MergesMap = Table ℕ Merge

unfoldable pub mmap_init : ℕ → Option MergesMap
unfolding init
mmap_init n = init n

unfoldable pub mmap_find : MergesMap → ℕ → ℕ → Lookup Merge
unfolding hash_pair get
mmap_find m a b = get hash_pair equal_keys m (pair_key a b)

pub mmap_find_lem :
    (m : MergesMap) (a b : ℕ) → mmap_find m a b ≡ get hash_pair equal_keys m (pair_key a b)
unfolding mmap_find
mmap_find_lem m a b = refl

unfoldable pub mmap_put : MergesMap → ℕ → ℕ → ℕ → Option ℕ → Option MergesMap
unfolding hash_pair put
mmap_put m a b rank merged =
    put hash_pair equal_keys m (pair_key a b) (record { rank = rank; merged = merged })
