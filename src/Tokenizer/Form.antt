-- ===== src/Tokenizer/Form.antt =====
-- The byte alphabet of c/src/tokenizer.c: the texts by which vocabulary keys spell bytes, and the
-- map back.
use qwen3_8_flash_next.Base.{
  ℕ, zero, suc, ◌+◌, ◌*◌, ◌/◌, ◌%◌, ◌^◌, ◌≤◌, ◌<◌, ◌≡◌, refl, sym, ap, ◌∙◌, arith, bit_or, Bool,
  true, false, ◌||◌, ◌&&◌, not, Option, none, some, List, [], ◌∷◌, ltb, leb, if◌then◌else◌, length,
  get_or, Bool-cases, inl, inr,
}
use qwen3_8_flash_next.Table.Map.{put-get, empty-IsValid}
use qwen3_8_flash_next.Table.Valid.{IsValid}
use qwen3_8_flash_next.Table.{Lookup, found, get, empty, init}
use qwen3_8_flash_next.Tokenizer.Vocab.{
  VocabMap, fnv1a, equal_bytes, equal_bytes_iff, vmap_get, vmap_put, vmap_get_lem, vmap_put_lem,
}

-- Is the byte printable: '!' to '~', or 0xA1 to 0xFF but 0xAD?
unfoldable pub printable : ℕ → Bool
printable b = (leb 0x21 b && leb b 0x7E) || (leb 0xA1 b && leb b 0xAC) || (leb 0xAE b && leb b 0xFF)

unfoldable pub form_of : ℕ → List ℕ
form_of cp =
    if ltb cp 0x80 then cp ∷ [] else bit_or 0xC0 (cp / 2 ^ 6) ∷ bit_or 0x80 (cp % 2 ^ 6) ∷ []

-- `byte_to_unicode`: the forms of the `left` bytes from `b` on, where `n` bytes before were not
-- printable.
unfoldable pub forms_from : ℕ → ℕ → ℕ → List (List ℕ)
unfolding printable form_of
forms_from zero b n = []
forms_from (suc left) b n =
    form_of (if printable b then b else 256 + n)
    ∷ forms_from left (b + 1) (if printable b then n else n + 1)

abbrev pub byte_forms : List (List ℕ)
unfolding forms_from
byte_forms = forms_from 256 0 0

unfoldable pub byte_form : ℕ → List ℕ
unfolding forms_from
byte_form b = get_or (forms_from 256 0 0) b []

-- `for (b = 0; b < 256; b++) vmap_put(&t->uni, t->byte_form[b], ..., b);`
unfoldable pub put_forms : List (List ℕ) → ℕ → VocabMap → Option VocabMap
unfolding vmap_put
put_forms [] b m = some m
put_forms (form ∷ forms) b m = elim (vmap_put m form b) [
  | none ↦ none
  | some m' ↦ put_forms forms (b + 1) m'
]

unfoldable pub load_uni : Option VocabMap
unfolding put_forms forms_from empty
load_uni = put_forms (forms_from 256 0 0) 0 (empty 0)

absent : List ℕ → List (List ℕ) → Bool
unfolding equal_bytes
absent f [] = true
absent f (g ∷ gs) = not (equal_bytes g f) && absent f gs

distinct : List (List ℕ) → Bool
unfolding absent
distinct [] = true
distinct (f ∷ fs) = absent f fs && distinct fs

forms_distinct : distinct (forms_from 256 0 0) ≡ true
unfolding distinct forms_from
forms_distinct = refl

abbrev IsMap : VocabMap → Type 0
IsMap m = IsValid fnv1a equal_bytes m

-- After `forms` were put with their places from `b` on.
abbrev Placed : List (List ℕ) → ℕ → VocabMap → VocabMap → Type 0
Placed forms b m m' =
    IsMap m'
    × ((f : List ℕ) → absent f forms ≡ true → vmap_get m' f ≡ vmap_get m f)
    × ((j : ℕ) → j < length forms → vmap_get m' (get_or forms j []) ≡ found (b + j))

absent_head :
    (f g : List ℕ) (gs : List (List ℕ))
    → absent f (g ∷ gs) ≡ true
    → (equal_bytes g f ≡ false) × (absent f gs ≡ true)
unfolding absent
absent_head f g gs h = elim (Bool-cases (equal_bytes g f)) [
  | inl same ↦ let h' = rw same at h in absurd (cc h')
  | inr other ↦ (other, rw other at h)
]

distinct_head :
    (f : List ℕ) (fs : List (List ℕ))
    → distinct (f ∷ fs) ≡ true
    → (absent f fs ≡ true) × (distinct fs ≡ true)
unfolding distinct
distinct_head f fs h = ground arith

put_next :
    (form : List ℕ) (forms : List (List ℕ)) (b : ℕ) (m m' : VocabMap)
    → vmap_put m form b ≡ some m'
    → put_forms (form ∷ forms) b m ≡ put_forms forms (b + 1) m'
unfolding put_forms
put_next form forms b m m' h = rw (h, put_forms)

get_self :
    (r : Lookup ℕ) (form : List ℕ) (b : ℕ)
    → (if equal_bytes form form then found b else r) ≡ found b
get_self r form b =
    rw (let e : equal_bytes form form ≡ true = (equal_bytes_iff form form).1 refl in e) refl

put_forms-Placed :
    (forms : List (List ℕ)) (b : ℕ) (m : VocabMap)
    → IsMap m
    → m.nslots ≤ 2 ^ 60
    → (m.count + length forms) * 4 ≤ m.nslots * 3
    → distinct forms ≡ true
    → (m' : VocabMap) × (put_forms forms b m ≡ some m') × Placed forms b m m'
unfolding put_forms
put_forms-Placed [] b m v small room d = (m, refl, (v, λ f h. refl, λ j lt. absurd (omega arith)))
put_forms-Placed (form ∷ forms) b m v small room d =
    let (fresh, d') = distinct_head form forms d in
    let (m1, result, v1, gets, counts, _, keeps) =
      put-get fnv1a equal_bytes equal_bytes_iff m form b v small in
    let same_size : m1.nslots ≡ m.nslots = keeps (omega arith) in
    let (m', result', (v', others, all)) =
      put_forms-Placed forms (b + 1) m1 v1 (omega arith) (omega arith) d' in
    (
      m',
      put_next form forms b m m1 (vmap_put_lem m form b ∙ result) ∙ result',
      (
        v',
        λ f h.
            let (other, h') = absent_head f form forms h in
            others f h'
            ∙ vmap_get_lem m1 f
            ∙ gets f
            ∙ ap (λ t. if t then found b else get fnv1a equal_bytes m f) other
            ∙ sym (vmap_get_lem m f),
        places m' m1 fresh others gets all,
      ),
    )
  where
    places :
        (m' m1 : VocabMap)
        → absent form forms ≡ true
        → ((f : List ℕ) → absent f forms ≡ true → vmap_get m' f ≡ vmap_get m1 f)
        → ((f : List ℕ)
            → get fnv1a equal_bytes m1 f
              ≡ (if equal_bytes form f then found b else get fnv1a equal_bytes m f))
        → ((j : ℕ) → j < length forms → vmap_get m' (get_or forms j []) ≡ found (b + 1 + j))
        → (j : ℕ) → j < length (form ∷ forms)
        → vmap_get m' (get_or (form ∷ forms) j []) ≡ found (b + j)
    places m' m1 fresh others gets all zero lt =
        others form fresh
        ∙ vmap_get_lem m1 form
        ∙ gets form
        ∙ get_self (get fnv1a equal_bytes m form) form b
        ∙ ap found (omega arith)
    places m' m1 fresh others gets all (suc j) lt = all j (omega arith) ∙ ap found (omega arith)

-- The map that the loader starts from has no slots; the first put sets it up.
first_put :
    (f : List ℕ) (fs : List (List ℕ))
    → put_forms (f ∷ fs) 0 (empty 0) ≡ put_forms (f ∷ fs) 0 (empty 1024)
unfolding put_forms init
first_put f fs = refl

-- The 256 calls of vmap_put by which the loader fills the uni map end, and the map that they
-- leave sends the form of each byte to the byte.
pub load_uni-byte_form :
    (m : VocabMap) × (load_uni ≡ some m) × ((b : ℕ) → b < 256 → vmap_get m (byte_form b) ≡ found b)
unfolding load_uni byte_form empty
load_uni-byte_form =
    let (m, result, (_, _, all)) =
      put_forms-Placed (forms_from 256 0 0) 0 (empty 1024)
        (empty-IsValid fnv1a equal_bytes equal_bytes_iff 1024
          (record { exponent = 10; fits = omega arith; power = refl }) (omega arith))
        (omega arith) (omega arith) forms_distinct in
    (m, result, λ b lt. all b lt ∙ ap found (omega arith))
