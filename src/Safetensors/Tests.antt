-- ===== src/Safetensors/Tests.antt =====
-- An insertion sort, and runs of c/src/safetensors.c on a file of two tensors.
use mathlib.Core.List.{Permᴰ}
use mathlib.Core.List.Permᴰ
use qwen3_8_flash_next.Base.{
  ℕ, zero, suc, ◌-◌, ◌≤◌, ◌<◌, ◌≡◌, ◌≢◌, refl, sym, ap, ◌∙◌, subst, arith, Bool, true, false, ◌&&◌,
  Option, none, some, List, [], ◌∷◌, ltb, leb, if◌then◌else◌, length, get_elem?, get_or, word, pos,
  All, Bool-cases, inl, inr, Sign, minus, nought, plus, dec_le,
}
use qwen3_8_flash_next.Json.{Value, obj, member, no_member}
use qwen3_8_flash_next.Pread.Fill.{content, length-content}
use qwen3_8_flash_next.Pread.{Pread, Answer, bytes}
use qwen3_8_flash_next.Safetensors.Header.{st_index_open, parse_root}
use qwen3_8_flash_next.Safetensors.Index.{IsIndex, Parses, parse_root-Parses}
use qwen3_8_flash_next.Safetensors.Files.{AreFiles, EndsAt}
use qwen3_8_flash_next.Safetensors.Opened.{Sorts, All-elem, All-permuted, st_index_open-Locates}
use qwen3_8_flash_next.Safetensors.Search.{IsSorted, Finds, st_find-Finds, Locates}
use qwen3_8_flash_next.Safetensors.{
  st_find, behind_prefix, model, Tensor, strcmp, st_find_exact, u8,
}

-- The first text is not behind the second.
abbrev NotAbove : List ℕ → List ℕ → Type 0
NotAbove x y = strcmp x y ≢ plus

head_le : (a b : ℕ) (x y : List ℕ) → NotAbove (a ∷ x) (b ∷ y) → a ≤ b
unfolding strcmp
head_le a b x y h = elim (dec_le a b) [
  | yes le ↦ le
  | no above ↦
      let less : ltb a b ≡ false = ground (arith, above) in
      let more : ltb b a ≡ true = ground (arith, above) in absurd (h (rw (less, more)))
]

tail_lem : (a b : ℕ) (x y : List ℕ) → NotAbove (a ∷ x) (b ∷ y) → a ≡ b → NotAbove x y
unfolding strcmp
tail_lem a b x y h e above =
    let less : ltb a b ≡ false = ground (arith, e) in
    let more : ltb b a ≡ false = ground (arith, e) in h (rw (less, more, above))

cons_lem : (a b : ℕ) (x y : List ℕ) → a ≤ b → (a ≡ b → NotAbove x y) → NotAbove (a ∷ x) (b ∷ y)
unfolding strcmp
cons_lem a b x y le rest e = elim (Bool-cases (ltb a b)) [
  | inl less ↦ absurd (cc (less, e))
  | inr same ↦
      let more : ltb b a ≡ false = ground (arith, le) in rest (ground arith) (cc (same, more, e))
]

NotAbove-trans : (x y z : List ℕ) → NotAbove x y → NotAbove y z → NotAbove x z
unfolding strcmp
NotAbove-trans [] y [] xy yz = λ e. absurd (cc e)
NotAbove-trans [] y (c ∷ z) xy yz = λ e. absurd (cc e)
NotAbove-trans (a ∷ x) [] z xy yz = absurd (xy refl)
NotAbove-trans (a ∷ x) (b ∷ y) [] xy yz = absurd (yz refl)
NotAbove-trans (a ∷ x) (b ∷ y) (c ∷ z) xy yz =
    let ab = head_le a b x y xy in
    let bc = head_le b c y z yz in
    cons_lem a c x z (omega (arith, ab, bc)) (λ e.
      NotAbove-trans x y z (tail_lem a b x y xy (omega (arith, e, ab, bc)))
        (tail_lem b c y z yz (omega (arith, e, ab, bc))))

above_flip : (x y : List ℕ) → strcmp x y ≡ plus → NotAbove y x
unfolding strcmp
above_flip [] [] e back = absurd (cc e)
above_flip [] (b ∷ y) e back = absurd (cc e)
above_flip (a ∷ x) [] e back = absurd (cc back)
above_flip (a ∷ x) (b ∷ y) e back = elim (Bool-cases (ltb a b)) [
  | inl less ↦ absurd (cc (less, e))
  | inr no_less ↦ elim (Bool-cases (ltb b a)) [
    | inl more ↦ absurd (cc (more, back))
    | inr no_more ↦ above_flip x y (cc (no_less, no_more, e)) (cc (no_less, no_more, back))
  ]
]

-- `t` goes in front of the first that is not in front of it.
abbrev place : Tensor → Tensor → List Tensor → List Tensor → Sign → List Tensor
place t u us rest plus = u ∷ rest
place t u us rest _ = t ∷ u ∷ us

abbrev insert : Tensor → List Tensor → List Tensor
insert t [] = t ∷ []
insert t (u ∷ us) = place t u us (insert t us) (strcmp t.name u.name)

abbrev sort : List Tensor → List Tensor
sort [] = []
sort (t ∷ ts) = insert t (sort ts)

insert-Permᴰ : (t : Tensor) (us : List Tensor) → Permᴰ (t ∷ us) (insert t us)
insert-Permᴰ t [] = Permᴰ.refl (t ∷ [])
insert-Permᴰ t (u ∷ us) = go (strcmp t.name u.name) (insert-Permᴰ t us)
  where
    go :
        (s : Sign)
        → Permᴰ (t ∷ us) (insert t us)
        → Permᴰ (t ∷ u ∷ us) (place t u us (insert t us) s)
    go plus p = Permᴰ.trans (Permᴰ.swap refl refl) (Permᴰ.cons refl p)
    go minus p = Permᴰ.refl (t ∷ u ∷ us)
    go nought p = Permᴰ.refl (t ∷ u ∷ us)

sort-Permᴰ : (ts : List Tensor) → Permᴰ ts (sort ts)
sort-Permᴰ [] = Permᴰ.refl []
sort-Permᴰ (t ∷ ts) = Permᴰ.trans (Permᴰ.cons refl (sort-Permᴰ ts)) (insert-Permᴰ t (sort ts))

abbrev Ordered : List Tensor → Type 0
Ordered [] = Unit
Ordered (t ∷ ts) = All (λ u. NotAbove t.name u.name) ts × Ordered ts

insert-Ordered : (t : Tensor) (us : List Tensor) → Ordered us → Ordered (insert t us)
insert-Ordered t [] order = (tt, tt)
insert-Ordered t (u ∷ us) (all, order) = go (strcmp t.name u.name) refl (insert-Ordered t us order)
  where
    behind :
        (vs : List Tensor)
        → NotAbove t.name u.name
        → All (λ v. NotAbove u.name v.name) vs
        → All (λ v. NotAbove t.name v.name) vs
    behind [] le all = tt
    behind (v ∷ vs) le (h, all) = (NotAbove-trans t.name u.name v.name le h, behind vs le all)

    go :
        (s : Sign)
        → strcmp t.name u.name ≡ s
        → Ordered (insert t us)
        → Ordered (place t u us (insert t us) s)
    go plus e rest = (
      All-permuted (λ v. NotAbove u.name v.name) (insert-Permᴰ t us)
          (above_flip t.name u.name e, all),
      rest,
    )
    go minus e rest =
        let le : NotAbove t.name u.name = λ above. absurd (cc (e, above)) in
        ((le, behind us le all), (all, order))
    go nought e rest =
        let le : NotAbove t.name u.name = λ above. absurd (cc (e, above)) in
        ((le, behind us le all), (all, order))

sort-Ordered : (ts : List Tensor) → Ordered (sort ts)
sort-Ordered [] = tt
sort-Ordered (t ∷ ts) = insert-Ordered t (sort ts) (sort-Ordered ts)

Ordered-at :
    (xs : List Tensor) (p q : ℕ) (t u : Tensor)
    → Ordered xs
    → p < q
    → get_elem? xs p ≡ some t
    → get_elem? xs q ≡ some u
    → NotAbove t.name u.name
Ordered-at [] p q t u order lt at there = absurd (cc at)
Ordered-at (x ∷ xs) p zero t u order lt at there = absurd (omega arith)
Ordered-at (x ∷ xs) zero (suc q) t u (all, order) lt at there =
    let same : x ≡ t = cc at in
    All-elem (λ v. NotAbove t.name v.name) xs q u
      (subst (λ (w : Tensor). All (λ v. NotAbove w.name v.name) xs) same all) there
Ordered-at (x ∷ xs) (suc p) (suc q) t u (all, order) lt at there =
    Ordered-at xs p q t u order (omega arith) at there

sort-Sorts : Sorts sort
sort-Sorts tensors = (
  sort-Permᴰ tensors,
  λ p q t u lt at there. Ordered-at (sort tensors) p q t u (sort-Ordered tensors) lt at there,
)

-- The length of the header, the header
-- {"b":{"dtype":"U8","data_offsets":[0,2],"shape":[2]},"a":{"dtype":"U8","data_offsets":[2,3],"shape":[1]}}
-- and three bytes.
abbrev contents : List ℕ
contents =
    105 ∷ 0 ∷ 0 ∷ 0 ∷ 0 ∷ 0 ∷ 0 ∷ 0 ∷ 123 ∷ 34 ∷ 98 ∷ 34 ∷ 58 ∷ 123 ∷ 34 ∷ 100 ∷ 116 ∷ 121 ∷ 112
    ∷ 101 ∷ 34 ∷ 58 ∷ 34 ∷ 85 ∷ 56 ∷ 34 ∷ 44 ∷ 34 ∷ 100 ∷ 97 ∷ 116 ∷ 97 ∷ 95 ∷ 111 ∷ 102 ∷ 102 ∷ 115
    ∷ 101 ∷ 116 ∷ 115 ∷ 34 ∷ 58 ∷ 91 ∷ 48 ∷ 44 ∷ 50 ∷ 93 ∷ 44 ∷ 34 ∷ 115 ∷ 104 ∷ 97 ∷ 112 ∷ 101 ∷ 34
    ∷ 58 ∷ 91 ∷ 50 ∷ 93 ∷ 125 ∷ 44 ∷ 34 ∷ 97 ∷ 34 ∷ 58 ∷ 123 ∷ 34 ∷ 100 ∷ 116 ∷ 121 ∷ 112 ∷ 101 ∷ 34
    ∷ 58 ∷ 34 ∷ 85 ∷ 56 ∷ 34 ∷ 44 ∷ 34 ∷ 100 ∷ 97 ∷ 116 ∷ 97 ∷ 95 ∷ 111 ∷ 102 ∷ 102 ∷ 115 ∷ 101
    ∷ 116 ∷ 115 ∷ 34 ∷ 58 ∷ 91 ∷ 50 ∷ 44 ∷ 51 ∷ 93 ∷ 44 ∷ 34 ∷ 115 ∷ 104 ∷ 97 ∷ 112 ∷ 101 ∷ 34 ∷ 58
    ∷ 91 ∷ 49 ∷ 93 ∷ 125 ∷ 125 ∷ 7 ∷ 8 ∷ 9 ∷ []

abbrev size : ℕ
size = 116

abbrev at_offset : ℕ → ℕ
at_offset offset = get_or contents offset 0

abbrev in_file : Pread
in_file time count offset =
    bytes (content at_offset offset (if ltb count (size - offset) then count else size - offset))

abbrev bytes_of : Answer → List ℕ
bytes_of (bytes read) = read
bytes_of _ = []

in_file-EndsAt : EndsAt in_file size
in_file-EndsAt time count offset read e =
    let n = if ltb count (size - offset) then count else size - offset in
    let is : content at_offset offset n ≡ read = ap bytes_of e in
    let length_is : length read ≡ n = sym (ap length is) ∙ length-content at_offset offset n in
    ground (arith, length_is)

abbrev no_space : ℕ → Bool
no_space b = false

-- Numbers of one digit.
abbrev digit : List ℕ → Option (ℕ × List ℕ)
digit [] = none
digit (c ∷ text) = if leb 48 c && leb c 57 then some (c - 48, text) else none

abbrev two_tensors : List Tensor
two_tensors =
    record { name = 97 ∷ []; file = 0; dtype = u8; shape = 1 ∷ []; offset = 115; nbytes = 1 }
    ∷ record { name = 98 ∷ []; file = 0; dtype = u8; shape = 2 ∷ []; offset = 113; nbytes = 2 }
    ∷ []

both : st_index_open pos no_space digit 200 sort ((in_file, size) ∷ []) ≡ some two_tensors
unfolding st_index_open
both = refl

one_file : AreFiles (λ i. size) 0 ((in_file, size) ∷ [])
one_file = (refl, omega arith, in_file-EndsAt, tt)

st_index_open-Locates_example :
    IsIndex (λ i. size) two_tensors
    × ((name : List ℕ) → Locates two_tensors name (st_find_exact two_tensors name))
st_index_open-Locates_example =
    st_index_open-Locates pos no_space digit 200 (λ i. size) sort sort-Sorts ((in_file, size) ∷ [])
      two_tensors one_file both (omega arith)

-- An entry that has no fields, in a second file.
no_fields : Value
no_fields = obj (member (99 ∷ []) (obj no_member) no_member)

abbrev one_tensor : List Tensor
one_tensor =
    record { name = 97 ∷ []; file = 0; dtype = u8; shape = 1 ∷ []; offset = 115; nbytes = 1 } ∷ []

one_tensor-IsIndex : IsIndex (λ i. size) one_tensor
one_tensor-IsIndex = ((omega arith, tt), (tt, tt))

not_first : All (λ t. t.file ≢ 1) one_tensor
not_first = (λ e. absurd (omega (arith, e)), tt)

small_size : size < word
small_size = omega arith

small_base : 8 ≤ size
small_base = omega arith

parse_root-Parses_example :
    Parses pos 1 size 8 small_size small_base
      (λ i. size)
      refl
      one_tensor
      not_first
      (parse_root pos 1 size 8 no_fields one_tensor)
parse_root-Parses_example =
    parse_root-Parses pos 1 size 8 small_size small_base (λ i. size) refl one_tensor not_first
      no_fields one_tensor-IsIndex

first_below : strcmp (97 ∷ []) (98 ∷ []) ≡ minus
unfolding strcmp
first_below = refl

two_tensors-IsSorted : IsSorted two_tensors
two_tensors-IsSorted p zero t u lt at there = absurd (omega arith)
two_tensors-IsSorted zero (suc zero) t u lt at there =
    let first : 97 ∷ [] ≡ t.name = name_of t at in
    let second : 98 ∷ [] ≡ u.name = name_of u there in
    subst (λ x. strcmp x u.name ≡ minus) first
      (subst (λ y. strcmp (97 ∷ []) y ≡ minus) second first_below)
  where
    name_of : {v : Tensor} (w : Tensor) → some v ≡ some w → v.name ≡ w.name
    name_of {v} w e = let same : v ≡ w = cc e in ap (λ (t : Tensor). t.name) same
two_tensors-IsSorted (suc p) (suc zero) t u lt at there = absurd (omega arith)
two_tensors-IsSorted p (suc (suc q)) t u lt at there = absurd (cc there)

st_find-Finds_example :
    Finds two_tensors (98 ∷ []) (behind_prefix model (98 ∷ [])) (st_find two_tensors (98 ∷ []))
st_find-Finds_example = st_find-Finds two_tensors (98 ∷ []) two_tensors-IsSorted (omega arith)
