-- ===== src/Safetensors/Opened.antt =====
-- The opened index of c/src/safetensors.c and the search in it.
use mathlib.Core.List.{Permᴰ}
use qwen3_8_flash_next.Base.{
  ℕ, zero, suc, ◌+◌, ◌^◌, ◌≤◌, ◌<◌, ◌≡◌, ◌≢◌, refl, sym, subst, arith, Bool, Option, none, some,
  List, [], ◌∷◌, length, get_elem?, ℤ, All, inl, inr, Sign, minus, nought, plus,
}
use qwen3_8_flash_next.Pread.{Pread}
use qwen3_8_flash_next.Safetensors.Files.{AreFiles, Opens, parse_files-Opens}
use qwen3_8_flash_next.Safetensors.Header.{Parse, accepted, refusal, parse_files, st_index_open}
use qwen3_8_flash_next.Safetensors.Index.{Apart, Pairwise, IsIndex}
use qwen3_8_flash_next.Safetensors.Search.{strcmp-same, IsSorted, Locates, st_find_exact-Locates}
use qwen3_8_flash_next.Safetensors.{Tensor, strcmp, st_find_exact}

pub All-permuted : (P : Tensor → Type 0) {xs ys : List Tensor} → Permᴰ xs ys → All P xs → All P ys
All-permuted P Permᴰ.nil all = tt
All-permuted P (Permᴰ.cons e p) (x, all) = (subst P e x, All-permuted P p all)
All-permuted P (Permᴰ.swap e e') (x, (y, all)) = (subst P e' y, (subst P e x, all))
All-permuted P (Permᴰ.trans p q) all = All-permuted P q (All-permuted P p all)

Apart-sym : (t u : Tensor) → Apart t u → Apart u t
Apart-sym t u (names, ranges) = (
  λ e. names (sym e),
  λ e. elim (ranges (sym e)) [ inl before ↦ inr before | inr behind ↦ inl behind ],
)

Pairwise-permuted : {xs ys : List Tensor} → Permᴰ xs ys → Pairwise Apart xs → Pairwise Apart ys
Pairwise-permuted Permᴰ.nil pairs = tt
Pairwise-permuted (Permᴰ.cons {b = b} {l₁ = xs} e p) (x, pairs) =
    (All-permuted (Apart b) p (subst (λ t. All (Apart t) xs) e x), Pairwise-permuted p pairs)
Pairwise-permuted (Permᴰ.swap {a = a} {b = b} {b' = b'} {l = l} e e') ((xy, x), (y, pairs)) = (
  (
    subst (λ t. Apart t b') e' (subst (Apart b) e (Apart-sym a b xy)),
    subst (λ t. All (Apart t) l) e' y,
  ),
  (subst (λ t. All (Apart t) l) e x, pairs),
)
Pairwise-permuted (Permᴰ.trans p q) pairs = Pairwise-permuted q (Pairwise-permuted p pairs)

pub All-elem :
    (P : Tensor → Type 0) (xs : List Tensor) (p : ℕ) (x : Tensor)
    → All P xs
    → get_elem? xs p ≡ some x
    → P x
All-elem P [] p x all e = absurd (cc e)
All-elem P (y ∷ xs) zero x (h, all) e = let same : y ≡ x = cc e in subst P same h
All-elem P (y ∷ xs) (suc p) x (h, all) e = All-elem P xs p x all e

names-Apart :
    (xs : List Tensor) (p q : ℕ) (t u : Tensor)
    → Pairwise Apart xs
    → p < q
    → get_elem? xs p ≡ some t
    → get_elem? xs q ≡ some u
    → t.name ≢ u.name
names-Apart [] p q t u pairs lt at there = absurd (cc at)
names-Apart (x ∷ xs) p zero t u pairs lt at there = absurd (omega arith)
names-Apart (x ∷ xs) zero (suc q) t u (apart, pairs) lt at there =
    let same : x ≡ t = cc at in
    (All-elem (Apart t) xs q u (subst (λ v. All (Apart v) xs) same apart) there).0
names-Apart (x ∷ xs) (suc p) (suc q) t u (apart, pairs) lt at there =
    names-Apart xs p q t u pairs (omega arith) at there

-- What `qsort` gives with `cmp_tensor_name`.
abbrev pub Sorts : (List Tensor → List Tensor) → Type 0
Sorts qsort =
    (tensors : List Tensor)
    → Permᴰ tensors (qsort tensors)
      × ((p q : ℕ) (t u : Tensor)
          → p < q
          → get_elem? (qsort tensors) p ≡ some t
          → get_elem? (qsort tensors) q ≡ some u
          → strcmp t.name u.name ≢ plus)

module _ (to_i64 : ℕ → ℤ) (is_space : ℕ → Bool) (strtod : List ℕ → Option (ℕ × List ℕ)) (rounds : ℕ)
    (sizes : ℕ → ℕ) (qsort : List Tensor → List Tensor) (sorts : Sorts qsort) where
  IsIndex-qsort : (tensors : List Tensor) → IsIndex sizes tensors → IsIndex sizes (qsort tensors)
  IsIndex-qsort tensors (inside, pairs) = (
    All-permuted (λ t. t.offset + t.nbytes ≤ sizes t.file) (sorts tensors).0 inside,
    Pairwise-permuted (sorts tensors).0 pairs,
  )

  qsort-IsSorted : (tensors : List Tensor) → IsIndex sizes tensors → IsSorted (qsort tensors)
  qsort-IsSorted tensors index p q t u lt at there = go (strcmp t.name u.name) refl
    where
      go : (s : Sign) → strcmp t.name u.name ≡ s → strcmp t.name u.name ≡ minus
      go minus e = e
      go nought e = absurd (
          names-Apart (qsort tensors) p q t u (IsIndex-qsort tensors index).1 lt at there
            (strcmp-same t.name u.name e))
      go plus e = absurd ((sorts tensors).1 p q t u lt at there e)

  opened :
      (files : List (Pread × ℕ)) (p : Parse) (tensors : List Tensor)
      → Opens to_i64 is_space strtod rounds sizes p
      → (elim p [ refusal e left ↦ none | accepted all ↦ some (qsort all) ]) ≡ some tensors
      → IsIndex sizes tensors × IsSorted tensors
  opened files (refusal e left) tensors valid is = absurd (cc is)
  opened files (accepted all) tensors valid is =
      let same : qsort all ≡ tensors = cc is in
      (
        subst (IsIndex sizes) same (IsIndex-qsort all valid),
        subst IsSorted same (qsort-IsSorted all valid),
      )

  -- Where no call reads behind the end of a file, the files are smaller than 2 ^ 64 and qsort
  -- sorts by the names, the index that st_index_open gives, of fewer than 2 ^ 63 tensors, holds
  -- tensors that lie in their files, that have different names and that share no bytes of a file,
  -- and st_find_exact of any name finds the tensor of that name, or there is none.
  pub st_index_open-Locates :
      (files : List (Pread × ℕ)) (tensors : List Tensor)
      → AreFiles sizes 0 files
      → st_index_open to_i64 is_space strtod rounds qsort files ≡ some tensors
      → length tensors < 2 ^ 63
      → IsIndex sizes tensors
        × ((name : List ℕ) → Locates tensors name (st_find_exact tensors name))
  unfolding st_index_open
  st_index_open-Locates [] tensors are is few = absurd (cc is)
  st_index_open-Locates (file ∷ files) tensors are is few =
      let (valid, sorted) =
        opened files (parse_files to_i64 is_space strtod rounds 0 (file ∷ files) []) tensors
          (parse_files-Opens to_i64 is_space strtod rounds sizes (file ∷ files) 0 [] are tt
            (tt, tt))
          is in
      (valid, λ name. st_find_exact-Locates tensors sorted name few)
