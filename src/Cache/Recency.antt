-- ===== src/Cache/Recency.antt =====
-- The recency list of c/src/cache.c: what unlinking and writing an entry change of it, and the
-- sums over its entries.
use qwen3_8_flash_next.Base.{
  ℕ, ◌+◌, ◌≤◌, ◌≡◌, ◌≢◌, refl, sym, subst, ◌∙◌, arith, Bool, List, [], ◌∷◌, ◌⊎◌, inl, inr,
  if◌then◌else◌, length, ℕ_discrete,
}
use qwen3_8_flash_next.Cache.{Entry, unlink, store}

abbrev pub In : ℕ → List ℕ → Type 0
In p [] = ⊥
In p (x ∷ xs) = (p ≡ x) ⊎ In p xs

abbrev pub Nodup : List ℕ → Type 0
Nodup [] = Unit
Nodup (x ∷ xs) = (¬ In x xs) × Nodup xs

-- The bytes of the listed entries, and how many are pinned.
abbrev pub total : (ℕ → Entry) → List ℕ → ℕ
total entries [] = 0
total entries (p ∷ ps) = (entries p).nbytes + total entries ps

abbrev pub pin_count : Bool → ℕ
pin_count b = if b then 1 else 0

abbrev pub pinned_in : (ℕ → Entry) → List ℕ → ℕ
pinned_in entries [] = 0
pinned_in entries (p ∷ ps) = pin_count (entries p).pinned + pinned_in entries ps

pub unlink_head : (p x : ℕ) (xs : List ℕ) → p ≡ x → unlink p (x ∷ xs) ≡ xs
unfolding unlink
unlink_head p x xs e = ground arith

pub unlink_tail : (p x : ℕ) (xs : List ℕ) → p ≢ x → unlink p (x ∷ xs) ≡ x ∷ unlink p xs
unfolding unlink
unlink_tail p x xs ne = ground arith

In-cons-map : (q x : ℕ) (xs ys : List ℕ) → (In q xs → In q ys) → In q (x ∷ xs) → In q (x ∷ ys)
In-cons-map q x xs ys f (inl e) = inl e
In-cons-map q x xs ys f (inr i) = inr (f i)

-- Unlinking adds nothing.
pub In-unlink : (p q : ℕ) (l : List ℕ) → In q (unlink p l) → In q l
unfolding unlink
In-unlink p q [] h = h
In-unlink p q (x ∷ xs) h = elim (ℕ_discrete p x) [
  | yes e ↦ inr (subst (In q) (unlink_head p x xs e) h)
  | no ne ↦
      In-cons-map q x (unlink p xs) xs (In-unlink p q xs) (subst (In q) (unlink_tail p x xs ne) h)
]

In-tail : (q x : ℕ) (xs : List ℕ) → q ≢ x → In q (x ∷ xs) → In q xs
In-tail q x xs ne (inl e) = absurd (ne e)
In-tail q x xs ne (inr i) = i

-- Every other entry stays.
pub In-unlink_ne : (p q : ℕ) (l : List ℕ) → q ≢ p → In q l → In q (unlink p l)
unfolding unlink
In-unlink_ne p q [] ne h = h
In-unlink_ne p q (x ∷ xs) ne h = elim (ℕ_discrete p x) [
  | yes e ↦ rw (unlink_head p x xs e) (In-tail q x xs (λ w. ne (w ∙ sym e)) h)
  | no no_x ↦
      rw (unlink_tail p x xs no_x) (In-cons-map q x xs (unlink p xs) (In-unlink_ne p q xs ne) h)
]

-- In a list without repetitions the entry is gone.
pub not-In-unlink : (p : ℕ) (l : List ℕ) → Nodup l → ¬ In p (unlink p l)
unfolding unlink
not-In-unlink p [] d h = h
not-In-unlink p (x ∷ xs) d h = elim (ℕ_discrete p x) [
  | yes e ↦ d.0 (subst (λ t. In t xs) e (subst (In p) (unlink_head p x xs e) h))
  | no ne ↦
      not-In-unlink p xs d.1 (In-tail p x (unlink p xs) ne (subst (In p) (unlink_tail p x xs ne) h))
]

pub unlink-Nodup : (p : ℕ) (l : List ℕ) → Nodup l → Nodup (unlink p l)
unfolding unlink
unlink-Nodup p [] d = d
unlink-Nodup p (x ∷ xs) d = elim (ℕ_discrete p x) [
  | yes e ↦ rw (unlink_head p x xs e) d.1
  | no ne ↦ rw (unlink_tail p x xs ne) ((λ h. d.0 (In-unlink p x xs h)), unlink-Nodup p xs d.1)
]

pub length-unlink : (p : ℕ) (l : List ℕ) → In p l → length (unlink p l) + 1 ≡ length l
unfolding unlink
length-unlink p [] h = absurd h
length-unlink p (x ∷ xs) h = elim (ℕ_discrete p x) [
  | yes e ↦ rw (unlink_head p x xs e) (omega arith)
  | no ne ↦
      let rest = length-unlink p xs (In-tail p x xs ne h) in
      rw (unlink_tail p x xs ne) (omega arith)
]

pub total-unlink :
    (entries : ℕ → Entry) (p : ℕ) (l : List ℕ)
    → In p l
    → total entries (unlink p l) + (entries p).nbytes ≡ total entries l
unfolding unlink
total-unlink entries p [] h = absurd h
total-unlink entries p (x ∷ xs) h = elim (ℕ_discrete p x) [
  | yes e ↦ rw (unlink_head p x xs e, e) (omega arith)
  | no ne ↦
      let rest = total-unlink entries p xs (In-tail p x xs ne h) in
      rw (unlink_tail p x xs ne) (omega arith)
]

pub pinned_in-unlink :
    (entries : ℕ → Entry) (p : ℕ) (l : List ℕ)
    → In p l
    → pinned_in entries (unlink p l) + pin_count (entries p).pinned ≡ pinned_in entries l
unfolding unlink
pinned_in-unlink entries p [] h = absurd h
pinned_in-unlink entries p (x ∷ xs) h = elim (ℕ_discrete p x) [
  | yes e ↦ rw (unlink_head p x xs e, e) (omega arith)
  | no ne ↦
      let rest = pinned_in-unlink entries p xs (In-tail p x xs ne h) in
      rw (unlink_tail p x xs ne) (omega arith)
]

pub pinned_in-le : (entries : ℕ → Entry) (l : List ℕ) → pinned_in entries l ≤ length l
pinned_in-le entries [] = omega arith
pinned_in-le entries (x ∷ xs) = ground (arith, pinned_in-le entries xs)

pub store_self : (entries : ℕ → Entry) (p : ℕ) (e : Entry) → store entries p e p ≡ e
unfolding store
store_self entries p e = ground arith

pub store_ne : (entries : ℕ → Entry) (p q : ℕ) (e : Entry) → p ≢ q → store entries p e q ≡ entries q
unfolding store
store_ne entries p q e ne = ground arith

-- A sum over the entries after a write to one that is not listed.
pub total-store_other :
    (entries : ℕ → Entry) (p : ℕ) (e : Entry) (l : List ℕ)
    → ¬ In p l
    → total (store entries p e) l ≡ total entries l
total-store_other entries p e [] h = refl
total-store_other entries p e (x ∷ xs) h =
    rw (store_ne entries p x e (λ w. h (inl w)), total-store_other entries p e xs (λ i. h (inr i)))

pub pinned_in-store_other :
    (entries : ℕ → Entry) (p : ℕ) (e : Entry) (l : List ℕ)
    → ¬ In p l
    → pinned_in (store entries p e) l ≡ pinned_in entries l
pinned_in-store_other entries p e [] h = refl
pinned_in-store_other entries p e (x ∷ xs) h =
    rw (
      store_ne entries p x e (λ w. h (inl w)),
      pinned_in-store_other entries p e xs (λ i. h (inr i)),
    )

-- A write that keeps the size keeps the total.
pub total-store_same :
    (entries : ℕ → Entry) (p : ℕ) (e : Entry) (l : List ℕ)
    → e.nbytes ≡ (entries p).nbytes
    → total (store entries p e) l ≡ total entries l
total-store_same entries p e [] h = refl
total-store_same entries p e (x ∷ xs) h = elim (ℕ_discrete p x) [
  | yes w ↦ rw (← w, store_self entries p e, total-store_same entries p e xs h, h)
  | no ne ↦ rw (store_ne entries p x e ne, total-store_same entries p e xs h)
]

-- A write to a listed entry changes the pinned count by that entry alone.
pub pinned_in-store :
    (entries : ℕ → Entry) (p : ℕ) (e : Entry) (l : List ℕ)
    → Nodup l
    → In p l
    → pinned_in (store entries p e) l + pin_count (entries p).pinned
      ≡ pinned_in entries l + pin_count e.pinned
pinned_in-store entries p e [] d h = absurd h
pinned_in-store entries p e (x ∷ xs) d h = elim (ℕ_discrete p x) [
  | yes w ↦
      rw
        (
          ← w,
          store_self entries p e,
          pinned_in-store_other entries p e xs (λ i. d.0 (subst (λ t. In t xs) w i)),
        )
        (omega arith)
  | no ne ↦
      let rest = pinned_in-store entries p e xs d.1 (In-tail p x xs ne h) in
      rw (store_ne entries p x e ne) (omega arith)
]
