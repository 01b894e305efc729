-- ===== src/Cache/Choice.antt =====
-- What `pick_victim` picks: an entry that is not pinned, whenever there is one.
use qwen3_8_flash_next.Base.{
  ℕ, ◌≡◌, ◌≢◌, refl, sym, subst, arith, Bool, true, false, ◌&&◌, not, Option, none, some, List, [],
  ◌∷◌, ◌++◌, ltb, inl, inr, ◌⊎◌, ◌↔◌, Bool-cases, Option-cases,
}
use qwen3_8_flash_next.Cache.Recency.{In}
use qwen3_8_flash_next.Cache.Victim.{
  Doubles, Best, from_tail, is_over, any_over, choose, score_of, is_better, skipped, scan,
  pick_victim,
}
use qwen3_8_flash_next.Cache.{Cache}

In-append_last : (p x : ℕ) (l : List ℕ) → In p (l ++ x ∷ []) → In p (x ∷ l)
In-append_last p x [] h = h
In-append_last p x (y ∷ l) (inl e) = inr (inl e)
In-append_last p x (y ∷ l) (inr i) = elim (In-append_last p x l i) [
  | inl e ↦ inl e
  | inr j ↦ inr (inr j)
]

In-append_left : (p x : ℕ) (l : List ℕ) → In p l → In p (l ++ x ∷ [])
In-append_left p x (y ∷ l) (inl e) = inl e
In-append_left p x (y ∷ l) (inr i) = inr (In-append_left p x l i)
In-append_left p x [] h = absurd h

In-append_here : (x : ℕ) (l : List ℕ) → In x (l ++ x ∷ [])
In-append_here x [] = inl refl
In-append_here x (y ∷ l) = inr (In-append_here x l)

pub In-from_tail : (p : ℕ) (l : List ℕ) → In p (from_tail l) → In p l
unfolding from_tail
In-from_tail p [] h = h
In-from_tail p (x ∷ l) h = elim (In-append_last p x (from_tail l) h) [
  | inl e ↦ inl e
  | inr i ↦ inr (In-from_tail p l i)
]

pub from_tail-In : (p : ℕ) (l : List ℕ) → In p l → In p (from_tail l)
unfolding from_tail
from_tail-In p (x ∷ l) (inl e) =
    subst (λ t. In t (from_tail l ++ x ∷ [])) (sym e) (In-append_here x (from_tail l))
from_tail-In p (x ∷ l) (inr i) = In-append_left p x (from_tail l) (from_tail-In p l i)
from_tail-In p [] h = absurd h

abbrev Holds : (ℕ → Type 0) → Option Best → Type 0
Holds P none = Unit
Holds P (some b) = P b.ptr

module _ (d : Doubles) (c : Cache) where
  -- The candidate stays, or the entry at hand takes its place.
  choose-cases :
      (b : Best) (p : ℕ)
      → (choose d c (some b) p ≡ some b)
        ⊎ ((score : ℕ) × (choose d c (some b) p
              ≡ some (record { ptr = p; score = score; touched = (c.entries p).touched })))
  unfolding choose
  choose-cases b p = elim (Bool-cases (not (c.entries p).hot && (c.entries b.ptr).hot)) [
    | inl cold ↦ inr (0, rw cold)
    | inr same ↦ elim (Bool-cases ((c.entries p).hot && not (c.entries b.ptr).hot)) [
      | inl hotter ↦ inl (rw (same, hotter))
      | inr level ↦
          let s = score_of d c.policy (c.entries p) in
          elim (Bool-cases (is_better d c.policy (c.entries p) s b)) [
            | inl better ↦ inr (s, rw (same, level, better))
            | inr worse ↦ inl (rw (same, level, worse))
          ]
    ]
  ]

  choose-Holds :
      (P : ℕ → Type 0) (best : Option Best) (p : ℕ)
      → P p
      → Holds P best
      → Holds P (choose d c best p)
  unfolding choose
  choose-Holds P none p hp h = hp
  choose-Holds P (some b) p hp h = elim (choose-cases b p) [
    | inl e ↦ subst (Holds P) (sym e) h
    | inr (s, e) ↦ subst (Holds P) (sym e) hp
  ]

  choose_some : (best : Option Best) (p : ℕ) → choose d c best p ≢ none
  unfolding choose
  choose_some none p = λ e. cc
  choose_some (some b) p = elim (choose-cases b p) [
    | inl e ↦ λ e'. cc (e, e')
    | inr (s, e) ↦ λ e'. cc (e, e')
  ]

  scan-Holds :
      (P : ℕ → Type 0) (over : Bool) (best : Option Best) (l : List ℕ)
      → ((p : ℕ) → In p l → skipped c over (c.entries p) ≡ false → P p)
      → Holds P best
      → Holds P (scan d c over best l)
  unfolding scan
  scan-Holds P over best [] keep h = h
  scan-Holds P over best (p ∷ l) keep h = elim (Bool-cases (skipped c over (c.entries p))) [
    | inl skip ↦ rw (skip, scan) (scan-Holds P over best l (λ q i. keep q (inr i)) h)
    | inr take ↦
        rw (take, scan)
          (scan-Holds P over (choose d c best p) l (λ q i. keep q (inr i))
            (choose-Holds P best p (keep p (inl refl) take) h))
  ]

  scan-none :
      (over : Bool) (best : Option Best) (l : List ℕ)
      → scan d c over best l ≡ none
      → (best ≡ none) × ((p : ℕ) → In p l → skipped c over (c.entries p) ≡ true)
  unfolding scan
  scan-none over best [] h = (h, λ p i. absurd i)
  scan-none over best (p ∷ l) h = elim (Bool-cases (skipped c over (c.entries p))) [
    | inl skip ↦
        let (before, all) = scan-none over best l (rw (skip, scan) at h) in
        (before, λ q i. elim i [ inl e ↦ rw e skip | inr j ↦ all q j ])
    | inr take ↦
        absurd (choose_some best p (scan-none over (choose d c best p) l (rw (take, scan) at h)).0)
  ]

  over_found :
      (l : List ℕ)
      → any_over c l ≡ true
      → (p : ℕ) × In p l × ((c.entries p).pinned ≡ false) × (is_over c (c.entries p) ≡ true)
  unfolding any_over
  over_found [] h = absurd (cc)
  over_found (p ∷ l) h = elim (Bool-cases (c.entries p).pinned) [
    | inl pinned ↦ let (q, i, free, over) = over_found l (rw pinned at h) in (q, inr i, free, over)
    | inr free ↦ elim (Bool-cases (is_over c (c.entries p))) [
      | inl over ↦ (p, inl refl, free, over)
      | inr under ↦
          let (q, i, free', over) = over_found l (rw (free, under) at h) in (q, inr i, free', over)
    ]
  ]

  abbrev back : List ℕ
  back = from_tail c.recency

  abbrev over_share : Bool
  over_share = ltb 0 c.partitions && any_over c back

  pick_of_scan : (b : Best) → scan d c over_share none back ≡ some b → pick_victim d c ≡ some b.ptr
  unfolding pick_victim
  pick_of_scan b h = rw (h, pick_victim)

  pick_of_none : scan d c over_share none back ≡ none → pick_victim d c ≡ none
  unfolding pick_victim
  pick_of_none h = rw (h, pick_victim)

  not-pinned :
      (over : Bool) (p : ℕ) → skipped c over (c.entries p) ≡ false → (c.entries p).pinned ≡ false
  unfolding skipped
  not-pinned over p h = ground arith

  -- What pick_victim returns is in the recency list and is not pinned.
  pub pick_victim-In :
      (p : ℕ) → pick_victim d c ≡ some p → In p c.recency × ((c.entries p).pinned ≡ false)
  pick_victim-In p h = go (scan d c over_share none back) refl
    where
      P : ℕ → Type 0
      P q = In q c.recency × ((c.entries q).pinned ≡ false)

      go : (o : Option Best) → scan d c over_share none back ≡ o → P p
      go none e = absurd (cc (pick_of_none e, h))
      go (some b) e =
          let same : b.ptr ≡ p = cc (pick_of_scan b e, h) in
          subst P same (
            subst (Holds P) e (
              scan-Holds P over_share none back
                (λ q i free. (In-from_tail q c.recency i, not-pinned over_share q free)) tt))

  skipped_over :
      (over : Bool) (p : ℕ)
      → skipped c over (c.entries p) ≡ true
      → (c.entries p).pinned ≡ false
      → (over ≡ true) × (is_over c (c.entries p) ≡ false)
  unfolding skipped
  skipped_over over p h free = ground arith

  over_any : over_share ≡ true → any_over c back ≡ true
  over_any h = ground arith

  skipped_pinned :
      (p : ℕ)
      → skipped c over_share (c.entries p) ≡ true
      → ((q : ℕ) → In q back → skipped c over_share (c.entries q) ≡ true)
      → (c.entries p).pinned ≡ true
  skipped_pinned p h all = elim (Bool-cases (c.entries p).pinned) [
    | inl pinned ↦ pinned
    | inr free ↦
        let (over, _) = skipped_over over_share p h free in
        let (q, i, free', over_q) = over_found back (over_any over) in
        let (_, under_q) = skipped_over over_share q (all q i) free' in
        absurd (cc (over_q, under_q))
  ]

  -- Pick_victim returns null if and only if every listed entry is pinned, under each policy and
  -- with or without partitions.
  pub pick_victim-none_iff :
      (pick_victim d c ≡ none) ↔ ((p : ℕ) → In p c.recency → (c.entries p).pinned ≡ true)
  pick_victim-none_iff = (all_pinned, none_left)
    where
      all_pinned : pick_victim d c ≡ none → (p : ℕ) → In p c.recency → (c.entries p).pinned ≡ true
      all_pinned h p i = elim (Option-cases (scan d c over_share none back)) [
        | inl e ↦
            let all = (scan-none over_share none back e).1 in
            skipped_pinned p (all p (from_tail-In p c.recency i)) all
        | inr (b, e) ↦ absurd (cc (pick_of_scan b e, h))
      ]

      none_left : ((p : ℕ) → In p c.recency → (c.entries p).pinned ≡ true) → pick_victim d c ≡ none
      none_left all = elim (Option-cases (pick_victim d c)) [
        | inl e ↦ e
        | inr (p, e) ↦ let (i, free) = pick_victim-In p e in absurd (cc (all p i, free))
      ]
