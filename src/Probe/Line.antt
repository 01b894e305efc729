-- ===== src/Probe/Line.antt =====
-- The scan of a removal, one step at a time: in coordinates that start at a free slot the
-- circle is a line, and no entry lies on the far side of its home.
use native.Mathlib.Nat.{add-mod_right}
use qwen3_8_flash_next.Base.{
  ℕ, suc, ◌+◌, ◌%◌, ◌≤◌, ◌<◌, Option, none, some, ◌≡◌, ◌≢◌, refl, sym, ap, ◌∙◌, arith, inl, inr,
  ◌⊎◌, ℕ_discrete, dec_lt,
}
use qwen3_8_flash_next.Probe.Circle.{mod-injective}
use qwen3_8_flash_next.Probe.Insert.{put_at-cases}
use qwen3_8_flash_next.Probe.{Slots, put_at}

some-eq {ℓ} : {A : Type ℓ} {x y : A} → some x ≡ some y → x ≡ y
some-eq e = cc

module _ {ℓ} {E : Type ℓ} (home : E → ℕ) (n z : ℕ) where
  -- The slot at coordinate `c`.
  abbrev pub Line : Slots E → Slots E
  Line s c = s ((z + c) % n)

  -- Behind a hole at `a` the scan has come to `b`.
  pub record Sweep (s : Slots E) (a b : ℕ) : Type ℓ where
    pub start : Line s 0 ≡ none
    pub positive : 0 < a
    pub ahead : a < b
    pub inside : b ≤ n
    pub hole : Line s a ≡ none
    pub run : (c : ℕ) → a < c → c < b → Line s c ≢ none
    pub reach :
        (c : ℕ) (e : E)
        → c < n
        → Line s c ≡ some e
        → (h : ℕ) × (h ≤ c)
          × (home e % n ≡ (z + h) % n)
          × ((x : ℕ) → h ≤ x → x < c → x ≢ a → Line s x ≢ none)
          × (a < c → c < b → a < h)

  -- No hole is left: every entry is reached from its home along the line.
  pub record IsLine (s : Slots E) : Type ℓ where
    pub start : Line s 0 ≡ none
    pub reach :
        (c : ℕ) (e : E)
        → c < n
        → Line s c ≡ some e
        → (h : ℕ) × (h ≤ c)
          × (home e % n ≡ (z + h) % n)
          × ((x : ℕ) → h ≤ x → x < c → Line s x ≢ none)

  line_end : (s : Slots E) → Line s n ≡ Line s 0
  line_end s = ap s (add-mod_right z n ∙ ap (λ k. k % n) (omega arith))

  -- The scan ends at a free slot, and then the hole needs no filling.
  pub Sweep-stop : (s : Slots E) (a b : ℕ) → Sweep s a b → Line s b ≡ none → IsLine s
  Sweep-stop s a b sc free = record {
    start = sc.start;
    reach = λ c e lt at.
        let (h, le, is_home, full, later) = sc.reach c e lt at in
        (
          h,
          le,
          is_home,
          λ x lo hi. elim (ℕ_discrete x a) [
            | no ne ↦ full x lo hi ne
            | yes same ↦ elim (dec_lt c b) [
              | yes inside ↦ let z : a < h = later (omega arith) inside in absurd (omega arith)
              | no past ↦ elim (ℕ_discrete c b) [
                | yes c_b ↦ absurd (cc)
                | no c_ne ↦
                    let ahead = sc.ahead in
                    absurd (full b (omega arith) (omega arith) (omega arith) free)
              ]
            ]
          ],
        );
  }

  Line-put-cases :
      (s : Slots E) (a c : ℕ) (v : Option E)
      → a < n
      → c < n
      → ((a ≡ c) × (Line (put_at s ((z + a) % n) v) c ≡ v))
        ⊎ ((a ≢ c) × (Line (put_at s ((z + a) % n) v) c ≡ Line s c))
  Line-put-cases s a c v ha hc = elim (put_at-cases s ((z + a) % n) ((z + c) % n) v) [
    | inl (same, at) ↦ inl (mod-injective n z a c ha hc same, at)
    | inr (other, at) ↦ inr ((λ e. other (ap (λ k. (z + k) % n) e)), at)
  ]

  -- The entry at `b` goes to the hole at `a`.
  abbrev pub moved : Slots E → ℕ → ℕ → E → Slots E
  moved s a b e = put_at (put_at s ((z + a) % n) (some e)) ((z + b) % n) none

  pub data Place (s : Slots E) (a b : ℕ) (e : E) (c : ℕ) : Type ℓ where
    at_hole : c ≡ a → Line (moved s a b e) c ≡ some e → Place s a b e c
    at_left : c ≡ b → Line (moved s a b e) c ≡ none → Place s a b e c
    elsewhere : c ≢ a → c ≢ b → Line (moved s a b e) c ≡ Line s c → Place s a b e c

  pub place : (s : Slots E) (a b : ℕ) (e : E) (c : ℕ) → a < b → b < n → c < n → Place s a b e c
  place s a b e c ab bn cn =
      elim (Line-put-cases (put_at s ((z + a) % n) (some e)) b c none bn cn) [
        | inl (same, at) ↦ at_left (sym same) at
        | inr (ne, at) ↦ elim (Line-put-cases s a c (some e) (omega arith) cn) [
          | inl (same, at') ↦ at_hole (sym same) (at ∙ at')
          | inr (ne', at') ↦ elsewhere (λ q. ne' (sym q)) (λ q. ne (sym q)) (at ∙ at')
        ]
      ]

  pub Sweep-inside : (s : Slots E) (a b : ℕ) (e : E) → Sweep s a b → Line s b ≡ some e → b < n
  Sweep-inside s a b e sc at = elim (ℕ_discrete b n) [
    | yes same ↦ absurd (cc (line_end s, sc.start))
    | no ne ↦ let inside = sc.inside in omega arith
  ]

  -- The entry at `b` has its home at `h`, with no free slot between but the hole.
  pub record HomeAt (s : Slots E) (a b : ℕ) (e : E) (h : ℕ) : Type ℓ where
    pub before : h ≤ b
    pub is_home : home e % n ≡ (z + h) % n
    pub full : (x : ℕ) → h ≤ x → x < b → x ≢ a → Line s x ≢ none

  pub Sweep-HomeAt :
      (s : Slots E) (a b : ℕ) (e : E) → Sweep s a b → Line s b ≡ some e → (h : ℕ) × HomeAt s a b e h
  Sweep-HomeAt s a b e sc at =
      let (h, le, is_home, full, _) = sc.reach b e (Sweep-inside s a b e sc at) at in
      (h, record { before = le; is_home = is_home; full = full })

  -- An entry with its home behind the hole stays.
  pub Sweep-keep :
      (s : Slots E) (a b : ℕ) (e : E) (h : ℕ)
      → Sweep s a b
      → Line s b ≡ some e
      → HomeAt s a b e h
      → a < h
      → Sweep s a (suc b)
  Sweep-keep s a b e h sc at hm lt = record {
    start = sc.start;
    positive = sc.positive;
    ahead = let x = sc.ahead in omega arith;
    inside = Sweep-inside s a b e sc at;
    hole = sc.hole;
    run = λ c lo hi. elim (ℕ_discrete c b) [
      | yes same ↦ rw same (λ free. cc)
      | no ne ↦ sc.run c lo (omega arith)
    ];
    reach = λ c e' cn at'. elim (ℕ_discrete c b) [
      | yes same ↦
          let is_e : e ≡ e' = some-eq (sym at ∙ rw same at at') in
          (
            h,
            omega (arith, hm.before),
            rw (← is_e) hm.is_home,
            (λ x lo hi ne. hm.full x lo (omega arith) ne),
            (λ _ _. lt),
          )
      | no ne ↦
          let (h', le, is_home, full, later) = sc.reach c e' cn at' in
          (h', le, is_home, full, λ lo hi. later lo (omega arith))
    ];
  }

  moved-full :
      (s : Slots E) (a b : ℕ) (e : E) (x : ℕ)
      → a < b
      → b < n
      → x < n
      → x ≢ b
      → (x ≢ a → Line s x ≢ none)
      → Line (moved s a b e) x ≢ none
  moved-full s a b e x ab bn xn ne full = elim (place s a b e x ab bn xn) [
    | at_hole _ at ↦ λ free. cc (at, free)
    | at_left same _ ↦ absurd (ne same)
    | elsewhere no_a _ at ↦ λ free. full no_a (sym at ∙ free)
  ]

  Line-moved_left : (s : Slots E) (a b : ℕ) (e : E) → a < b → b < n → Line (moved s a b e) b ≡ none
  Line-moved_left s a b e ab bn = elim (place s a b e b ab bn bn) [
    | at_hole same _ ↦ absurd (omega arith)
    | at_left _ at ↦ at
    | elsewhere _ no_b _ ↦ absurd (no_b refl)
  ]

  Line-moved_start :
      (s : Slots E) (a b : ℕ) (e : E)
      → 0 < a
      → a < b
      → b < n
      → Line s 0 ≡ none
      → Line (moved s a b e) 0 ≡ none
  Line-moved_start s a b e pos ab bn start = elim (place s a b e 0 ab bn (omega arith)) [
    | at_hole same _ ↦ absurd (omega arith)
    | at_left same _ ↦ absurd (omega arith)
    | elsewhere _ _ at ↦ at ∙ start
  ]

  -- An entry with its home at the hole or before it fills the hole, and leaves another.
  pub Sweep-move :
      (s : Slots E) (a b : ℕ) (e : E) (h : ℕ)
      → Sweep s a b
      → Line s b ≡ some e
      → HomeAt s a b e h
      → h ≤ a
      → Sweep (moved s a b e) b (suc b)
  Sweep-move s a b e h sc at hm le = record {
    start = Line-moved_start s a b e sc.positive sc.ahead bn sc.start;
    positive = let x = sc.ahead in omega arith;
    ahead = omega arith;
    inside = bn;
    hole = Line-moved_left s a b e sc.ahead bn;
    run = λ c lo hi. absurd (omega arith);
    reach = λ c e' cn at'. elim (place s a b e c sc.ahead bn cn) [
      | at_hole same at'' ↦
          let is_e : e ≡ e' = some-eq (sym at'' ∙ at') in
          (
            h,
            omega arith,
            rw (← is_e) hm.is_home,
            (λ x lo hi ne.
                moved-full s a b e x sc.ahead bn (omega arith) ne
                  (hm.full x lo (let y = sc.ahead in omega arith))),
            (λ lo hi. absurd (omega arith)),
          )
      | at_left _ free ↦ absurd (cc (free, at'))
      | elsewhere _ _ at'' ↦
          let (h', le', is_home, full, _) = sc.reach c e' cn (sym at'' ∙ at') in
          (
            h',
            le',
            is_home,
            (λ x lo hi ne. moved-full s a b e x sc.ahead bn (omega arith) ne (full x lo hi)),
            (λ lo hi. absurd (omega arith)),
          )
    ];
  }
    where
      bn : b < n
      bn = Sweep-inside s a b e sc at
