-- ===== src/Tokenizer/Load/Added/Ends.antt =====
-- `parse_added_tokens` of c/src/tokenizer.c ends, with tokens that fit into their buffers.
use qwen3_8_flash_next.Base.{
  ℤ, pos, negsuc, ℕ, zero, suc, ◌^◌, ◌≤◌, ◌<◌, ◌≡◌, refl, arith, max, Bool, true, false, Option,
  none, some, List, [], ◌∷◌, ◌++◌, ltb, if◌then◌else◌, length, All, Bool-cases, inl, inr,
}
use qwen3_8_flash_next.Tokenizer.Load.Added.{
  load_member, load_fields, load_tokens, parse_added_tokens,
}
use qwen3_8_flash_next.Tokenizer.Load.{
  Loaded, loaded, rejected, outside, unending, then_load, or_reject, Fields, AddedTokens,
  added_push, push_fields, behind_comma, js_int,
}
use qwen3_8_flash_next.Tokenizer.Scan.Ends.{
  Leaves, RawEnds, js_skip_ws-le, js_expect-Leaves, js_peek-drop, js_string_raw-RawEnds,
  js_skip_value-Leaves,
}
use qwen3_8_flash_next.Tokenizer.Scan.Strings.{js_string_raw-parse_string}
use qwen3_8_flash_next.Tokenizer.Scan.{
  Raw, raw, broken, full, js_skip_ws, js_peek, js_expect, js_string_raw,
}
use qwen3_8_flash_next.Tokenizer.Vocab.{equal_bytes}

-- A part of the loader ends: a result has `P` and no more than `n` bytes are left behind it.
abbrev pub Loads {ℓ} : {A : Type ℓ} → (A → Type 0) → ℕ → Loaded A → Type 0
Loads P n (loaded a rest) = P a × (length rest ≤ n)
Loads P n rejected = Unit
Loads P n outside = Unit
Loads P n unending = ⊥

pub Loads-le {ℓ} :
    {A : Type ℓ} (P : A → Type 0) (m n : ℕ) (r : Loaded A) → m ≤ n → Loads P m r → Loads P n r
Loads-le P m n (loaded a rest) le (p, h) = (p, omega arith)
Loads-le P m n rejected le h = tt
Loads-le P m n outside le h = tt
Loads-le P m n unending le h = absurd h

pub Loads-then_load {ℓ κ} :
    {A : Type ℓ} {B : Type κ} (P : A → Type 0) (Q : B → Type 0) (n m : ℕ) (r : Loaded A)
    (next : A → List ℕ → Loaded B)
    → Loads P n r
    → ((a : A) (rest : List ℕ) → P a → length rest ≤ n → Loads Q m (next a rest))
    → Loads Q m (then_load r next)
Loads-then_load P Q n m (loaded a rest) next (p, le) h = h a rest p le
Loads-then_load P Q n m rejected next r h = tt
Loads-then_load P Q n m outside next r h = tt
Loads-then_load P Q n m unending next r h = absurd r

pub Loads-or_reject {ℓ} :
    {B : Type ℓ} (Q : B → Type 0) (n m : ℕ) (o : Option (List ℕ)) (next : List ℕ → Loaded B)
    → Leaves n o
    → ((rest : List ℕ) → length rest ≤ n → Loads Q m (next rest))
    → Loads Q m (or_reject o next)
Loads-or_reject Q n m none next le h = tt
Loads-or_reject Q n m (some rest) next le h = h rest le

pub Loads-if {ℓ} :
    {A : Type ℓ} (P : A → Type 0) (n : ℕ) (b : Bool) (x y : Loaded A)
    → Loads P n x
    → Loads P n y
    → Loads P n (if b then x else y)
Loads-if P n true x y h k = h
Loads-if P n false x y h k = k

Loads-elim {ℓ} :
    {A : Type ℓ} (P : A → Type 0) (n : ℕ) (b : Bool) (x y : Loaded A)
    → Loads P n x
    → Loads P n y
    → Loads P n (elim b [ true ↦ x | false ↦ y ])
Loads-elim P n true x y h k = h
Loads-elim P n false x y h k = k

-- `strtol` reads forward.
abbrev pub IsForward : (List ℕ → Option (ℤ × List ℕ)) → Type 0
IsForward strtol =
    (text : List ℕ) (z : ℤ) (rest : List ℕ)
    → strtol text ≡ some (z, rest)
    → length rest ≤ length text

-- The content fits into the buffer of MAX_TOK_BYTES.
abbrev Fits : Option (List ℕ) → Type 0
Fits none = Unit
Fits (some bytes) = length bytes ≤ 512

abbrev Fit : Fields → Type 0
Fit f = Fits f.content

-- Each token fits into its buffer and has an id that is no larger than `max_id`, an `int32_t`.
pub record AreAdded (a : AddedTokens) : Type 0 where
  pub each : All (λ e. (length (e.0) ≤ 512) × (e.1 ≤ a.max_id)) a.tokens
  pub small : a.max_id < 2 ^ 31

All-push :
    (tokens : List (List ℕ × ℕ)) (m id : ℕ) (bytes : List ℕ)
    → All (λ e. (length (e.0) ≤ 512) × (e.1 ≤ m)) tokens
    → length bytes ≤ 512
    → All (λ e. (length (e.0) ≤ 512) × (e.1 ≤ max m id)) (tokens ++ (bytes, id) ∷ [])
All-push [] m id bytes all le = ((le, omega arith), tt)
All-push ((b, x) ∷ tokens) m id bytes ((l, h), all) le =
    ((l, omega arith), All-push tokens m id bytes all le)

-- What a push leaves, if the id fits.
abbrev Pushed : Option AddedTokens → Type 0
Pushed none = Unit
Pushed (some a) = AreAdded a

push_id-Pushed :
    (a : AddedTokens) (bytes : List ℕ) (z : ℤ)
    → AreAdded a
    → length bytes ≤ 512
    → Pushed (elim z [
      | negsuc n ↦ some a
      | pos id ↦ if ltb id (2 ^ 31) then some (added_push a id bytes) else none
    ])
unfolding added_push
push_id-Pushed a bytes (negsuc n) is_a le = is_a
push_id-Pushed a bytes (pos id) is_a le = elim (Bool-cases (ltb id (2 ^ 31))) [
  | inr large ↦ rw large tt
  | inl lt ↦ rw lt (record {
    each = All-push a.tokens a.max_id id bytes is_a.each le;
    small = ground (arith, is_a.small);
  })
]

push_fields-Pushed : (a : AddedTokens) (f : Fields) → AreAdded a → Fit f → Pushed (push_fields a f)
unfolding push_fields added_push
push_fields-Pushed a f is_a fit = go f.content fit
  where
    go :
        (content : Option (List ℕ))
        → Fits content
        → Pushed (elim content [
          | none ↦ some a
          | some bytes ↦ elim f.id [
            | negsuc n ↦ some a
            | pos id ↦ if ltb id (2 ^ 31) then some (added_push a id bytes) else none
          ]
        ])
    go none h = is_a
    go (some bytes) h = push_id-Pushed a bytes f.id is_a h

module _ (is_space : ℕ → Bool) (strtol : List ℕ → Option (ℤ × List ℕ))
    (forward : IsForward strtol) where
  js_int-forward :
      (text : List ℕ) (z : ℤ) (rest : List ℕ)
      → js_int is_space strtol text ≡ some (z, rest)
      → length rest ≤ length text
  unfolding js_int
  js_int-forward text z rest e =
      omega (arith, forward (js_skip_ws is_space text) z rest e, js_skip_ws-le is_space text)

  load_member-Loads :
      (key text : List ℕ) (f : Fields)
      → Fit f
      → Loads Fit (length text) (load_member is_space strtol key text f)
  unfolding load_member
  load_member-Loads key text f fit =
      Loads-if Fit (length text) (equal_bytes key (105 ∷ 100 ∷ [])) _ _
        (int (js_int is_space strtol text) refl)
        (Loads-if Fit (length text) (equal_bytes key (99 ∷ 111 ∷ 110 ∷ 116 ∷ 101 ∷ 110 ∷ 116 ∷ []))
          _ _
          (content (js_string_raw is_space text 512) refl (js_string_raw-RawEnds is_space text 512))
          (Loads-or_reject Fit (length text) (length text) _ (λ rest. loaded f rest)
            (js_skip_value-Leaves is_space text) (λ rest le. (fit, le))))
    where
      int :
          (o : Option (ℤ × List ℕ))
          → js_int is_space strtol text ≡ o
          → Loads Fit
              (length text)
              (elim o [ none ↦ rejected | some (id, rest) ↦ loaded (record f { id = id }) rest ])
      int none e = tt
      int (some (id, rest)) e = (fit, js_int-forward text id rest e)

      content :
          (r : Raw)
          → js_string_raw is_space text 512 ≡ r
          → RawEnds (length text) r
          → Loads Fit (length text) (elim r [
            | raw bytes rest ↦ loaded (record f { content = some bytes }) rest
            | full rest ↦ loaded (record f { content = none }) rest
            | broken ↦ rejected
            | Raw.unfinished ↦ unending
          ])
      content (raw bytes rest) e h =
          (((js_string_raw-parse_string is_space text 512 bytes rest).0 e).1, h)
      content (full rest) e h = (tt, h)
      content broken e h = tt
      content Raw.unfinished e h = absurd h

  -- The round behind a comma.
  again :
      {A : Type 0} (P : A → Type 0) (at : List ℕ) (n : ℕ) (more stop : Loaded A)
      → length at ≤ n
      → (length (behind_comma is_space at) < n → Loads P n more)
      → Loads P n stop
      → Loads P n (elim (js_peek is_space at 44) [ true ↦ more | false ↦ stop ])
  unfolding behind_comma
  again P at n more stop le h k = go (js_peek is_space at 44) refl
    where
      go :
          (b : Bool)
          → js_peek is_space at 44 ≡ b
          → Loads P n (elim b [ true ↦ more | false ↦ stop ])
      go true e = h (omega (arith, le, js_peek-drop is_space at 44 e))
      go false e = k

  load_fields-Loads :
      (fuel : ℕ) (text : List ℕ) (f : Fields)
      → length text < fuel
      → Fit f
      → Loads Fit (length text) (load_fields is_space strtol fuel text f)
  unfolding load_fields
  load_fields-Loads zero text f lt fit = absurd (omega arith)
  load_fields-Loads (suc fuel) text f lt fit =
      go (js_peek is_space text 125) (js_string_raw is_space text 64)
        (js_string_raw-RawEnds is_space text 64)
        (λ (t : List ℕ) (f' : Fields) (h : length t < length text) (fit' : Fit f').
          Loads-le Fit (length t) (length text) _ (omega (arith, h))
            (load_fields-Loads fuel t f' (omega (arith, h, lt)) fit'))
    where
      go :
          (end : Bool) (r : Raw)
          → RawEnds (length text) r
          → ((t : List ℕ) (f' : Fields)
              → length t < length text
              → Fit f'
              → Loads Fit (length text) (load_fields is_space strtol fuel t f'))
          → Loads Fit (length text) (elim end [
            | true ↦ loaded f text
            | false ↦ elim r [
              | broken ↦ rejected
              | Raw.unfinished ↦ unending
              | full rest ↦ loaded (record f { given_up = true }) rest
              | raw key rest ↦ or_reject (js_expect is_space rest 58) (λ at.
                  then_load (load_member is_space strtol key at f) (λ f' at'.
                    elim (js_peek is_space at' 44) [
                      | true ↦ load_fields is_space strtol fuel (behind_comma is_space at') f'
                      | false ↦ loaded f' at'
                    ]))
            ]
          ])
      go true r h rec = (fit, omega arith)
      go false broken h rec = tt
      go false Raw.unfinished h rec = absurd h
      go false (full rest) h rec = (fit, h)
      go false (raw key rest) h rec =
          Loads-or_reject Fit (length text) (length text) (js_expect is_space rest 58) _
            (js_expect-Leaves is_space rest 58 (length text) (omega (arith, h)))
            (λ at le.
              Loads-then_load Fit Fit (length text) (length text)
                (load_member is_space strtol key at f) _
                (Loads-le Fit (length at) (length text) _ le (load_member-Loads key at f fit))
                (λ f' at' fit' le'.
                  again Fit at' (length text)
                    (load_fields is_space strtol fuel (behind_comma is_space at') f')
                    (loaded f' at') le' (λ h'. rec (behind_comma is_space at') f' h' fit')
                    (fit', le')))

  abbrev Added? : AddedTokens × Bool → Type 0
  Added? r = AreAdded (r.0)

  abbrev start : Fields
  start = record { id = negsuc 0; content = none; given_up = false }

  load_tokens-Loads :
      (rounds fuel : ℕ) (text : List ℕ) (a : AddedTokens)
      → length text < fuel
      → length text < rounds
      → AreAdded a
      → Loads Added? (length text) (load_tokens is_space strtol rounds fuel text a)
  unfolding load_tokens
  load_tokens-Loads rounds zero text a lt deep is_a = absurd (omega arith)
  load_tokens-Loads rounds (suc fuel) text a lt deep is_a =
      Loads-elim Added? (length text) (js_peek is_space text 93) (loaded (a, false) text) _
        (is_a, omega arith)
        (Loads-or_reject Added? (length text) (length text) (js_expect is_space text 123) _
          (js_expect-Leaves is_space text 123 (length text) (omega arith))
          (λ at le.
            Loads-then_load Fit Added? (length text) (length text)
              (load_fields is_space strtol rounds at start) _
              (Loads-le Fit (length at) (length text) _ le
                (load_fields-Loads rounds at start (omega (arith, le, deep)) tt))
              (λ f rest fit le'.
                token f.given_up f rest fit le'
                  (λ (t : List ℕ) (a' : AddedTokens) (h : length t < length text)
                      (is_a' : AreAdded a').
                    Loads-le Added? (length t) (length text) _ (omega (arith, h)) (
                      load_tokens-Loads rounds fuel t a' (omega (arith, h, lt))
                        (omega (arith, h, deep)) is_a')))))
    where
      push :
          (o : Option AddedTokens) (rest : List ℕ)
          → Pushed o
          → length rest ≤ length text
          → ((t : List ℕ) (a' : AddedTokens)
              → length t < length text
              → AreAdded a'
              → Loads Added? (length text) (load_tokens is_space strtol rounds fuel t a'))
          → Loads Added? (length text) (elim o [
            | none ↦ outside
            | some a' ↦ elim (js_peek is_space rest 44) [
              | true ↦ load_tokens is_space strtol rounds fuel (behind_comma is_space rest) a'
              | false ↦ loaded (a', false) rest
            ]
          ])
      push none rest h le rec = tt
      push (some a') rest h le rec =
          again Added? rest (length text)
            (load_tokens is_space strtol rounds fuel (behind_comma is_space rest) a')
            (loaded (a', false) rest) le (λ h'. rec (behind_comma is_space rest) a' h' h) (h, le)

      token :
          (given_up : Bool) (f : Fields) (rest : List ℕ)
          → Fit f
          → length rest ≤ length text
          → ((t : List ℕ) (a' : AddedTokens)
              → length t < length text
              → AreAdded a'
              → Loads Added? (length text) (load_tokens is_space strtol rounds fuel t a'))
          → Loads Added? (length text) (elim given_up [
            | true ↦ loaded (a, true) rest
            | false ↦ or_reject (js_expect is_space rest 125) (λ rest'. elim (push_fields a f) [
              | none ↦ outside
              | some a' ↦ elim (js_peek is_space rest' 44) [
                | true ↦ load_tokens is_space strtol rounds fuel (behind_comma is_space rest') a'
                | false ↦ loaded (a', false) rest'
              ]
            ])
          ])
      token true f rest fit le rec = (is_a, le)
      token false f rest fit le rec =
          Loads-or_reject Added? (length text) (length text) (js_expect is_space rest 125) _
            (js_expect-Leaves is_space rest 125 (length text) (omega (arith, le)))
            (λ rest' le'. push (push_fields a f) rest' (push_fields-Pushed a f is_a fit) le' rec)

  -- Where strtol does not read backward, parse_added_tokens ends on every text, from a list of
  -- tokens that fit: it fails, meets an id of 2 ^ 31 or more, or leaves no more text than there
  -- was and a list in which each token fits into its buffer of 512 bytes and has an id of at most
  -- max_id, which is below 2 ^ 31.
  pub parse_added_tokens-Loads :
      (text : List ℕ) (a : AddedTokens)
      → AreAdded a
      → Loads AreAdded (length text) (parse_added_tokens is_space strtol text a)
  unfolding parse_added_tokens
  parse_added_tokens-Loads text a is_a =
      Loads-or_reject AreAdded n n (js_expect is_space text 91) _
        (js_expect-Leaves is_space text 91 n (omega arith))
        (λ at le.
          Loads-then_load Added? AreAdded n n
            (load_tokens is_space strtol (suc (length at)) (suc (length at)) at a) _
            (Loads-le Added? (length at) n _ le (
              load_tokens-Loads (suc (length at)) (suc (length at)) at a (omega arith) (omega arith)
                is_a))
            (λ r rest is_r le'.
              Loads-if AreAdded n (r.1) _ _ (is_r, le')
                (Loads-or_reject AreAdded n n (js_expect is_space rest 93)
                  (λ rest'. loaded (r.0) rest')
                  (js_expect-Leaves is_space rest 93 n (omega (arith, le')))
                  (λ rest' le''. (is_r, le'')))))
    where
      n : ℕ
      n = length text
