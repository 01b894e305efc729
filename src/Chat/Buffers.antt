-- ===== src/Chat/Buffers.antt =====
-- The buffer of c/src/chat.c always has room for its text and the ending 0.
use qwen3_8_flash_next.Base.{
  ℕ, zero, suc, ◌+◌, ◌*◌, ◌≤◌, ◌<◌, ◌≡◌, refl, sym, ap, ◌∙◌, arith, Bool, true, false, Option, some,
  List, [], ◌∷◌, ◌++◌, ◌==◌, ltb, if◌then◌else◌, length, length-append, Bool-cases, inl, inr,
}
use qwen3_8_flash_next.Chat.{
  Buffer, grow_cap, append, append_all, system_parts, turn_parts, chat_render,
}

abbrev bigger : ℕ → ℕ
bigger cap = if cap == 0 then 256 else cap * 2

bigger_lt : (n : ℕ) → n < bigger n
bigger_lt n = ground arith

grow_more :
    (fuel need n : ℕ)
    → ltb (bigger n) need ≡ true
    → grow_cap (suc fuel) need n ≡ grow_cap fuel need (bigger n)
unfolding grow_cap
grow_more fuel need n h = rw (h, grow_cap)

grow_done :
    (fuel need n : ℕ) → ltb (bigger n) need ≡ false → grow_cap (suc fuel) need n ≡ some (bigger n)
unfolding grow_cap
grow_done fuel need n h = rw (h, grow_cap)

-- With fuel for the bytes that are missing, the loop ends with enough room.
grow_cap_enough :
    (fuel need n : ℕ)
    → need ≤ fuel + n
    → 0 < fuel
    → (m : ℕ) × (grow_cap fuel need n ≡ some m) × (need ≤ m)
grow_cap_enough zero need n le pos = absurd (omega arith)
grow_cap_enough (suc fuel) need n le pos = elim (Bool-cases (ltb (bigger n) need)) [
  | inr enough ↦ (bigger n, grow_done fuel need n enough, not_less enough)
  | inl short ↦
      let (m, result, room) =
        grow_cap_enough fuel need (bigger n) (omega (arith, bigger_lt n))
          (omega (arith, less short, bigger_lt n)) in
      (m, grow_more fuel need n short ∙ result, room)
]
  where
    not_less : ltb (bigger n) need ≡ false → need ≤ bigger n
    not_less h = ground arith

    less : ltb (bigger n) need ≡ true → bigger n < need
    less h = ground arith

-- A buffer with room for its text and the ending 0.
abbrev pub HasRoom : Buffer → Type 0
HasRoom b = length b.text < b.cap

append_fits :
    (b : Buffer) (s : List ℕ)
    → ltb b.cap (length b.text + length s + 1) ≡ false
    → append b s ≡ some (record b { text = b.text ++ s })
unfolding append
append_fits b s h = rw (h, append)

append_grows :
    (b : Buffer) (s : List ℕ) (m : ℕ)
    → ltb b.cap (length b.text + length s + 1) ≡ true
    → grow_cap (length b.text + length s + 1) (length b.text + length s + 1) b.cap ≡ some m
    → append b s ≡ some (record { cap = m; text = b.text ++ s })
unfolding append
append_grows b s m h g = rw (h, append, g)

-- What a call of `append` leaves.
abbrev pub Appended : Buffer → List ℕ → Option Buffer → Type 0
Appended b s r = (b' : Buffer) × (r ≡ some b') × (b'.text ≡ b.text ++ s) × HasRoom b'

append-Appended : (b : Buffer) (s : List ℕ) → Appended b s (append b s)
append-Appended b s = elim (Bool-cases (ltb b.cap (length b.text + length s + 1))) [
  | inr enough ↦ (
    record b { text = b.text ++ s },
    append_fits b s enough,
    refl,
    not_less (length-append b.text s) enough,
  )
  | inl short ↦
      let (m, result, room) =
        grow_cap_enough (length b.text + length s + 1) (length b.text + length s + 1) b.cap
          (omega arith) (omega arith) in
      (
        record { cap = m; text = b.text ++ s },
        append_grows b s m short result,
        refl,
        omega (arith, length-append b.text s),
      )
]
  where
    not_less :
        length (b.text ++ s) ≡ length b.text + length s
        → ltb b.cap (length b.text + length s + 1) ≡ false
        → length (b.text ++ s) < b.cap
    not_less e h = ground arith

-- All the texts, one behind the other.
abbrev pub concat : List (List ℕ) → List ℕ
concat [] = []
concat (s ∷ more) = s ++ concat more

append_assoc : (xs ys zs : List ℕ) → (xs ++ ys) ++ zs ≡ xs ++ (ys ++ zs)
append_assoc [] ys zs = refl
append_assoc (x ∷ xs) ys zs = ap (λ w. x ∷ w) (append_assoc xs ys zs)

append_nil : (xs : List ℕ) → xs ++ [] ≡ xs
append_nil [] = refl
append_nil (x ∷ xs) = ap (λ w. x ∷ w) (append_nil xs)

append_all-Appended :
    (b : Buffer) (parts : List (List ℕ))
    → HasRoom b
    → Appended b (concat parts) (append_all b parts)
unfolding append_all
append_all-Appended b [] room = (b, refl, sym (append_nil b.text), room)
append_all-Appended b (s ∷ more) room =
    let (b', result, text, room') = append-Appended b s in
    let (b'', result', text', room'') = append_all-Appended b' more room' in
    (
      b'',
      rw (result, append_all) result',
      text' ∙ ap (λ w. w ++ concat more) text ∙ append_assoc b.text s (concat more),
      room'',
    )

-- Chat_render ends for every system text, user text and mode, its buffer holds the texts that it
-- appends one behind the other, and the buffer is larger than the text, so that the ending 0
-- fits.
pub chat_render_lem :
    (system : Option (List ℕ)) (user : List ℕ) (thinking : Bool)
    → (b : Buffer) × (chat_render system user thinking ≡ some b)
      × (b.text ≡ concat (system_parts system thinking ++ turn_parts user thinking))
      × HasRoom b
unfolding chat_render
chat_render_lem system user thinking =
    append_all-Appended (record { cap = 256; text = [] })
      (system_parts system thinking ++ turn_parts user thinking) (omega arith)
