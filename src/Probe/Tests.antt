-- ===== src/Probe/Tests.antt =====
-- Runs on a table of eight slots with numbers as entries.
use qwen3_8_flash_next.Base.{ℕ, ◌≡◌, refl, sym, arith, none, some, ◌==◌, ==_iff, inl, inr}
use qwen3_8_flash_next.Probe.Find.{Stored, IsProbed}
use qwen3_8_flash_next.Probe.Insert.{
  Inserted, reinsert-Inserted, put_at_self, put-Stored, Stored-put,
}
use qwen3_8_flash_next.Probe.Rehash.{IsDistinct, Rehashed, rehash-Rehashed, put-IsDistinct}
use qwen3_8_flash_next.Probe.Remove.{Removed, remove-Removed}
use qwen3_8_flash_next.Probe.{Slots, put_at}

abbrev same : ℕ → ℕ
same n = n

abbrev nothing : Slots ℕ
nothing = λ _. none

nothing-IsProbed : IsProbed same nothing 8
nothing-IsProbed = record {
  size = record { exponent = 3; fits = omega arith; power = refl };
  room = omega arith;
  reach = λ p e lt at. absurd (cc at);
}

reinsert-Inserted_example : Inserted same nothing 8 9
reinsert-Inserted_example = reinsert-Inserted same nothing 8 9 nothing-IsProbed (omega arith)

abbrev first : Inserted same nothing 8 9
first = reinsert-Inserted same nothing 8 9 nothing-IsProbed (omega arith)

abbrev single : Slots ℕ
single = put_at nothing first.place (some 9)

abbrev second : Inserted same single 8 17
second = reinsert-Inserted same single 8 17 first.probed (omega (arith, first.one_more))

abbrev pair : Slots ℕ
pair = put_at single second.place (some 17)

nothing-Stored : (q e : ℕ) → Stored nothing 8 q e → (k : ℕ) → e ≡ k
nothing-Stored q e st k = absurd (cc (st.1))

single-9 : (q e : ℕ) → Stored single 8 q e → e ≡ 9
single-9 q e st = elim (Stored-put nothing 8 first.place q 9 e st) [
  | inl (_, at) ↦ sym at
  | inr st' ↦ nothing-Stored q e st' 9
]

single-IsDistinct : IsDistinct same single 8
single-IsDistinct =
    put-IsDistinct same same nothing 8 first.place 9 (λ p q a b sa sb e. absurd (cc (sa.1)))
      (λ q e st. absurd (cc (st.1)))

pair-IsDistinct : IsDistinct same pair 8
pair-IsDistinct =
    put-IsDistinct same same single 8 second.place 17 single-IsDistinct
      (λ q e st. λ h. omega (arith, single-9 q e st, h))

single-Stored : Stored single 8 first.place 9
single-Stored = (first.place_lt, put_at_self nothing first.place (some 9))

first-Stored : Stored pair 8 first.place 9
first-Stored = put-Stored single 8 second.place first.place 17 9 second.was_free single-Stored

remove-Removed_example : Removed same same (λ e. e == 9) 9 pair 8 first.place
remove-Removed_example =
    remove-Removed same same (λ e. e == 9) pair 8 first.place 9 second.probed
      (λ q e st y. pair-IsDistinct q first.place e 9 st first-Stored ((==_iff e 9).0 y))
      first-Stored refl

room : IsProbed same nothing 16
room = record {
  size = record { exponent = 4; fits = omega arith; power = refl };
  room = omega arith;
  reach = λ p e lt at. absurd (cc at);
}

rehash-Rehashed_example : Rehashed same same single 0 8 nothing 16
rehash-Rehashed_example =
    rehash-Rehashed same same 8 0 single nothing 8 16 (omega arith) room
      (λ p q a b sa sb e. absurd (cc (sa.1))) single-IsDistinct
      (λ p q a b st lo hi at. absurd (cc (st.1))) (omega (arith, first.one_more))
