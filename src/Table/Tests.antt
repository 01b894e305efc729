-- ===== src/Table/Tests.antt =====
-- The theorems of Table.Map at a table of numbers.
use qwen3_8_flash_next.Base.{
  ℕ, ◌+◌, ◌*◌, ◌^◌, ◌≤◌, ◌<◌, ◌≡◌, ◌↔◌, refl, arith, Bool, true, some, ◌==◌, ==_iff, if◌then◌else◌,
}
use qwen3_8_flash_next.Probe.Walk.{IsPow}
use qwen3_8_flash_next.Table.Map.{init-empty, put-get, empty-IsValid}
use qwen3_8_flash_next.Table.Valid.{IsValid}
use qwen3_8_flash_next.Table.{Table, missing, found, empty, init, get, put}

abbrev number : ℕ → ℕ
number k = k * 7

abbrev equal : ℕ → ℕ → Bool
equal a b = a == b

equal_iff : (a b : ℕ) → (equal a b ≡ true) ↔ (a ≡ b)
equal_iff a b = ==_iff a b

eight : IsPow 8
eight = record { exponent = 3; fits = omega arith; power = refl }

init-empty_example :
    (t : Table ℕ ℕ) × (init 5 ≡ some t)
    × IsValid number equal t
    × ((k : ℕ) → get number equal t k ≡ missing)
init-empty_example = init-empty number equal equal_iff 5 (omega arith) (omega arith)

eight_small : (empty {K = ℕ} {V = ℕ} 8).nslots ≤ 2 ^ 60
unfolding empty
eight_small = omega arith

put-get_example :
    (t' : Table ℕ ℕ) × (put number equal (empty 8) 3 20 ≡ some t')
    × IsValid number equal t'
    × ((k' : ℕ)
        → get number equal t' k' ≡ (if equal 3 k' then found 20 else get number equal (empty 8) k'))
    × (t'.count ≤ (empty {K = ℕ} {V = ℕ} 8).count + 1)
    × (t'.nslots ≤ (empty {K = ℕ} {V = ℕ} 8).nslots * 2)
    × ((empty {K = ℕ} {V = ℕ} 8).count * 4 < (empty {K = ℕ} {V = ℕ} 8).nslots * 3
        → t'.nslots ≡ (empty {K = ℕ} {V = ℕ} 8).nslots)
put-get_example =
    put-get number equal equal_iff (empty 8) 3 20
      (empty-IsValid number equal equal_iff 8 eight (omega arith)) eight_small
