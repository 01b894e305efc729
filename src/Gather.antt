-- ===== src/Gather.antt =====
-- The scatter of rows that were read in one block: `memcpy(out + place * row_bytes, block + ..., row_bytes)`
-- of c/src/reader.c and native/rowio.c. A request is of any type that has a row and a place.
pub mod Right
use qwen3_8_flash_next.Base.{
  ℕ, ◌+◌, ◌-◌, ◌*◌, Bool, ◌&&◌, List, [], ◌∷◌, ltb, leb, if◌then◌else◌, length, get_or, take, drop,
}

-- `memcpy(out + at, bytes, ...)`
unfoldable pub copy : (ℕ → ℕ) → ℕ → List ℕ → ℕ → ℕ
copy out at bytes p =
    if leb at p && ltb p (at + length bytes) then get_or bytes (p - at) 0 else out p

module _ {A : Type 0} (row place : A → ℕ) (row_bytes : ℕ) where
  -- The row of one request, from the block that starts with the row `start`.
  unfoldable pub put_row : ℕ → List ℕ → (ℕ → ℕ) → A → ℕ → ℕ
  unfolding copy
  put_row start block out a =
      copy out (place a * row_bytes) (take row_bytes (drop ((row a - start) * row_bytes) block))
