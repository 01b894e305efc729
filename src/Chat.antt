-- ===== src/Chat.antt =====
-- c/src/chat.c: the prompt of one system and one user text. A text is the list of its bytes
-- before the ending 0; `cap` is the size of the buffer that holds it.
pub mod Buffers
mod Tests
use Prim.Native.String.{String, [] as empty_text, ◌∷◌ as char_before}
use Prim.Native.Char.{code}
use qwen3_8_flash_next.Base.{
  ℕ, zero, suc, ◌+◌, ◌*◌, Bool, true, false, Option, none, some, List, [], ◌∷◌, ◌++◌, ◌==◌, ltb,
  if◌then◌else◌, length,
}

pub record Buffer : Type 0 where
  pub cap : ℕ
  pub text : List ℕ

-- `do { cap = cap ? cap * 2 : 256; } while (need > cap);`
unfoldable pub grow_cap : ℕ → ℕ → ℕ → Option ℕ
grow_cap zero need cap = none
grow_cap (suc fuel) need cap =
    let bigger = if cap == 0 then 256 else cap * 2 in
    elim (ltb bigger need) [ true ↦ grow_cap fuel need bigger | false ↦ some bigger ]

-- Each round makes the capacity larger, so that `need` rounds are enough.
unfoldable pub append : Buffer → List ℕ → Option Buffer
unfolding grow_cap
append b s =
    let need = length b.text + length s + 1 in
    elim (ltb b.cap need) [
      | false ↦ some (record b { text = b.text ++ s })
      | true ↦ elim (grow_cap need need b.cap) [
        | none ↦ none
        | some cap ↦ some (record { cap = cap; text = b.text ++ s })
      ]
    ]

unfoldable pub append_all : Buffer → List (List ℕ) → Option Buffer
unfolding append
append_all b [] = some b
append_all b (s ∷ more) = elim (append b s) [ none ↦ none | some b' ↦ append_all b' more ]

-- The bytes of an ASCII text.
unfoldable pub bytes : String → List ℕ
bytes empty_text = []
bytes (char_before c s) = code c ∷ bytes s

abbrev pub instructions : String
instructions =
    "Reasoning effort is set to xhigh. Please think carefully through the task, validate key assumptions, consider plausible alternatives, and prioritize correctness, consistency, and clarity in the final answer."

-- The texts that `chat_render` appends, in order; `system` may be null.
unfoldable pub system_parts : Option (List ℕ) → Bool → List (List ℕ)
unfolding bytes
system_parts none true =
    bytes "<|im_start|>system\n" ∷ bytes instructions ∷ bytes "<|im_end|>\n" ∷ []
system_parts (some system) true =
    bytes "<|im_start|>system\n"
    ∷ bytes instructions
    ∷ bytes "\n\n"
    ∷ system
    ∷ bytes "<|im_end|>\n"
    ∷ []
system_parts (some system) false = bytes "<|im_start|>system\n" ∷ system ∷ bytes "<|im_end|>\n" ∷ []
system_parts none false = []

unfoldable pub turn_parts : List ℕ → Bool → List (List ℕ)
unfolding bytes
turn_parts user thinking =
    bytes "<|im_start|>user\n"
    ∷ user
    ∷ bytes "<|im_end|>\n"
    ∷ bytes "<|im_start|>assistant\n"
    ∷ bytes (if thinking then " thinking\n" else " thinking\n\n response\n\n")
    ∷ []

unfoldable pub chat_render : Option (List ℕ) → List ℕ → Bool → Option Buffer
unfolding append_all system_parts turn_parts
chat_render system user thinking =
    append_all (record { cap = 256; text = [] })
      (system_parts system thinking ++ turn_parts user thinking)
