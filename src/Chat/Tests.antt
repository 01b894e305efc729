-- ===== src/Chat/Tests.antt =====
-- A prompt whose buffer has to grow.
use qwen3_8_flash_next.Base.{◌≡◌, true, none, some, [], ◌∷◌, ◌++◌}
use qwen3_8_flash_next.Chat.Buffers.{concat, HasRoom, chat_render_lem}
use qwen3_8_flash_next.Chat.{Buffer, system_parts, turn_parts, chat_render}

chat_render_lem_example :
    (b : Buffer) × (chat_render none (72 ∷ 105 ∷ []) true ≡ some b)
    × (b.text ≡ concat (system_parts none true ++ turn_parts (72 ∷ 105 ∷ []) true))
    × HasRoom b
chat_render_lem_example = chat_render_lem none (72 ∷ 105 ∷ []) true
