-- ===== src/Tokenizer.antt =====
-- c/src/tokenizer.c: the byte-level BPE tokenizer. A text is the list of its bytes.
pub mod Vocab
pub mod Form
pub mod Bpe
pub mod Split
pub mod Text
pub mod Scan
pub mod Load
mod Tests
