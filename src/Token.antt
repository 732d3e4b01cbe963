-- ===== src/Token.antt =====
-- The tokenizer: parse/tok.c and `lex` of parse/lex.c. A text is the list of its bytes, a pointer is
-- an index into it, and `e` is its end, where C's terminating NUL stands.
pub mod Class
pub mod Comment
pub mod Scan
pub mod Progress
pub mod Lex
pub mod Flaws
mod Tests
