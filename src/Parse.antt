-- ===== src/Parse.antt =====
-- The parser: parse/parse.c. A text is the list of its bytes, as in Token.
pub mod Strings
pub mod Symbols
pub mod Words
pub mod Defs
pub mod Expr
mod Tests
