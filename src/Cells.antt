-- ===== src/Cells.antt =====
-- cells.c: the sets of alternatives, the sizes of closures, and string cells.
pub mod AltSets
pub mod Sizes
pub mod Strings
pub mod Ring
mod Tests
