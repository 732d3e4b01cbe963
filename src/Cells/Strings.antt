-- ===== src/Cells/Strings.antt =====
-- String cells of cells.c: alloc_string, set_string_size and string_size; and of special.c:
-- make_string and make_strcat. The bytes are a list; the last byte of the room keeps the distance of
-- the string's end from the end of the room, in a signed `char`.
pub mod Size
pub mod Contents
use poprc.Prelude.{
  ℕ, zero, suc, ◌+◌, ◌-◌, ◌*◌, ◌/◌, ◌%◌, ◌^◌, ◌==◌, leb, ltb, if◌then◌else◌, List, [], ◌∷◌, ◌++◌,
  length, get_or, Option, none, some,
}
use poprc.Prelude.Int.{ℤ, pos, negsuc, ◌-ℤ◌}
use poprc.Cells.Sizes.{csize}

-- The argument words behind the header of a value, and their bytes.
pub record StringCell : Type 0 where
  pub size : ℕ
  pub str : List ℕ

-- `VALUE_OFFSET(str)`
abbrev pub str_offset : ℕ
str_offset = 2

abbrev pub set_byte : List ℕ → ℕ → ℕ → List ℕ
set_byte [] i b = []
set_byte (x ∷ xs) zero b = b ∷ xs
set_byte (x ∷ xs) (suc i) b = x ∷ set_byte xs i b

-- A byte of a signed `char`, and a number stored in it.
abbrev pub signed_char : ℕ → ℤ
signed_char b = if ltb b 128 then pos b else pos b -ℤ pos 256

abbrev pub to_char : ℕ → ℕ
to_char n = n % 2 ^ 8

abbrev pub zeroes : ℕ → List ℕ
zeroes zero = []
zeroes (suc n) = 0 ∷ zeroes n

-- `str[n] = 0; str[max_size - 1] = max_size - n`
abbrev pub mark_end : (max_size n : ℕ) → List ℕ → List ℕ
mark_end max_size n str = set_byte (set_byte str n 0) (max_size - 1) (to_char (max_size - n))

-- `DIV_UP(n + 1, 8)`
abbrev pub string_args : ℕ → ℕ
string_args n = (8 - 1 + (n + 1)) / 8

-- The bytes of fresh cells are arbitrary: `old`, one for each byte of the room.
unfoldable pub alloc_string : (old : List ℕ) (n : ℕ) → StringCell
alloc_string old n = record {
  size = csize (string_args n + str_offset);
  str = mark_end (8 * string_args n) n old;
}

-- The new cell and the size that was set
unfoldable pub set_string_size : StringCell → ℕ → StringCell × ℕ
set_string_size c n =
    if leb c.size str_offset
    then (c, 0)
    else let max_size = 8 * (c.size - str_offset) in
      let m = if ltb (max_size - 1) n then max_size - 1 else n in
      (record c { str = mark_end max_size m c.str }, m)

-- The subtraction of a negative number from a `size_t` leaves a larger one.
unfoldable pub string_size : StringCell → ℤ
string_size c =
    if leb c.size str_offset
    then pos 0
    else let max_size = 8 * (c.size - str_offset) in
      pos max_size -ℤ signed_char (get_or c.str (max_size - 1) 0)

-- `memcpy` to the start of `dst`, and to place `i` of it
abbrev pub overwrite : (dst src : List ℕ) → List ℕ
overwrite dst [] = dst
overwrite [] (x ∷ src) = []
overwrite (y ∷ dst) (x ∷ src) = x ∷ overwrite dst src

abbrev pub copy_at : (dst : List ℕ) (i : ℕ) (src : List ℕ) → List ℕ
copy_at dst zero src = overwrite dst src
copy_at [] (suc i) src = []
copy_at (y ∷ dst) (suc i) src = y ∷ copy_at dst i src

unfoldable pub make_string : (old s : List ℕ) → StringCell
unfolding alloc_string
make_string old s = let c = alloc_string old (length s) in record c { str = overwrite c.str s }

unfoldable pub make_strcat : (old s1 s2 : List ℕ) → StringCell
unfolding alloc_string
make_strcat old s1 s2 =
    let c = alloc_string old (length s1 + length s2) in
    record c { str = copy_at (overwrite c.str s1) (length s1) s2 }

abbrev pub take : ℕ → List ℕ → List ℕ
take zero xs = []
take (suc n) [] = []
take (suc n) (x ∷ xs) = x ∷ take n xs

-- `value_seg`: a segment of the cell's bytes; `none` is a size beyond the room of the cell.
unfoldable pub value_seg : StringCell → Option (List ℕ)
unfolding string_size
value_seg c = elim (string_size c) [
  | pos n ↦ if leb n (length c.str) then some (take n c.str) else none
  | negsuc n ↦ none
]
