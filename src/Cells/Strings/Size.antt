-- ===== src/Cells/Strings/Size.antt =====
-- The size that a string cell of cells.c keeps in the last byte of its room.
use native.Mathlib.Omega.{arith}
use poprc.Prelude.{
  ℕ, zero, suc, ◌+◌, ◌-◌, ◌*◌, ◌%◌, ◌^◌, ◌≤◌, ◌<◌, ◌≡◌, refl, ◌≢◌, ap, ◌∙◌, ◌==◌, leb, ltb,
  if◌then◌else◌, List, [], ◌∷◌, false, true, length, get_or,
}
use poprc.Prelude.Int.{pos, ◌-ℤ◌}
use poprc.Cells.Sizes.{csize}
use poprc.Cells.Strings.{
  StringCell, str_offset, set_byte, signed_char, to_char, mark_end, string_args, alloc_string,
  set_string_size, string_size,
}

pub length-set_byte : (xs : List ℕ) (i b : ℕ) → length (set_byte xs i b) ≡ length xs
length-set_byte [] i b = refl
length-set_byte (x ∷ xs) zero b = refl
length-set_byte (x ∷ xs) (suc i) b = ap suc (length-set_byte xs i b)

get_or-set_byte : (xs : List ℕ) (i b : ℕ) → i < length xs → get_or (set_byte xs i b) i 0 ≡ b
get_or-set_byte [] i b h = omega arith
get_or-set_byte (x ∷ xs) zero b h = refl
get_or-set_byte (x ∷ xs) (suc i) b h = get_or-set_byte xs i b (omega arith)

get_or-set_other : (xs : List ℕ) (i j b : ℕ) → i ≢ j → get_or (set_byte xs j b) i 0 ≡ get_or xs i 0
get_or-set_other [] i j b h = refl
get_or-set_other (x ∷ xs) zero zero b h = absurd (h refl)
get_or-set_other (x ∷ xs) (suc i) zero b h = refl
get_or-set_other (x ∷ xs) zero (suc j) b h = refl
get_or-set_other (x ∷ xs) (suc i) (suc j) b h = get_or-set_other xs i j b (λ e. h (ap suc e))

pub length-mark_end :
    (max_size n : ℕ) (str : List ℕ) → length (mark_end max_size n str) ≡ length str
length-mark_end max_size n str =
    length-set_byte (set_byte str n 0) (max_size - 1) (to_char (max_size - n))
    ∙ length-set_byte str n 0

get_or-mark_end :
    (max_size n : ℕ) (str : List ℕ)
    → length str ≡ max_size
    → 0 < max_size
    → get_or (mark_end max_size n str) (max_size - 1) 0 ≡ to_char (max_size - n)
get_or-mark_end max_size n str h p =
    get_or-set_byte (set_byte str n 0) (max_size - 1) (to_char (max_size - n))
      (omega (arith, length-set_byte str n 0))

-- The number of bytes that a stored distance `d` stands for.
unsigned_small : (m d : ℕ) → d < 128 → d ≤ m → pos m -ℤ signed_char (to_char d) ≡ pos (m - d)
unfolding ◌-ℤ◌
unsigned_small m d h l = ground arith

unsigned_large :
    (m d : ℕ) → 128 ≤ d → d < 256 → d ≤ m → pos m -ℤ signed_char (to_char d) ≡ pos (m - d + 256)
unfolding ◌-ℤ◌
unsigned_large m d h k l = ground arith

-- The size of a cell with `args` words of room, whose end is marked at `n`.
string_size-mark_end :
    (size args n : ℕ) (str : List ℕ)
    → size ≡ args + 2
    → 0 < args
    → length str ≡ 8 * args
    → string_size (record { size = size; str = mark_end (8 * args) n str })
      ≡ pos (8 * args) -ℤ signed_char (to_char (8 * args - n))
unfolding string_size
string_size-mark_end size args n str e p h =
    let enough : leb size str_offset ≡ false = ground arith in
    let room : size - str_offset ≡ args = omega arith in
    rw (enough, room, get_or-mark_end (8 * args) n str h (omega arith)) refl

-- A new string cell has the size that it was made for.
pub string_size-alloc_string :
    (old : List ℕ) (n : ℕ)
    → length old ≡ 8 * string_args n
    → string_args n + 2 < 2 ^ 16
    → string_size (alloc_string old n) ≡ pos n
unfolding alloc_string
string_size-alloc_string old n h k =
    let args = string_args n in
    string_size-mark_end (csize (args + str_offset)) args n old (omega arith) (omega arith) h
    ∙ unsigned_small (8 * args) (8 * args - n) (omega arith) (omega arith)
    ∙ ap pos (omega arith)

-- The size that fits into `args` words with a byte after it.
abbrev pub fitting : (args n : ℕ) → ℕ
fitting args n = if ltb (8 * args - 1) n then 8 * args - 1 else n

module _ (c : StringCell) (args n : ℕ) (e : c.size ≡ args + 2) (p : 0 < args)
    (h : length c.str ≡ 8 * args) where
  set_string_size_lem :
      set_string_size c n
      ≡ (record { size = c.size; str = mark_end (8 * args) (fitting args n) c.str }, fitting args n)
  unfolding set_string_size
  set_string_size_lem =
      let enough : leb c.size str_offset ≡ false = ground arith in
      let room : c.size - str_offset ≡ args = omega arith in rw (enough, room) refl

  string_size-set_lem :
      string_size (set_string_size c n).0
      ≡ pos (8 * args) -ℤ signed_char (to_char (8 * args - fitting args n))
  string_size-set_lem =
      ap (λ q. string_size q.0) set_string_size_lem
      ∙ string_size-mark_end c.size args (fitting args n) c.str e p h

  -- The size that is set is the one read back, cut to what fits, if at most 127 bytes of the room
  -- stay unused.
  pub string_size-set_string_size :
      8 * args < fitting args n + 128
      → ((set_string_size c n).1 ≡ fitting args n)
        × (string_size (set_string_size c n).0 ≡ pos (fitting args n))
  string_size-set_string_size k = (
    ap (λ q. q.1) set_string_size_lem,
    string_size-set_lem
        ∙ unsigned_small (8 * args) (8 * args - fitting args n) (omega arith) (omega arith)
        ∙ ap pos (let bound : fitting args n ≤ 8 * args = ground arith in omega (arith, bound)),
  )

  -- From 128 unused bytes on the stored distance is negative: the size read back is 256 too large.
  pub string_size-overflow :
      n + 128 ≤ 8 * args
      → 8 * args < n + 256
      → ((set_string_size c n).1 ≡ n) × (string_size (set_string_size c n).0 ≡ pos (n + 256))
  string_size-overflow k l =
      let same : fitting args n ≡ n = ground arith in
      (
        ap (λ q. q.1) set_string_size_lem ∙ same,
        string_size-set_lem
            ∙ rw same (
                unsigned_large (8 * args) (8 * args - n) (omega arith) (omega arith) (omega arith)
                ∙ ap pos (omega arith)),
      )

-- The byte behind the `n` characters of a new string cell: it is NUL, except that it is 1 where the
-- characters and the NUL fill the room, since the distance is stored over the NUL.
pub alloc_string-terminator :
    (old : List ℕ) (n : ℕ)
    → length old ≡ 8 * string_args n
    → get_or (alloc_string old n).str n 0 ≡ (if n % 8 == 7 then 1 else 0)
unfolding alloc_string
alloc_string-terminator old n h =
    let m = 8 * string_args n in
    let marked = set_byte old n 0 in
    elim (n % 8 == 7)
        as (λ b.
          (n % 8 == 7) ≡ b
          → get_or (set_byte marked (m - 1) (to_char (m - n))) n 0 ≡ (if b then 1 else 0)) [
            | true ↦ λ e.
                let last : m - 1 ≡ n = ground arith in
                rw last (
                  get_or-set_byte marked n (to_char (m - n))
                    (omega (arith, length-set_byte old n 0))
                  ∙ omega arith)
            | false ↦ λ e.
                get_or-set_other marked n (m - 1) (to_char (m - n)) (ground arith)
                ∙ get_or-set_byte old n 0 (omega arith)
          ]
      refl
