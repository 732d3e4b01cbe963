-- ===== src/Cells/Strings/Contents.antt =====
-- The bytes of the string cells that make_string and make_strcat of special.c build.
use native.Mathlib.Omega.{arith}
use poprc.Prelude.{
  ℕ, zero, suc, ◌+◌, ◌-◌, ◌*◌, ◌^◌, ◌≤◌, ◌<◌, ◌≡◌, refl, ap, ◌∙◌, leb, if◌then◌else◌, List, [], ◌∷◌,
  ◌++◌, some, true, length, get_or, length-append,
}
use poprc.Prelude.Int.{pos, ◌-ℤ◌}
use poprc.Cells.Sizes.{csize}
use poprc.Cells.Strings.{
  StringCell, signed_char, mark_end, string_args, alloc_string, string_size, overwrite, copy_at,
  make_string, make_strcat, take, value_seg,
}
use poprc.Cells.Strings.Size.{length-mark_end, string_size-alloc_string}

length-overwrite : (d s : List ℕ) → length (overwrite d s) ≡ length d
length-overwrite d [] = refl
length-overwrite [] (x ∷ s) = refl
length-overwrite (y ∷ d) (x ∷ s) = ap suc (length-overwrite d s)

take-overwrite : (d s : List ℕ) → length s ≤ length d → take (length s) (overwrite d s) ≡ s
take-overwrite d [] h = refl
take-overwrite [] (x ∷ s) h = absurd (omega arith)
take-overwrite (y ∷ d) (x ∷ s) h = ap (λ t. x ∷ t) (take-overwrite d s (omega arith))

get_or-overwrite : (d s : List ℕ) (i : ℕ) → length s ≤ i → get_or (overwrite d s) i 0 ≡ get_or d i 0
get_or-overwrite d [] i h = refl
get_or-overwrite [] (x ∷ s) i h = refl
get_or-overwrite (y ∷ d) (x ∷ s) zero h = absurd (omega arith)
get_or-overwrite (y ∷ d) (x ∷ s) (suc i) h = get_or-overwrite d s i (omega arith)

copy_at-overwrite :
    (d s t : List ℕ)
    → length s ≤ length d
    → copy_at (overwrite d s) (length s) t ≡ overwrite d (s ++ t)
copy_at-overwrite d [] t h = refl
copy_at-overwrite [] (x ∷ s) t h = absurd (omega arith)
copy_at-overwrite (y ∷ d) (x ∷ s) t h = ap (λ r. x ∷ r) (copy_at-overwrite d s t (omega arith))

-- The size depends on the last byte only.
string_size-same_last :
    (size : ℕ) (a b : List ℕ)
    → get_or a (8 * (size - 2) - 1) 0 ≡ get_or b (8 * (size - 2) - 1) 0
    → string_size (record { size = size; str = a }) ≡ string_size (record { size = size; str = b })
unfolding string_size
string_size-same_last size a b e =
    ap (λ t. if leb size 2 then pos 0 else pos (8 * (size - 2)) -ℤ signed_char t) e

value_seg-of_size :
    (c : StringCell) (n : ℕ)
    → string_size c ≡ pos n
    → n ≤ length c.str
    → value_seg c ≡ some (take n c.str)
unfolding value_seg
value_seg-of_size c n e h =
    let inside : leb n (length c.str) ≡ true = ground arith in rw (value_seg, e, inside) refl

module _ (old : List ℕ) where
  -- Joining two strings builds the cell that their concatenation is made into.
  pub make_strcat-make_string :
      (s1 s2 : List ℕ)
      → length old ≡ 8 * string_args (length s1 + length s2)
      → make_strcat old s1 s2 ≡ make_string old (s1 ++ s2)
  unfolding make_strcat make_string alloc_string
  make_strcat-make_string s1 s2 h =
      let n = length s1 + length s2 in
      let marked = mark_end (8 * string_args n) n old in
      rw (length-append s1 s2) (
        ap (λ t. record { size = csize (string_args n + 2); str = t })
          (copy_at-overwrite marked s1 s2
            (omega (arith, length-mark_end (8 * string_args n) n old))))

  module _ (s : List ℕ) (h : length old ≡ 8 * string_args (length s))
      (k : string_args (length s) + 2 < 2 ^ 16) where
    string_size-make_string : string_size (make_string old s) ≡ pos (length s)
    unfolding make_string alloc_string
    string_size-make_string =
        string_size-same_last (csize (string_args (length s) + 2)) _ _ (
          get_or-overwrite (mark_end (8 * string_args (length s)) (length s) old) s _ (omega arith))
        ∙ string_size-alloc_string old (length s) h k

    -- The segment of a made string is the string.
    pub value_seg-make_string : value_seg (make_string old s) ≡ some s
    unfolding make_string alloc_string
    value_seg-make_string =
        let marked = mark_end (8 * string_args (length s)) (length s) old in
        let same = length-mark_end (8 * string_args (length s)) (length s) old in
        value_seg-of_size (make_string old s) (length s) string_size-make_string
          (omega (arith, same, length-overwrite marked s))
        ∙ ap some (take-overwrite marked s (omega (arith, same)))
