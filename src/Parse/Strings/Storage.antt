-- ===== src/Parse/Strings/Storage.antt =====
-- What `seg_string` of parse/parse.c stores, and how `strings_drop` takes it back.
use native.Mathlib.Omega.{arith}
use poprc.Prelude.{
  ℕ, ◌+◌, ◌-◌, ◌≤◌, ◌<◌, ◌≡◌, refl, ap, sym, ◌∙◌, true, false, ◌&&◌, List, [], ◌∷◌, ◌++◌, none,
  some, leb, ◌==◌, length, length-reverse, drop, drop-append, nul_free, c_string, c_string-nul_free,
}
use mathlib.Core.List.{reverse, reverse-cons, reverse-append, reverse-reverse, append_assoc}
use poprc.Parse.Strings.{Strings, string_at, seg_string, drop_to_nul, strings_drop}

-- Whole strings stand below the top.
abbrev pub IsWhole : Strings → Type 0
IsWhole st = (drop_to_nul st.below) ≡ st.below

nul_free-append : (xs ys : List ℕ) → nul_free (xs ++ ys) ≡ (nul_free xs && nul_free ys)
nul_free-append [] ys = refl
nul_free-append (x ∷ xs) ys = ground (arith, nul_free-append xs ys)

nul_free-reverse : (xs : List ℕ) → nul_free xs ≡ true → nul_free (reverse xs) ≡ true
nul_free-reverse [] h = refl
nul_free-reverse (x ∷ xs) h =
    ap nul_free (reverse-cons x xs)
    ∙ nul_free-append (reverse xs) (x ∷ [])
    ∙ ground (arith, nul_free-reverse xs, h)

drop_to_nul-append : (xs ys : List ℕ) → nul_free xs ≡ true → drop_to_nul (xs ++ ys) ≡ drop_to_nul ys
drop_to_nul-append [] ys h = refl
drop_to_nul-append (x ∷ xs) ys h =
    let e : (x == 0) ≡ false = ground (arith, h) in
    rw e (drop_to_nul-append xs ys (ground (arith, h)))

-- The storage with a string on top
abbrev pub pushed : List ℕ → Strings → Strings
pushed s st = record st { below = 0 ∷ (reverse s ++ st.below) }

pub strings_drop-pushed :
    (s : List ℕ) (st : Strings)
    → nul_free s ≡ true
    → IsWhole st
    → strings_drop (pushed s st) ≡ some st
unfolding strings_drop
strings_drop-pushed s st h w =
    ap (λ b. some (record st { below = b }))
      (drop_to_nul-append (reverse s) st.below (nul_free-reverse s h) ∙ w)

in_order :
    (s : List ℕ) (st : Strings) → reverse (pushed s st).below ≡ reverse st.below ++ (s ++ (0 ∷ []))
in_order s st =
    reverse-cons 0 (reverse s ++ st.below)
    ∙ ap (λ t. t ++ (0 ∷ []))
        (reverse-append (reverse s) st.below ∙ ap (λ t. reverse st.below ++ t) (reverse-reverse s))
    ∙ append_assoc (reverse st.below) s (0 ∷ [])

pub read_lem :
    (s : List ℕ) (st : Strings) → nul_free s ≡ true → string_at (pushed s st) (length st.below) ≡ s
read_lem s st h =
    ap c_string (
      ap (λ n. drop n (reverse (pushed s st).below)) (sym (length-reverse st.below))
      ∙ ap (λ t. drop (length (reverse st.below)) t) (in_order s st)
      ∙ drop-append (reverse st.below) (s ++ (0 ∷ [])))
    ∙ c_string-nul_free s [] h

pub seg_string-pushed :
    (s : List ℕ) (st : Strings)
    → length st.below + length s + 1 ≤ st.strings_size
    → seg_string s st ≡ some (length st.below, pushed s st)
unfolding seg_string
seg_string-pushed s st f =
    let fits : leb (length s + 1) (st.strings_size - length st.below) ≡ true = ground (arith, f) in
    rw fits refl

pub seg_string-none :
    (s : List ℕ) (st : Strings)
    → st.strings_size < length st.below + length s + 1
    → seg_string s st ≡ none
unfolding seg_string
seg_string-none s st f =
    let full : leb (length s + 1) (st.strings_size - length st.below) ≡ false = ground (arith, f) in
    rw full refl

-- A string that fits is stored at the top, is read there, and is taken back by `strings_drop`.
pub strings_drop-seg_string :
    (s : List ℕ) (st : Strings)
    → nul_free s ≡ true
    → IsWhole st
    → length st.below + length s + 1 ≤ st.strings_size
    → (a : ℕ) × (st' : Strings) × (seg_string s st ≡ some (a, st'))
      × (string_at st' a ≡ s)
      × (strings_drop st' ≡ some st)
strings_drop-seg_string s st h w f = (
  length st.below,
  pushed s st,
  seg_string-pushed s st f,
  read_lem s st h,
  strings_drop-pushed s st h w,
)
