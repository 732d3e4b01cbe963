-- ===== src/Parse/Words/Digits.antt =====
-- What `match_param_word` of parse/parse.c recognises.
use native.Mathlib.Omega.{arith}
use mathlib.Core.Path.{subst}
use mathlib.Core.List.{append-nil}
use mathlib.Core.Option.{none-ne-some}
use poprc.Prelude.{
  ℕ, ◌+◌, ◌-◌, ◌≤◌, ◌<◌, ◌≡◌, refl, ap, sym, ◌∙◌, ◌↔◌, Bool, true, false, List, [], ◌∷◌, ◌++◌,
  Option, none, some, ◌==◌, Bool-cases, inl, inr, some_inj, Option-cases,
}
use poprc.Token.Class.{Run, done, thrown, out_of_fuel, char_class}
use poprc.Parse.Words.{is_numeric, behind, if_numeric, when_true, param_digits, match_param_word}

-- The words that are `pre` and at most two digits, and the numbers of inputs and outputs they give.
pub data IsParamWord (pre : List ℕ) (i o : ℕ) : List ℕ → (inputs outputs : ℕ) → Type 0 where
  plain : IsParamWord pre i o pre i o
  one : (d : ℕ) → d < 10 → IsParamWord pre i o (pre ++ ((b'0' + d) ∷ [])) d o
  two :
      (d e : ℕ) → d < 10 → e < 10 → IsParamWord pre i o (pre ++ ((b'0' + d) ∷ (b'0' + e) ∷ [])) d e

is_numeric_lem : (d : ℕ) → d < 10 → is_numeric (b'0' + d) ≡ done true
unfolding char_class
is_numeric_lem d h = ground (arith, h)

behind-append : (pre s : List ℕ) → behind pre (pre ++ s) ≡ some s
behind-append [] s = refl
behind-append (p ∷ pre) s = let e : (p == p) ≡ true = ground arith in rw e (behind-append pre s)

numeric_digit : (c : ℕ) → is_numeric c ≡ done true → (b'0' ≤ c) × (c - b'0' < 10)
unfolding char_class
numeric_digit c h = (ground (arith, h), ground (arith, h))

behind_lem : (pre seg s : List ℕ) → behind pre seg ≡ some s → pre ++ s ≡ seg
behind_lem [] seg s h = sym (some_inj h)
behind_lem (p ∷ pre) [] s h = absurd (none-ne-some s h)
behind_lem (p ∷ pre) (c ∷ seg) s h = elim (Bool-cases (p == c)) [
  | inl e ↦
      ap (λ t. t ∷ (pre ++ s)) (ground (arith, e))
      ∙ ap (λ t. c ∷ t) (behind_lem pre seg s (sym (hit e) ∙ h))
  | inr e ↦ absurd (none-ne-some s (sym (miss e) ∙ h))
]
  where
    hit : (p == c) ≡ true → behind (p ∷ pre) (c ∷ seg) ≡ behind pre seg
    hit e = rw e refl

    miss : (p == c) ≡ false → behind (p ∷ pre) (c ∷ seg) ≡ none
    miss e = rw e refl

done_inj : {A : Type 0} {a b : A} → done a ≡ done b → a ≡ b
done_inj h = cc

abbrev Found : ℕ → ℕ → Run (Option (ℕ × ℕ)) → Type 0
Found x y r = r ≡ done (some (x, y))

-- The numeric test of a character decides.
if_numeric_lem :
    (c : ℕ) (r : Run (Option (ℕ × ℕ))) (x y : ℕ)
    → Found x y (if_numeric c r)
    → (is_numeric c ≡ done true) × Found x y r
if_numeric_lem c r x y h = go (is_numeric c) refl h
  where
    go :
        (t : Run Bool)
        → is_numeric c ≡ t
        → Found x y (when_true t r)
        → (is_numeric c ≡ done true) × Found x y r
    go (done true) e k = (e, k)
    go (done false) e k = absurd (none-ne-some (x, y) (done_inj k))
    go thrown e k = absurd cc
    go out_of_fuel e k = absurd cc

param_digits-IsParamWord :
    (pre s : List ℕ) (i o x y : ℕ)
    → Found x y (param_digits s i o)
    → IsParamWord pre i o (pre ++ s) x y
param_digits-IsParamWord pre [] i o x y h =
    rw (append-nil pre) (subst (λ t. IsParamWord pre i o pre t.0 t.1) (some_inj (done_inj h)) plain)
param_digits-IsParamWord pre (a ∷ []) i o x y h =
    let (n, k) = if_numeric_lem a (done (some (a - b'0', o))) x y h in
    let (low, high) = numeric_digit a n in
    subst (λ t. IsParamWord pre i o (pre ++ (a ∷ [])) t.0 t.1) (some_inj (done_inj k))
      (subst (λ t. IsParamWord pre i o (pre ++ (t ∷ [])) (a - b'0') o) (omega (arith, low))
        (one (a - b'0') high))
param_digits-IsParamWord pre (a ∷ b ∷ []) i o x y h =
    let (m, l) = if_numeric_lem b (if_numeric a (done (some (a - b'0', b - b'0')))) x y h in
    let (n, k) = if_numeric_lem a (done (some (a - b'0', b - b'0'))) x y l in
    let (low_a, high_a) = numeric_digit a n in
    let (low_b, high_b) = numeric_digit b m in
    let same_a : b'0' + (a - b'0') ≡ a = omega (arith, low_a) in
    let same_b : b'0' + (b - b'0') ≡ b = omega (arith, low_b) in
    subst (λ t. IsParamWord pre i o (pre ++ (a ∷ b ∷ [])) t.0 t.1) (some_inj (done_inj k))
      (subst (λ t. IsParamWord pre i o (pre ++ (t ∷ b ∷ [])) (a - b'0') (b - b'0')) same_a
        (subst
          (λ t. IsParamWord pre i o (pre ++ ((b'0' + (a - b'0')) ∷ t ∷ [])) (a - b'0') (b - b'0'))
          same_b (two (a - b'0') (b - b'0') high_a high_b)))
param_digits-IsParamWord pre (a ∷ b ∷ c ∷ s) i o x y h = absurd (none-ne-some (x, y) (done_inj h))

found_lem :
    (pre seg s : List ℕ) (i o x y : ℕ)
    → behind pre seg ≡ some s
    → Found x y (param_digits s i o)
    → Found x y (match_param_word pre seg i o)
unfolding match_param_word
found_lem pre seg s i o x y e h = rw (match_param_word, e) h

digits_Found :
    (pre seg : List ℕ) (i o x y : ℕ)
    → IsParamWord pre i o seg x y
    → Found x y (match_param_word pre seg i o)
digits_Found pre seg i o x y plain =
    found_lem pre pre [] i o i o (ap (behind pre) (sym (append-nil pre)) ∙ behind-append pre [])
      refl
digits_Found pre seg i o x y (one d h) =
    let back : (b'0' + d) - b'0' ≡ d = omega arith in
    found_lem pre seg ((b'0' + d) ∷ []) i o x y (behind-append pre ((b'0' + d) ∷ [])) (
      ap (λ t. when_true t (done (some ((b'0' + d) - b'0', o)))) (is_numeric_lem d h)
      ∙ ap (λ t. done (some (t, o))) back)
digits_Found pre seg i o x y (two d e h k) =
    let back : (b'0' + d) - b'0' ≡ d = omega arith in
    let back_e : (b'0' + e) - b'0' ≡ e = omega arith in
    let both = done (some ((b'0' + d) - b'0', (b'0' + e) - b'0')) in
    found_lem pre seg ((b'0' + d) ∷ (b'0' + e) ∷ []) i o x y
      (behind-append pre ((b'0' + d) ∷ (b'0' + e) ∷ []))
      (ap (λ t. when_true t (if_numeric (b'0' + d) both)) (is_numeric_lem e k)
        ∙ ap (λ t. when_true t both) (is_numeric_lem d h)
        ∙ ap (λ t. done (some (t, (b'0' + e) - b'0'))) back
        ∙ ap (λ t. done (some (d, t))) back_e)

-- A word matches, with the numbers found, exactly if it is the prefix and up to two digits: the first
-- is the number of inputs, the second that of outputs, and a number that is not there stays.
pub match_param_word-IsParamWord :
    (pre seg : List ℕ) (i o x y : ℕ)
    → (match_param_word pre seg i o ≡ done (some (x, y))) ↔ IsParamWord pre i o seg x y
unfolding match_param_word
match_param_word-IsParamWord pre seg i o x y = (forward, digits_Found pre seg i o x y)
  where
    forward : Found x y (match_param_word pre seg i o) → IsParamWord pre i o seg x y
    forward h = elim (Option-cases (behind pre seg)) [
      | inl e ↦ absurd (none-ne-some (x, y) (done_inj (sym (missed e) ∙ h)))
      | inr (s, e) ↦
          subst (λ t. IsParamWord pre i o t x y) (behind_lem pre seg s e)
            (param_digits-IsParamWord pre s i o x y (sym (reached s e) ∙ h))
    ]
      where
        missed : behind pre seg ≡ none → match_param_word pre seg i o ≡ done none
        missed e = rw (match_param_word, e) refl

        reached :
            (s : List ℕ)
            → behind pre seg ≡ some s
            → match_param_word pre seg i o ≡ param_digits s i o
        reached s e = rw (match_param_word, e) refl
