-- ===== src/Prelude/Texts.antt =====
-- Texts: lists of bytes, compared, and read from memory up to a NUL.
use Prim.Native.Nat.{ℕ}
use mathlib.Core.Path.{◌≡◌, refl, ap}
use mathlib.Core.Bool.{Bool, true, false, ◌&&◌, not}
use mathlib.Core.List.{List, [], ◌∷◌, ◌++◌}
use native.Mathlib.Omega.{arith}
use poprc.Prelude.Tests.{◌==◌, if◌then◌else◌}

infix 50 ◌=t◌
abbrev pub ◌=t◌ : List ℕ → List ℕ → Bool
[] =t [] = true
[] =t (y ∷ ys) = false
(x ∷ xs) =t [] = false
(x ∷ xs) =t (y ∷ ys) = (x == y) && (xs =t ys)

pub =t_refl : (xs : List ℕ) → (xs =t xs) ≡ true
=t_refl [] = refl
=t_refl (x ∷ xs) = ground (arith, =t_refl xs)

pub =t→eq : (xs ys : List ℕ) → (xs =t ys) ≡ true → xs ≡ ys
=t→eq [] [] h = refl
=t→eq [] (y ∷ ys) h = absurd (ground (arith, h))
=t→eq (x ∷ xs) [] h = absurd (ground (arith, h))
=t→eq (x ∷ xs) (y ∷ ys) h =
    let q : x ≡ y = ground (arith, h) in let r = =t→eq xs ys (ground (arith, h)) in cc

-- No byte of the text is NUL.
abbrev pub nul_free : List ℕ → Bool
nul_free [] = true
nul_free (x ∷ xs) = not (x == 0) && nul_free xs

-- The bytes up to a NUL.
abbrev pub c_string : List ℕ → List ℕ
c_string [] = []
c_string (x ∷ xs) = if x == 0 then [] else x ∷ c_string xs

pub c_string-nul_free : (xs ys : List ℕ) → nul_free xs ≡ true → c_string (xs ++ (0 ∷ ys)) ≡ xs
c_string-nul_free [] ys h = refl
c_string-nul_free (x ∷ xs) ys h =
    let e : (x == 0) ≡ false = ground (arith, h) in
    rw e (ap (λ t. x ∷ t) (c_string-nul_free xs ys (ground (arith, h))))
