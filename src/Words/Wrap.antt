-- ===== src/Words/Wrap.antt =====
-- Arithmetic in a register is exact where the result is a word.
use poprc.Prelude.{◌≡◌, arith}
use poprc.Prelude.Int.{ℤ, pos, negsuc}
use poprc.Words.{IsWord, wrap}

pub wrap-eq_of_IsWord : (x : ℤ) → IsWord x → wrap x ≡ x
unfolding wrap
wrap-eq_of_IsWord (pos n) h = ground arith
wrap-eq_of_IsWord (negsuc n) h = ground arith

pub wrap-IsWord : (x : ℤ) → IsWord (wrap x)
unfolding wrap
wrap-IsWord (pos n) = ground arith
wrap-IsWord (negsuc n) = ground arith
