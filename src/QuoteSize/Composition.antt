-- ===== src/QuoteSize/Composition.antt =====
-- The composition of quote sizes in rt.c, and the effects of quotes on the height of the stack.
use poprc.Prelude.{ℕ, ◌+◌, ◌-◌, ◌^◌, ◌≤◌, ◌<◌, ◌≡◌, arith, Option, none, some, leb, if◌then◌else◌}
use poprc.QuoteSize.{QuoteSize, compose_size_c, compose_size_a, compose_size_b}

-- What a quote of a given size does to a stack: it fails on one that is too low.
abbrev pub run : QuoteSize → ℕ → Option ℕ
run q height = if leb q.takes height then some (height - q.takes + q.leaves) else none

abbrev pub run_on : QuoteSize → Option ℕ → Option ℕ
run_on q none = none
run_on q (some height) = run q height

abbrev pub push : ℕ → Option ℕ → Option ℕ
push n none = none
push n (some height) = some (height + n)

-- Sizes that leave room for sums in 16 bits.
abbrev pub IsSmall : QuoteSize → Type 0
IsSmall q = (q.takes < 2 ^ 14) × (q.leaves < 2 ^ 14)

-- A quote of the composed size does to every stack what the two quotes do one after the other, with
-- `n` elements pushed between them. It fails on exactly the same stacks.
pub compose_size_c-run :
    (n : ℕ) (a b : QuoteSize) (height : ℕ)
    → n < 2 ^ 14
    → IsSmall a
    → IsSmall b
    → run (compose_size_c n a b) height ≡ run_on b (push n (run a height))
unfolding compose_size_c
compose_size_c-run n a b height h k l = ground arith

-- The size found for the second quote, and then the one for the first, compose to the size asked
-- for, whatever the first was.
pub compose_size-solved :
    (n : ℕ) (a c : QuoteSize)
    → n < 2 ^ 14
    → IsSmall a
    → IsSmall c
    → let b = compose_size_b n a c in compose_size_c n (compose_size_a n b c) b ≡ c
unfolding compose_size_c compose_size_a compose_size_b
compose_size-solved n a c h k l = ground arith

-- If the first quote does not take more than the size asked for, the second one's size solves the
-- equation as it is.
pub compose_size_b-solves :
    (n : ℕ) (a c : QuoteSize)
    → n < 2 ^ 14
    → IsSmall a
    → IsSmall c
    → a.takes ≤ c.takes
    → compose_size_c n a (compose_size_b n a c) ≡ c
unfolding compose_size_c compose_size_b
compose_size_b-solves n a c h k l m = ground arith
