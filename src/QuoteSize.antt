-- ===== src/QuoteSize.antt =====
-- The sizes of quotes (`qsize_t`) in rt.c: how many elements a quote takes from the stack and how
-- many it leaves. Both have 16 bits.
pub mod Composition
mod Tests
use poprc.Prelude.{ℕ, ◌+◌, ◌-◌, ◌%◌, ◌^◌, ltb, if◌then◌else◌}

-- The fields `in` and `out` of `qsize_t`
pub record QuoteSize : Type 0 where
  pub takes : ℕ
  pub leaves : ℕ

abbrev pub csize : ℕ → ℕ
csize n = n % 2 ^ 16

-- The macro `csub`
abbrev pub csub : ℕ → ℕ → ℕ
csub a b = if ltb a b then 0 else a - b

-- The size of `a b .`, where `n` elements stand between the two
unfoldable pub compose_size_c : ℕ → QuoteSize → QuoteSize → QuoteSize
compose_size_c n a b =
    let out = csize (a.leaves + n) in
    record {
      takes = csize (a.takes + csub b.takes out);
      leaves = csize (b.leaves + csub out b.takes);
    }

unfoldable pub compose_size_a : ℕ → QuoteSize → QuoteSize → QuoteSize
compose_size_a n b c = record {
  takes = c.takes;
  leaves = csize (csub (b.takes + csub c.leaves b.leaves) n);
}

unfoldable pub compose_size_b : ℕ → QuoteSize → QuoteSize → QuoteSize
compose_size_b n a c = record {
  takes = csize (a.leaves + n + csub c.takes a.takes);
  leaves = c.leaves;
}
