-- ===== src/QuoteSize/Tests.antt =====
-- The compositions of rt.c at concrete sizes.
use poprc.Prelude.{◌≡◌, arith}
use poprc.QuoteSize.{QuoteSize, compose_size_c}
use poprc.QuoteSize.Composition.{run, run_on, push, compose_size_c-run}

abbrev swap : QuoteSize
swap = record { takes = 2; leaves = 2 }

abbrev three_to_one : QuoteSize
three_to_one = record { takes = 3; leaves = 1 }

compose_size_c-run_example :
    run (compose_size_c 0 swap three_to_one) 4 ≡ run_on three_to_one (push 0 (run swap 4))
compose_size_c-run_example =
    compose_size_c-run 0 swap three_to_one 4 (omega arith) (omega arith, omega arith)
      (omega arith, omega arith)
