-- ===== src/Widths/Tests.antt =====
-- Widths of registers under the reference.
use poprc.Prelude.{◌≡◌, refl, false, arith}
use poprc.Prelude.Int.{pos, negsuc, ◌+ℤ◌, ◌-ℤ◌}
use poprc.Words.{range}
use poprc.Widths.{bits_needed}
use poprc.Widths.Fits.{Holds, bits_needed-Holds}
use poprc.Widths.Reference.{startle, log2_loop}

byte_width : bits_needed startle (range (pos 0) (pos 255)) false ≡ 8
unfolding bits_needed log2_loop ◌+ℤ◌
byte_width = refl

signed_width : bits_needed startle (range (negsuc 4) (pos 3)) false ≡ 4
unfolding bits_needed log2_loop ◌+ℤ◌ ◌-ℤ◌
signed_width = refl

bits_needed-Holds_example :
    Holds (bits_needed startle (range (negsuc 4) (pos 3)) false) (negsuc 4) (negsuc 3)
bits_needed-Holds_example =
    bits_needed-Holds startle (range (negsuc 4) (pos 3)) false (negsuc 3) (omega arith)
      (omega arith) (rw signed_width (omega arith))
