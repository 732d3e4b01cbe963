-- ===== src/Cells/AltSets/Tests.antt =====
-- The source's own test of the sets of alternatives.
use poprc.Prelude.{◌≡◌, refl, some}
use poprc.Cells.AltSets.{as_multi, as_mask, as_from_mask}

multi : as_multi 0 3 5 ≡ some 38
unfolding as_multi
multi = refl

from_mask : as_from_mask (as_mask 38) 17 ≡ some 38
unfolding as_from_mask as_mask
from_mask = refl
