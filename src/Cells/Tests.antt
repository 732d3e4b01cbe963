-- ===== src/Cells/Tests.antt =====
-- The theorems on cells.c at concrete instances.
use Prim.Native.Nat.{bit_and}
use native.Mathlib.Omega.{arith}
use poprc.Prelude.{ℕ, ◌+◌, ◌*◌, ◌/◌, ◌≡◌, refl, ◌↔◌, [], ◌∷◌, some}
use poprc.Prelude.Int.{pos}
use poprc.Cells.AltSets.{as_mask_bits, as_multi, as_conflict, as_mask, as_from_mask}
use poprc.Cells.AltSets.Choices.{IsConsistent, as_conflict-IsConsistent}
use poprc.Cells.AltSets.RoundTrip.{as_from_mask-as_mask}
use poprc.Cells.AltSets.Multi.{IsMulti, as_multi-IsMulti}
use poprc.Cells.Strings.{StringCell, zeroes, alloc_string, string_size, make_string, value_seg}
use poprc.Cells.Strings.Size.{string_size-alloc_string}
use poprc.Cells.Strings.Contents.{value_seg-make_string}

as_conflict-IsConsistent_example : (as_conflict 6 ≡ 0) ↔ IsConsistent 6
as_conflict-IsConsistent_example = as_conflict-IsConsistent 6 (omega arith)

six-IsConsistent : IsConsistent 6
six-IsConsistent = as_conflict-IsConsistent_example.0 (unfold as_conflict in refl)

one-IsConsistent : IsConsistent 1
one-IsConsistent = (as_conflict-IsConsistent 1 (omega arith)).0 (unfold as_conflict in refl)

as_from_mask-as_mask_example : as_from_mask (as_mask 6) (bit_and (6 / 2) as_mask_bits) ≡ some 6
as_from_mask-as_mask_example = as_from_mask-as_mask 6 (omega arith) six-IsConsistent

as_multi-IsMulti_example : (r : ℕ) × (as_multi 3 4 5 ≡ some r) × IsMulti 3 4 5 r
as_multi-IsMulti_example = as_multi-IsMulti 3 4 5 (omega arith)

string_size-alloc_string_example : string_size (alloc_string (zeroes 16) 11) ≡ pos 11
string_size-alloc_string_example = string_size-alloc_string (zeroes 16) 11 refl (omega arith)

abbrev wide_cell : ℕ → StringCell
wide_cell n = record { size = n + 2; str = zeroes (8 * n) }

value_seg-make_string_example :
    value_seg (make_string (zeroes 8) (1 ∷ 2 ∷ 3 ∷ [])) ≡ some (1 ∷ 2 ∷ 3 ∷ [])
value_seg-make_string_example = value_seg-make_string (zeroes 8) (1 ∷ 2 ∷ 3 ∷ []) refl (omega arith)
