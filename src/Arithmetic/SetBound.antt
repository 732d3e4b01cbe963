-- ===== src/Arithmetic/SetBound.antt =====
-- What a handler that reports success has set.
use poprc.Prelude.{◌≡◌, refl, Option, some, none, true}
use poprc.Words.{Range}
use poprc.Arithmetic.{ArgBounds, set_left, set_right}

pub set_right_inv :
    (b : ArgBounds) (o : Option Range) {b' : ArgBounds}
    → set_right b o ≡ (true, b')
    → (r : Range) × (o ≡ some r) × (b'.right ≡ r) × (b'.left ≡ b.left)
set_right_inv b none h = cc
set_right_inv b (some r) h = (r, refl, cc, cc)

pub set_left_inv :
    (b : ArgBounds) (o : Option Range) {b' : ArgBounds}
    → set_left b o ≡ (true, b')
    → (r : Range) × (o ≡ some r) × (b'.left ≡ r) × (b'.right ≡ b.right)
set_left_inv b none h = cc
set_left_inv b (some r) h = (r, refl, cc, cc)
