-- ===== src/Cells/Ring/Cycle.antt =====
-- `check_cycle` of cells.c on the ring.
use native.Mathlib.Omega.{arith}
use poprc.Prelude.{
  ℕ, zero, suc, ◌+◌, ◌≤◌, ◌≡◌, refl, ap, ◌∙◌, true, false, List, [], ◌∷◌, some, ◌==◌, length,
}
use poprc.Cells.Ring.{Pool, is_cell, is_free, check_loop, check_cycle}
use poprc.Cells.Ring.Links.{has, last, Linked}
use poprc.Cells.Ring.Account.{IsPool}

-- The cell behind the first of a path, when the last one leads to `start`
abbrev second : (start : ℕ) → List ℕ → ℕ
second start [] = start
second start (x ∷ xs) = x

next-second :
    (s : Pool) (start a : ℕ) (xs : List ℕ)
    → Linked s.next s.prev a xs
    → s.next (last a xs) ≡ start
    → s.next a ≡ second start xs
next-second s start a [] l h = h
next-second s start a (x ∷ xs) l h = l.0

second-is_cell :
    (s : Pool) (start : ℕ) (xs : List ℕ)
    → ((c : ℕ) → has c (start ∷ xs) ≡ true → is_free s c ≡ true)
    → is_cell s (second start xs) ≡ true
second-is_cell s start [] f = ground (arith, f start)
second-is_cell s start (x ∷ xs) f = ground (arith, f x)

step_lem :
    (k start a : ℕ) (s : Pool)
    → (s.next a == start) ≡ false
    → is_cell s (s.next (s.next a)) ≡ true
    → check_loop (suc k) start a s ≡ check_loop k start (s.next a) s
unfolding check_loop
step_lem k start a s e c = rw (check_loop, e, c) refl

-- From a cell on, the loop follows the rest of the ring to its start.
check_loop-true :
    (k start a : ℕ) (s : Pool) (xs : List ℕ)
    → Linked s.next s.prev a xs
    → s.next (last a xs) ≡ start
    → has start xs ≡ false
    → ((c : ℕ) → has c (start ∷ xs) ≡ true → is_free s c ≡ true)
    → length xs ≤ k
    → check_loop k start a s ≡ some true
unfolding check_loop
check_loop-true zero start a s [] l e h f n =
    let here : (s.next a == start) ≡ true = ground (arith, e) in ap (λ t. some t) here
check_loop-true zero start a s (x ∷ xs) l e h f n = absurd (omega (arith, n))
check_loop-true (suc k) start a s [] l e h f n =
    let here : (s.next a == start) ≡ true = ground (arith, e) in rw (check_loop, here) refl
check_loop-true (suc k) start a s (x ∷ xs) l e h f n =
    let away : (s.next a == start) ≡ false = ap (λ t. t == start) l.0 ∙ ground (arith, h) in
    let cell : is_cell s (s.next (s.next a)) ≡ true =
      ap (λ t. is_cell s (s.next t)) l.0
      ∙ ap (λ t. is_cell s t) (next-second s start x xs l.2 e)
      ∙ second-is_cell s start xs (λ c m. f c (ground (arith, m))) in
    step_lem k start a s away cell
    ∙ ap (λ t. check_loop k start t s) l.0
    ∙ check_loop-true k start x s xs l.2 e (ground (arith, h)) (λ c m. f c (ground (arith, m)))
        (omega (arith, n))

-- On the ring of a pool, `check_cycle` finds its way round and returns true.
pub check_cycle-IsPool : (s : Pool) (ys : List ℕ) → IsPool s ys → check_cycle s ≡ some true
unfolding check_cycle
check_cycle-IsPool s ys p =
    check_loop-true (s.cells_size + 1) s.cells_ptr s.cells_ptr s ys p.ring.path p.ring.close
      p.ring.distinct.0 p.ring.free (omega (arith, p.count, p.bound))
