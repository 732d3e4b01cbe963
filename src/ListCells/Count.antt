-- ===== src/ListCells/Count.antt =====
-- The loops over iterators of list.c: the pointers that FORLIST sees, and how many
-- list_remaining_size says there are.
use native.Mathlib.Omega.{arith}
use mathlib.Core.Path.{subst}
use poprc.Prelude.{
  ℕ, zero, suc, ◌+◌, ◌-◌, ◌%◌, ◌^◌, ◌≤◌, ◌<◌, ◌≡◌, refl, sym, ap, ◌∙◌, Bool, true, false, [], ◌∷◌,
  Option, none, some, length, ltb, if◌then◌else◌,
}
use poprc.ListCells.{
  other, list, Cells, nil, cons, count, nth, Iterator, as_number, list_begin, list_next,
  remaining_loop, list_remaining_size, for_list,
}
use poprc.ListCells.Flat.{
  flat, drop_cells, drop_cells-all, count-drop_cells, rows, IsSound, IsAt, rest, Yields,
  list_begin-IsAt, last_row, list_next-Yields,
}

for_list-rest :
    (steps k : ℕ) (it : Iterator) (w : Bool) (ps : Cells)
    → IsAt it ps
    → rows it.row ps < k
    → length (rest w it ps) < steps
    → for_list steps k it w ≡ some (rest w it ps)
unfolding for_list
for_list-rest zero k it w ps a h l = absurd (omega arith)
for_list-rest (suc steps) k it w ps a h l =
    elim (list_next k it w)
        as (λ o.
          Yields w (rest w it ps) k o
          → (elim o [
            | none ↦ none
            | some (none, it') ↦ some []
            | some (some x, it') ↦ elim (for_list steps k it' w) [
              | none ↦ none
              | some xs ↦ some (x ∷ xs)
            ]
          ])
            ≡ some (rest w it ps)) [
              | none ↦ λ y. absurd y
              | some (none, it') ↦ λ y. ap some (sym y)
              | some (some x, it') ↦ λ (qs, b, m, e).
                  let tail =
                    for_list-rest steps k it' w qs b m (omega (arith, l, ap (λ t. length t) e)) in
                  rw tail (ap some (sym e))
            ]
      (list_next-Yields k it w ps a h)

-- The loop of FORLIST over a list sees its elements, then those of the list in its row, and so on.
pub for_list-flat :
    (steps k : ℕ) (row w : Bool) (ps : Cells)
    → IsSound row ps
    → count ps < 2 ^ 16
    → rows row ps < k
    → length (flat w row ps) < steps
    → for_list steps k (list_begin row ps) w ≡ some (flat w row ps)
unfolding list_begin
for_list-flat steps k row w ps s c h l =
    for_list-rest steps k (list_begin row ps) w ps (list_begin-IsAt row ps s c) h l

length-flat_plain : (w : Bool) (ps : Cells) → length (flat w false ps) ≡ count ps
length-flat_plain w nil = refl
length-flat_plain w (cons x nil) = refl
length-flat_plain w (cons x (cons y ys)) = ap suc (length-flat_plain w (cons y ys))

length-flat_row :
    (w : Bool) (ps : Cells) (i size : ℕ)
    → i ≤ size
    → count ps ≡ suc size
    → length (flat w true (drop_cells i ps))
      ≡ size - i + length (flat w true (cons (nth ps size) nil))
length-flat_row w nil i size h c = absurd (omega arith)
length-flat_row w (cons x nil) zero zero h c = omega arith
length-flat_row w (cons x nil) i (suc size) h c = absurd (omega arith)
length-flat_row w (cons x nil) (suc i) zero h c = absurd (omega arith)
length-flat_row w (cons x (cons y ys)) i zero h c = absurd (omega arith)
length-flat_row w (cons x (cons y ys)) zero (suc size) h c =
    omega (arith, length-flat_row w (cons y ys) zero size (omega arith) (omega arith))
length-flat_row w (cons x (cons y ys)) (suc i) (suc size) h c =
    omega (arith, length-flat_row w (cons y ys) i size (omega arith) (omega arith))

-- The count of a list whose last pointer is a row that is no list, or a list.
row_length-other :
    (w row : Bool) (x : ℕ) (i size n : ℕ) (ps : Cells)
    → row ≡ true
    → i ≤ size
    → count ps ≡ suc size
    → nth ps size ≡ other x
    → n + (size + as_number w - i) ≡ n + length (flat w row (drop_cells i ps))
row_length-other w row x i size n ps r h c e =
    let total =
      ap (λ b. length (flat w b (drop_cells i ps))) r
      ∙ length-flat_row w ps i size h c
      ∙ ap (λ t. size - i + length (flat w true (cons t nil))) e in
    let last : length (if w then other x ∷ [] else []) ≡ as_number w = ground arith in
    omega (arith, total, last)

remaining_loop-rest :
    (k n : ℕ) (it : Iterator) (w : Bool) (ps : Cells)
    → IsAt it ps
    → it.index ≤ it.size
    → rows it.row ps < k
    → remaining_loop k n it ps w ≡ some ((n + length (rest w it ps)) % 2 ^ 16)
unfolding remaining_loop list_begin
remaining_loop-rest zero n it w ps a l h = absurd (omega arith)
remaining_loop-rest (suc k) n it w ps a l h =
    elim it.row
        as (λ b.
          it.row ≡ b
          → (if b
              then elim (nth ps it.size) [
                | list row ptr' ↦
                    remaining_loop k ((n + (it.size - it.index)) % 2 ^ 16) (list_begin row ptr')
                      ptr' w
                | other x ↦ some ((n + (it.size + as_number w - it.index)) % 2 ^ 16)
              ]
              else some ((n + (it.size - it.index)) % 2 ^ 16))
            ≡ some ((n + length (rest w it ps)) % 2 ^ 16)) [
              | true ↦ λ r.
                  let counted : count ps ≡ suc it.size = omega (arith, a.sized, ap as_number r) in
                  elim (nth ps it.size)
                      as (λ c.
                        nth ps it.size ≡ c
                        → elim c [
                          | list row ptr' ↦
                              remaining_loop k ((n + (it.size - it.index)) % 2 ^ 16)
                                (list_begin row ptr') ptr' w
                          | other x ↦ some ((n + (it.size + as_number w - it.index)) % 2 ^ 16)
                        ]
                          ≡ some ((n + length (rest w it ps)) % 2 ^ 16)) [
                            | other x ↦ λ e.
                                ap (λ t. some (t % 2 ^ 16))
                                  (row_length-other w it.row x it.index it.size n ps r l counted e)
                            | list b qs ↦ λ e.
                                let lr =
                                  last_row w b qs ps it.size counted e
                                    (subst (λ t. IsSound t ps) r a.sound) in
                                let inner =
                                  remaining_loop-rest k ((n + (it.size - it.index)) % 2 ^ 16)
                                    (list_begin b qs) w qs (list_begin-IsAt b qs lr.0 lr.1)
                                    (omega arith) (omega (arith, h, lr.2, ap (λ t. rows t ps) r)) in
                                let total =
                                  ap (λ t. length (flat w t (drop_cells it.index ps))) r
                                  ∙ length-flat_row w ps it.index it.size l counted
                                  ∙ ap (λ t. it.size - it.index + length (flat w true (cons t nil)))
                                      e in
                                inner ∙ ap some (omega (arith, total))
                          ]
                    refl
              | false ↦ λ r.
                  let left = drop_cells it.index ps in
                  ap (λ t. some ((n + t) % 2 ^ 16))
                    (omega (
                      arith,
                      a.sized,
                      ap as_number r,
                      count-drop_cells it.index ps,
                      length-flat_plain w left,
                      ap (λ b. length (flat w b left)) r,
                    ))
            ]
      refl

-- The remaining size of an iterator is the number of pointers that `list_next` is still to return,
-- in 16 bits, with the last row counted or not.
pub list_remaining_size-rest :
    (k : ℕ) (it : Iterator) (w : Bool) (ps : Cells)
    → IsAt it ps
    → rows it.row ps < k
    → list_remaining_size k it w ≡ some (length (rest w it ps) % 2 ^ 16)
unfolding list_remaining_size
list_remaining_size-rest k it w ps a h =
    let body : Option Cells → Option ℕ = λ o. elim o [
      | none ↦ some 0
      | some ptr ↦ if ltb it.size it.index then some 0 else remaining_loop k 0 it ptr w
    ] in
    ap body a.held
    ∙ elim (ltb it.size it.index)
          as (λ b.
            ltb it.size it.index ≡ b
            → (if b then some 0 else remaining_loop k 0 it ps w)
              ≡ some (length (rest w it ps) % 2 ^ 16)) [
                | true ↦ λ e.
                    let behind : count ps ≤ it.index = ground (arith, a.sized) in
                    ap (λ t. some (length (flat w it.row t) % 2 ^ 16))
                      (sym (drop_cells-all ps it.index behind))
                | false ↦
                    λ e. remaining_loop-rest k 0 it w ps a (ground arith) h ∙ ap some (omega arith)
              ]
        refl
