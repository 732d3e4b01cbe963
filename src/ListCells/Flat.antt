-- ===== src/ListCells/Flat.antt =====
-- The iterators of list.c as views of one flat list: the elements of a list, then those of the list
-- in its row, and so on.
use native.Mathlib.Omega.{arith}
use poprc.Prelude.{
  ℕ, zero, suc, ◌+◌, ◌-◌, ◌%◌, ◌^◌, ◌≤◌, ◌<◌, ◌≡◌, refl, sym, ap, ◌∙◌, Bool, true, false, ◌&&◌,
  List, [], ◌∷◌, Option, none, some, ltb, ◌==◌, if◌then◌else◌,
}
use mathlib.Core.Path.{subst}
use poprc.ListCells.{
  Cell, other, list, Cells, nil, cons, count, nth, Iterator, as_number, list_begin, Next, found,
  null, again, row_next, next_step, list_next,
}

-- The elements of an array and of the rows behind it. A row that is no list is left out or taken
-- as the last element.
abbrev pub flat : (with_row row : Bool) → Cells → List Cell
flat w row nil = []
flat w false (cons x nil) = x ∷ []
flat w true (cons (other x) nil) = if w then other x ∷ [] else []
flat w true (cons (list r ps) nil) = flat w r ps
flat w row (cons x (cons y ys)) = x ∷ flat w row (cons y ys)

abbrev pub drop_cells : ℕ → Cells → Cells
drop_cells zero ps = ps
drop_cells (suc i) nil = nil
drop_cells (suc i) (cons x xs) = drop_cells i xs

-- How many lists follow each other through their rows.
abbrev pub rows : Bool → Cells → ℕ
rows row nil = 0
rows true (cons (list r ps) nil) = suc (rows r ps)
rows true (cons (other x) nil) = 0
rows false (cons x nil) = 0
rows row (cons x (cons y ys)) = rows row (cons y ys)

-- A row list has at least its row, the lists in the rows too, and sizes fit into 16 bits.
abbrev pub IsSound : Bool → Cells → Type 0
IsSound false nil = Unit
IsSound true nil = ⊥
IsSound false (cons x nil) = Unit
IsSound true (cons (other x) nil) = Unit
IsSound true (cons (list r ps) nil) = IsSound r ps × (count ps < 2 ^ 16)
IsSound row (cons x (cons y ys)) = IsSound row (cons y ys)

drop_cells-nth :
    (i : ℕ) (ps : Cells) → i < count ps → drop_cells i ps ≡ cons (nth ps i) (drop_cells (suc i) ps)
drop_cells-nth zero (cons x xs) h = refl
drop_cells-nth (suc i) (cons x xs) h = drop_cells-nth i xs (omega arith)
drop_cells-nth zero nil h = absurd (omega arith)
drop_cells-nth (suc i) nil h = absurd (omega arith)

pub count-drop_cells : (i : ℕ) (ps : Cells) → count (drop_cells i ps) ≡ count ps - i
count-drop_cells zero ps = omega arith
count-drop_cells (suc i) nil = omega arith
count-drop_cells (suc i) (cons x xs) = omega (arith, count-drop_cells i xs)

pub drop_cells-all : (ps : Cells) (i : ℕ) → count ps ≤ i → drop_cells i ps ≡ nil
drop_cells-all nil zero h = refl
drop_cells-all nil (suc i) h = refl
drop_cells-all (cons x xs) zero h = absurd (omega arith)
drop_cells-all (cons x xs) (suc i) h = drop_cells-all xs i (omega arith)

flat-cons :
    (w row : Bool) (x : Cell) (ps : Cells)
    → as_number row ≤ count ps
    → flat w row (cons x ps) ≡ x ∷ flat w row ps
flat-cons w false x nil h = refl
flat-cons w true x nil h = absurd (omega arith)
flat-cons w row x (cons y ys) h = refl

-- The last pointer of a row list.
module _ (w r : Bool) (qs : Cells) where
  pub last_row :
      (ps : Cells) (size : ℕ)
      → count ps ≡ suc size
      → nth ps size ≡ list r qs
      → IsSound true ps
      → (IsSound r qs) × (count qs < 2 ^ 16) × (rows true ps ≡ suc (rows r qs))
  last_row nil size c e s = absurd s
  last_row (cons x nil) zero c e s =
      subst
        (λ t.
          IsSound true (cons t nil)
          → (IsSound r qs) × (count qs < 2 ^ 16) × (rows true (cons t nil) ≡ suc (rows r qs)))
        (sym e) (λ q. (q.0, q.1, refl)) s
  last_row (cons x nil) (suc size) c e s = absurd (omega arith)
  last_row (cons x (cons y ys)) zero c e s = absurd (omega arith)
  last_row (cons x (cons y ys)) (suc size) c e s = last_row (cons y ys) size (omega arith) e s

-- The iterator stands in or behind the array `ps`.
pub record IsAt (it : Iterator) (ps : Cells) : Type 0 where
  pub held : it.array ≡ some ps
  pub sized : it.size + as_number it.row ≡ count ps
  pub inside : it.index ≤ count ps
  pub sound : IsSound it.row ps

-- The pointers that are still to come.
abbrev pub rest : Bool → Iterator → Cells → List Cell
rest w it ps = flat w it.row (drop_cells it.index ps)

count-IsSound : (row : Bool) (ps : Cells) → IsSound row ps → as_number row ≤ count ps
count-IsSound false ps s = omega arith
count-IsSound true nil s = absurd s
count-IsSound true (cons x ps) s = omega arith

pub list_begin-IsAt :
    (row : Bool) (ps : Cells) → IsSound row ps → count ps < 2 ^ 16 → IsAt (list_begin row ps) ps
unfolding list_begin
list_begin-IsAt row ps s h = record {
  held = refl;
  sized = sized_lem;
  inside = omega arith;
  sound = s;
}
  where
    sized_lem : (count ps + 2 ^ 16 - as_number row) % 2 ^ 16 + as_number row ≡ count ps
    sized_lem =
        elim row
            as (λ b.
              as_number b ≤ count ps
              → (count ps + 2 ^ 16 - as_number b) % 2 ^ 16 + as_number b ≡ count ps) [
                | true ↦ λ q. omega arith
                | false ↦ λ q. omega arith
              ]
          (count-IsSound row ps s)

-- What `list_next` returns: NULL if nothing is to come, or the first of what is to come, and the
-- iterator at the others.
abbrev pub Yields : Bool → List Cell → ℕ → Option (Option Cell × Iterator) → Type 0
Yields w to_come k none = ⊥
Yields w to_come k (some (none, it)) = to_come ≡ []
Yields w to_come k (some (some x, it)) =
    (ps : Cells) × (IsAt it ps) × (rows it.row ps < k) × (to_come ≡ x ∷ rest w it ps)

-- The same for one round of its loop.
StepYields : Bool → List Cell → ℕ → Next → Type 0
StepYields w to_come k null = to_come ≡ []
StepYields w to_come k (found x it) =
    (ps : Cells) × (IsAt it ps) × (rows it.row ps < k) × (to_come ≡ x ∷ rest w it ps)
StepYields w to_come k (again it) =
    (ps : Cells) × (IsAt it ps) × (suc (rows it.row ps) < k) × (to_come ≡ rest w it ps)

module _ (k : ℕ) (it : Iterator) (w : Bool) (ps : Cells) (a : IsAt it ps)
    (h : rows it.row ps < k) where
  advance_IsAt : it.index < count ps → IsAt (record it { index = it.index + 1 }) ps
  advance_IsAt l = record { held = a.held; sized = a.sized; inside = omega arith; sound = a.sound }

  element-Yields :
      it.index < it.size
      → StepYields w (rest w it ps) k (found (nth ps it.index) (record it { index = it.index + 1 }))
  unfolding StepYields
  element-Yields l =
      let i = it.index in
      let next_place : suc i ≡ i + 1 = omega arith in
      (
        ps,
        advance_IsAt (omega (arith, a.sized)),
        h,
        ap (λ t. flat w it.row t) (drop_cells-nth i ps (omega (arith, a.sized)))
            ∙ flat-cons w it.row (nth ps i) (drop_cells (suc i) ps)
                (omega (arith, a.sized, count-drop_cells (suc i) ps))
            ∙ ap (λ j. nth ps i ∷ flat w it.row (drop_cells j ps)) next_place,
      )

  end-Yields : count ps ≤ it.index → StepYields w (rest w it ps) k null
  unfolding StepYields
  end-Yields l = ap (λ t. flat w it.row t) (drop_cells-all ps it.index l)

  -- At the row: what is to come is the row.
  pub row_lem :
      it.row ≡ true → it.index ≡ it.size → rest w it ps ≡ flat w true (cons (nth ps it.size) nil)
  row_lem r e =
      let n = it.size in
      let counted : count ps ≡ suc n = omega (arith, a.sized, ap as_number r) in
      ap (λ b. flat w b (drop_cells it.index ps)) r
      ∙ ap (λ j. flat w true (drop_cells j ps)) e
      ∙ ap (λ t. flat w true t) (drop_cells-nth n ps (omega (arith, counted)))
      ∙ ap (λ t. flat w true (cons (nth ps n) t))
          (drop_cells-all ps (suc n) (omega (arith, counted)))

  row-Yields :
      it.row ≡ true
      → it.index ≡ it.size
      → (c : Cell) → nth ps it.size ≡ c
      → StepYields w (rest w it ps) k (row_next it w c)
  unfolding StepYields row_next
  row-Yields r e (list b qs) q =
      let lr =
        last_row w b qs ps it.size (omega (arith, a.sized, ap as_number r)) q
          (subst (λ t. IsSound t ps) r a.sound) in
      (
        qs,
        list_begin-IsAt b qs lr.0 lr.1,
        omega (arith, h, lr.2, ap (λ t. rows t ps) r),
        row_lem r e ∙ ap (λ t. flat w true (cons t nil)) q,
      )
  row-Yields r e (other x) q =
      let last = row_lem r e ∙ ap (λ t. flat w true (cons t nil)) q in
      let counted : count ps ≡ suc it.size = omega (arith, a.sized, ap as_number r) in
      elim w
          as (λ b.
            w ≡ b
            → StepYields w (rest w it ps) k
                (if b then found (other x) (record it { index = it.index + 1 }) else null)) [
                  | true ↦ λ t. (
                    ps,
                    advance_IsAt (omega (arith, counted)),
                    h,
                    last
                        ∙ ap (λ b. if b then other x ∷ [] else []) t
                        ∙ sym (
                            ap (λ qs. other x ∷ flat w it.row qs)
                              (drop_cells-all ps (it.index + 1) (omega (arith, counted)))),
                  )
                  | false ↦ λ t. last ∙ ap (λ b. if b then other x ∷ [] else []) t
                ]
        refl

  next_step-Yields : StepYields w (rest w it ps) k (next_step it ps w)
  unfolding next_step
  next_step-Yields =
      let to_come = rest w it ps in
      let behind = if it.row && it.index == it.size then row_next it w (nth ps it.size) else null in
      elim (ltb it.index it.size)
          as (λ b.
            ltb it.index it.size ≡ b
            → StepYields w to_come k (
                if b
                then found (nth ps it.index) (record it { index = it.index + 1 })
                else behind)) [
                  | true ↦ λ l. element-Yields (ground arith)
                  | false ↦ λ l.
                      elim (it.row && it.index == it.size)
                          as (λ b.
                            (it.row && it.index == it.size) ≡ b
                            → StepYields w to_come k
                                (if b then row_next it w (nth ps it.size) else null)) [
                                  | true ↦ λ e.
                                      row-Yields (ground arith) (ground arith) (nth ps it.size) refl
                                  | false ↦ λ e. end-Yields (ground (arith, a.sized))
                                ]
                        refl
                ]
        refl

Yields-weaken :
    (w : Bool) (p q : List Cell) (k : ℕ) (o : Option (Option Cell × Iterator))
    → p ≡ q
    → Yields w q k o
    → Yields w p (suc k) o
Yields-weaken w p q k none e y = y
Yields-weaken w p q k (some (none, it)) e y = e ∙ y
Yields-weaken w p q k (some (some x, it)) e (ps, a, l, t) = (ps, a, omega arith, e ∙ t)

after_step : ℕ → Iterator → Bool → Next → Option (Option Cell × Iterator)
after_step k it w (found x it') = some (some x, it')
after_step k it w null = some (none, it)
after_step k it w (again it') = list_next k it' w

list_next-suc :
    (k : ℕ) (it : Iterator) (w : Bool) (ps : Cells)
    → it.array ≡ some ps
    → list_next (suc k) it w ≡ after_step k it w (next_step it ps w)
unfolding list_next after_step
list_next-suc k it w ps e =
    let body : Option Cells → Option (Option Cell × Iterator) = λ o. elim o [
      | none ↦ some (none, it)
      | some ptr ↦ elim (next_step it ptr w) [
        | found x it' ↦ some (some x, it')
        | null ↦ some (none, it)
        | again it' ↦ list_next k it' w
      ]
    ] in
    ap body e
    ∙ (elim (next_step it ps w)
        as (λ n.
          elim n [
            | found x it' ↦ some (some x, it')
            | null ↦ some (none, it)
            | again it' ↦ list_next k it' w
          ]
          ≡ after_step k it w n) [ found x it' ↦ refl | null ↦ refl | again it' ↦ refl ])

-- With more rounds than lists follow each other, `list_next` returns NULL exactly if nothing is to
-- come, and otherwise the first of what is to come, with the iterator moved behind it.
pub list_next-Yields :
    (k : ℕ) (it : Iterator) (w : Bool) (ps : Cells)
    → IsAt it ps
    → rows it.row ps < k
    → Yields w (rest w it ps) k (list_next k it w)
unfolding StepYields after_step
list_next-Yields zero it w ps a h = absurd (omega arith)
list_next-Yields (suc k) it w ps a h =
    subst (λ o. Yields w (rest w it ps) (suc k) o) (sym (list_next-suc k it w ps a.held))
      (elim (next_step it ps w)
          as (λ n.
            StepYields w (rest w it ps) (suc k) n
            → Yields w (rest w it ps) (suc k) (after_step k it w n)) [
              | found x it' ↦ λ y. y
              | null ↦ λ y. y
              | again it' ↦ λ (qs, b, l, e).
                  Yields-weaken w (rest w it ps) (rest w it' qs) k (list_next k it' w) e
                    (list_next-Yields k it' w qs b (omega arith))
            ]
        (next_step-Yields (suc k) it w ps a h))
