-- ===== src/Modules/Update.antt =====
-- Names set in the modules of module.c are got back.
use native.Mathlib.Omega.{arith}
use mathlib.Core.Path.{subst}
use mathlib.Core.Option.{none-ne-some}
use poprc.Prelude.{
  ℕ, ◌+◌, ◌-◌, ◌≤◌, ◌<◌, ◌≡◌, refl, ap, sym, ◌∙◌, true, false, List, [], none, some, ltb, length,
  ◌=t◌, nul_free, Option-cases, Bool-cases, inl, inr, leb, some_inj,
}
use poprc.Maps.{StringMap}
use poprc.Parse.Strings.{Strings, seg_string}
use poprc.Parse.Strings.Storage.{pushed, seg_string-pushed, read_lem}
use poprc.Modules.{
  Module, expand_map, module_get, add_to_map, replaced, without_old, module_set, created,
  module_get_or_create,
}

module _ (V : Type 0) (m : StringMap V) where
  -- The map of a module has no more entries than places.
  abbrev pub IsModule : Module V m → Type 0
  IsModule none = Unit
  IsModule (some c) = m.map_cnt c ≤ m.map_size c

  expand_map-room :
      (c : Module V m)
      → IsModule c
      → m.map_cnt (expand_map V m c 1) < m.map_size (expand_map V m c 1)
  unfolding expand_map
  expand_map-room none h = omega (arith, m.size-of_sorted 1 [], m.cnt-of_sorted 1 [])
  expand_map-room (some c) h = elim (Bool-cases (ltb (m.map_size c) (m.map_cnt c + 1))) [
    | inl e ↦
        rw e (omega (arith, h, m.size-copy (m.map_size c + 1) c, m.cnt-copy (m.map_size c + 1) c))
    | inr e ↦ rw e (ground (arith, e))
  ]

  expand_map-find :
      (c : Module V m) (k : List ℕ) → m.string_map_find (expand_map V m c 1) k ≡ module_get V m c k
  unfolding expand_map module_get
  expand_map-find none k = m.find-of_sorted 1 [] k tt
  expand_map-find (some c) k = elim (Bool-cases (ltb (m.map_size c) (m.map_cnt c + 1))) [
    | inl e ↦ rw e (m.find-copy (m.map_size c + 1) c k)
    | inr e ↦ rw e refl
  ]

  -- The name has the value, and the others have what they had.
  pub record IsSetTo (c : Module V m) (key : List ℕ) (val : V) (c' : Module V m) : Type 0 where
    pub bounded : IsModule c'
    pub here : module_get V m c' key ≡ some val
    pub others : (k : List ℕ) → (k =t key) ≡ false → module_get V m c' k ≡ module_get V m c k

  replaced-IsSetTo :
      (c : Module V m) (key : List ℕ) (val old : V) (strs : Strings)
      → IsModule c
      → module_get V m c key ≡ some old
      → (c' : Module V m) × (replaced V m c old val key strs ≡ some (some old, c', strs))
        × IsSetTo c key val c'
  unfolding module_get
  replaced-IsSetTo none key val old strs p e = absurd (none-ne-some old e)
  replaced-IsSetTo (some c) key val old strs p e = (
    some (m.set_second c key val),
    refl,
    record {
      bounded = omega (arith, p, m.size-set c key val, m.cnt-set c key val);
      here = m.find-set c key val old e;
      others = λ k n. m.find-set_other c key val k n;
    },
  )

  module _ (c : Module V m) (key : List ℕ) (val : V) (strs : Strings) (p : IsModule c) where
    abbrev grown : m.Map
    grown = m.string_map_insert (expand_map V m c 1) key val

    grown-IsSetTo : module_get V m c key ≡ none → IsSetTo c key val (some grown)
    unfolding module_get
    grown-IsSetTo e =
        let room = expand_map-room c p in
        record {
          bounded = omega (
            arith,
            room,
            m.cnt-insert (expand_map V m c 1) key val room,
            m.size-insert (expand_map V m c 1) key val,
          );
          here = m.find-insert (expand_map V m c 1) key val room (expand_map-find c key ∙ e);
          others = λ k n.
              m.find-insert_other (expand_map V m c 1) key val k room n ∙ expand_map-find c k;
        }

    add_to_map-grown :
        nul_free key ≡ true
        → length strs.below + length key + 1 ≤ strs.strings_size
        → add_to_map V m c key val strs ≡ some (some grown, pushed key strs)
    add_to_map-grown h f =
        rw (add_to_map, seg_string-pushed key strs f)
          (ap (λ t. some (some (m.string_map_insert (expand_map V m c 1) t val), pushed key strs))
            (read_lem key strs h))

    module_set-replaced :
        (old : V)
        → module_get V m c key ≡ some old
        → (c' : Module V m) × (module_set V m c key val strs ≡ some (some old, c', strs))
    unfolding module_set
    module_set-replaced old e =
        let (c', q, t) = replaced-IsSetTo c key val old strs p e in (c', rw (module_set, e) q)

    module_set-no_room :
        module_get V m c key ≡ none
        → strs.strings_size < length strs.below + length key + 1
        → module_set V m c key val strs ≡ none
    unfolding module_set seg_string
    module_set-no_room e h =
        let full : leb (length key + 1) (strs.strings_size - length strs.below) ≡ false =
          ground (arith, h) in
        let copy : seg_string key strs ≡ none = rw (seg_string, full) refl in
        let add : add_to_map V m c key val strs ≡ none = rw (add_to_map, copy) refl in
        rw (module_set, e) (ap (without_old V m) add)

    -- A name is set: the old value is returned, the new one is got from then on, and the other names
    -- have the values that they had.
    pub module_set-IsSetTo :
        nul_free key ≡ true
        → length strs.below + length key + 1 ≤ strs.strings_size
        → (c' : Module V m) × (strs' : Strings) × (module_set V m c key val strs
            ≡ some (module_get V m c key, c', strs'))
          × IsSetTo c key val c'
    unfolding module_set
    module_set-IsSetTo h f = elim (Option-cases (module_get V m c key)) [
      | inl e ↦ (
        some grown,
        pushed key strs,
        rw (module_set, e) (ap (without_old V m) (add_to_map-grown h f)),
        grown-IsSetTo e,
      )
      | inr (old, e) ↦
          let (c', q, t) = replaced-IsSetTo c key val old strs p e in
          (c', strs, rw (module_set, e) q, t)
    ]

    -- A name that is set, and had no value, is in the module from then on.
    pub module_set-new :
        (c' : Module V m) (strs' : Strings)
        → nul_free key ≡ true
        → module_set V m c key val strs ≡ some (none, c', strs')
        → IsSetTo c key val c' × (module_get V m c key ≡ none)
    module_set-new c' strs' n h = elim (Option-cases (module_get V m c key)) [
      | inr (old, e) ↦
          let (c1, q) = module_set-replaced old e in
          absurd (none-ne-some old (ap (λ r. r.0) (some_inj (sym h ∙ q))))
      | inl e ↦ elim (Bool-cases (leb (length strs.below + length key + 1) strs.strings_size)) [
        | inl b ↦
            let (c1, strs1, q, t) = module_set-IsSetTo n (ground (arith, b)) in
            (subst (λ r. IsSetTo c key val r) (ap (λ r. r.1) (some_inj (sym q ∙ h))) t, e)
        | inr b ↦
            absurd
              (none-ne-some (none, c', strs') (sym (module_set-no_room e (ground (arith, b))) ∙ h))
      ]
    ]

    -- The module that is found or made under a name is the one that is found there from then on.
    pub module_get_or_create-again :
        nul_free key ≡ true
        → length strs.below + length key + 1 ≤ strs.strings_size
        → (r : V) × (c' : Module V m) × (strs' : Strings) × (module_get_or_create V m c key val strs
            ≡ some (r, c', strs'))
          × IsModule c'
          × ((w : V) (strs'' : Strings)
              → module_get_or_create V m c' key w strs'' ≡ some (r, c', strs''))
          × ((k : List ℕ) → (k =t key) ≡ false → module_get V m c' k ≡ module_get V m c k)
    unfolding module_get_or_create
    module_get_or_create-again h f = elim (Option-cases (module_get V m c key)) [
      | inl e ↦
          let t = grown-IsSetTo e in
          (
            val,
            some grown,
            pushed key strs,
            rw (module_get_or_create, e) (ap (created V m val) (add_to_map-grown h f)),
            t.bounded,
            (λ w u. rw (module_get_or_create, t.here) refl),
            t.others,
          )
      | inr (old, e) ↦ (
        old,
        c,
        strs,
        rw (module_get_or_create, e) refl,
        p,
        (λ w u. rw (module_get_or_create, e) refl),
        λ k n. refl,
      )
    ]
