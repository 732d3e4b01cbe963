-- ===== src/Parse/Defs/Load/Loading.antt =====
-- What `parse_module` of parse/parse.c adds to the modules.
use native.Mathlib.Omega.{arith}
use mathlib.Core.Path.{subst}
use poprc.Prelude.{
  ℕ, ◌+◌, ◌≤◌, ◌<◌, ◌≡◌, refl, ap, sym, ◌⊎◌, inl, inr, true, false, List, [], ◌∷◌, Option, none,
  some, leb, length, nul_free, ◌=t◌, Bool-cases,
}
use poprc.Maps.{StringMap}
use poprc.Token.Class.{Run, done, thrown}
use poprc.Token.Lex.{Token}
use poprc.Parse.Strings.{Strings}
use poprc.Parse.Strings.Storage.{pushed, seg_string-pushed, seg_string-none, read_lem}
use poprc.Parse.Words.{tok_seg, match, word_module}
use poprc.Parse.Defs.{Def, Defs, parse_defs}
use poprc.Parse.Defs.Reading.{nul_free-tok_seg}
use poprc.Parse.Defs.Order.{AreRead, parse_defs-AreRead}
use poprc.Parse.Defs.Load.{Loaded, Result, loaded, enter, parse_body, parse_module}
use poprc.Modules.{Module, module_get, module_set}
use poprc.Modules.Update.{IsModule, module_set-new}

module _ (m : StringMap Def) (mm : StringMap (Module Def m)) (text : List ℕ) where
  -- What stands behind the colon is read into a module of the name, and no other module changes.
  pub record IsLoaded (ts : List Token) (name : List ℕ) (modules : Module (Module Def m) mm)
      (l : Loaded m mm) : Type 0 where
    pub read : Defs m
    pub reads : AreRead m text name ts none read
    pub rest : l.rest ≡ read.rest
    pub err : l.err ≡ read.err
    pub here : module_get (Module Def m) mm l.modules name ≡ some read.defs
    pub others :
        (key : List ℕ)
        → (key =t name) ≡ false
        → module_get (Module Def m) mm l.modules key ≡ module_get (Module Def m) mm modules key

  -- The assertions fail, or the body is loaded.
  abbrev pub BodyOutcome :
      (ts : List Token) (name : List ℕ) → Module (Module Def m) mm → Run (Result m mm) → Type 0
  BodyOutcome ts name modules r =
      (r ≡ thrown) ⊎ ((l : Loaded m mm) × (r ≡ done (loaded l)) × IsLoaded ts name modules l)

  entered :
      (ts : List Token) (name : List ℕ) (modules : Module (Module Def m) mm) (p : Defs m)
      → nul_free name ≡ true
      → IsModule (Module Def m) mm modules
      → AreRead m text name ts none p
      → BodyOutcome ts name modules (enter m mm name modules (done p))
  entered ts name modules p n b r =
      by_set (module_set (Module Def m) mm modules name p.defs p.strings) refl
    where
      by_set :
          (o : Option (Option (Module Def m) × Module (Module Def m) mm × Strings))
          → module_set (Module Def m) mm modules name p.defs p.strings ≡ o
          → BodyOutcome ts name modules (enter m mm name modules (done p))
      by_set none e = inl (rw (enter, e) refl)
      by_set (some (some old, modules', strs)) e = inl (rw (enter, e) refl)
      by_set (some (none, modules', strs)) e =
          let (set, new) =
            module_set-new (Module Def m) mm modules name p.defs p.strings b modules' strs n e in
          inr (
            record { name = name; modules = modules'; strings = strs; rest = p.rest; err = p.err },
            rw (enter, e) refl,
            record {
              read = p;
              reads = r;
              rest = refl;
              err = refl;
              here = set.here;
              others = set.others;
            },
          )

  parse_body-BodyOutcome :
      (k : ℕ) (name : List ℕ) (ts : List Token) (modules : Module (Module Def m) mm)
      (strs : Strings)
      → nul_free text ≡ true
      → nul_free name ≡ true
      → IsModule (Module Def m) mm modules
      → length ts < k
      → BodyOutcome ts name modules (parse_body m mm k text name ts modules strs)
  parse_body-BodyOutcome k name ts modules strs t n b h =
      elim (Bool-cases (leb (length strs.below + length name + 1) strs.strings_size)) [
        | inr e ↦ inl (rw (parse_body, seg_string-none name strs (ground (arith, e))) refl)
        | inl e ↦
            subst (BodyOutcome ts name modules) (sym (copied (ground (arith, e))))
              (by_defs (parse_defs-AreRead m text name k ts (pushed name strs) t h))
      ]
    where
      copied :
          length strs.below + length name + 1 ≤ strs.strings_size
          → parse_body m mm k text name ts modules strs
            ≡ enter m mm name modules (parse_defs m k text name ts (pushed name strs))
      copied f =
          rw (parse_body, seg_string-pushed name strs f)
            (ap (λ s. enter m mm name modules (parse_defs m k text s ts (pushed name strs)))
              (read_lem name strs n))

      by_defs :
          (parse_defs m k text name ts (pushed name strs) ≡ thrown)
            ⊎ ((p : Defs m) × (parse_defs m k text name ts (pushed name strs) ≡ done p)
                × AreRead m text name ts none p)
          → BodyOutcome ts name modules
              (enter m mm name modules (parse_defs m k text name ts (pushed name strs)))
      by_defs (inl e) = inl (ap (enter m mm name modules) e)
      by_defs (inr (p, e, r)) =
          subst (BodyOutcome ts name modules) (ap (enter m mm name modules) (sym e))
            (entered ts name modules p n b r)

  -- With the words `module`, a name and a colon in front, and a round for every token, the assertions
  -- fail or the module is loaded: what stands behind is read into it, it is found under the name, and
  -- the other modules are what they were.
  pub parse_module-BodyOutcome :
      (k : ℕ) (t n colon : Token) (ts : List Token) (modules : Module (Module Def m) mm)
      (strs : Strings)
      → nul_free text ≡ true
      → IsModule (Module Def m) mm modules
      → match text (t ∷ []) word_module ≡ true
      → match text (colon ∷ []) (b':' ∷ []) ≡ true
      → length ts < k
      → BodyOutcome ts
          (tok_seg text n)
          modules
          (parse_module m mm k text (t ∷ (n ∷ (colon ∷ ts))) modules strs)
  unfolding parse_module
  parse_module-BodyOutcome k t n colon ts modules strs f b e c h =
      subst (BodyOutcome ts (tok_seg text n) modules) (sym body) (
        parse_body-BodyOutcome k (tok_seg text n) ts modules strs f (nul_free-tok_seg text n f) b h)
    where
      body :
          parse_module m mm k text (t ∷ (n ∷ (colon ∷ ts))) modules strs
          ≡ parse_body m mm k text (tok_seg text n) ts modules strs
      body = rw (parse_module, e, c) refl
