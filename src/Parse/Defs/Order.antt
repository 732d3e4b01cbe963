-- ===== src/Parse/Defs/Order.antt =====
-- The definitions that `parse_defs` of parse/parse.c reads, in their order.
use native.Mathlib.Omega.{arith}
use mathlib.Core.Path.{subst}
use mathlib.Core.Option.{none-ne-some}
use mathlib.Core.List.{append_assoc, cons≢nil}
use poprc.Prelude.{
  ℕ, zero, suc, ◌<◌, ◌≡◌, ◌≢◌, ◌⊎◌, refl, ap, sym, ◌∙◌, true, false, ◌||◌, List, [], ◌∷◌, ◌++◌,
  Option, none, some, length, ◌=t◌, =t→eq, nul_free, Bool-cases, inl, inr,
}
use poprc.Maps.{StringMap}
use poprc.Token.Class.{Run, done, thrown, out_of_fuel}
use poprc.Token.Lex.{Token}
use poprc.Lines.Cut.{concat}
use poprc.Parse.Strings.{Strings}
use poprc.Parse.Words.{tok_seg, scan_attributes}
use poprc.Parse.Defs.{Definition, parse_def, check_def, Def, Defs, def_of, defs_loop, parse_defs}
use poprc.Parse.Defs.Reading.{
  IsDefinition, parse_def-IsDefinition, IsDefinition-shorter, nul_free-tok_seg,
}
use poprc.Modules.{Module, make_module, module_get, module_set}
use poprc.Modules.Update.{IsModule, module_set-new}

-- A definition as it stands in the text: a name, a colon and expressions.
pub record Written : Type 0 where
  pub name : Token
  pub colon : Token
  pub exprs : List (List Token)

abbrev pub tokens_of : List Written → List Token
tokens_of [] = []
tokens_of (w ∷ ws) = w.name ∷ (w.colon ∷ (concat w.exprs ++ tokens_of ws))

done_inj : {A : Type 0} {a b : A} → done a ≡ done b → a ≡ b
done_inj h = cc

thrown_not_done : {A : Type 0} {a : A} → thrown ≢ done a
thrown_not_done h = cc

done_has_fuel : {A : Type 0} {a : A} → done a ≢ out_of_fuel
done_has_fuel h = cc

thrown_has_fuel : {A : Type 0} → ◌≢◌ {A = Run A} thrown out_of_fuel
thrown_has_fuel h = cc

module _ (m : StringMap Def) (text name : List ℕ) where
  abbrev pub def_written : Written → Def
  def_written w = record {
    exprs = w.exprs;
    hide = (w.name.hide || w.colon.hide) || scan_attributes w.exprs;
    module_name = name;
  }

  -- The definitions are in the module, each under its name.
  abbrev pub AreDefined : Module Def m → List Written → Type 0
  AreDefined c [] = Unit
  AreDefined c (w ∷ ws) =
      (module_get Def m c (tok_seg text w.name) ≡ some (def_written w)) × AreDefined c ws

  -- `err` is what `check_def` returns for the last definition, and null for the others.
  abbrev pub AreChecked : List Written → (err : List Token) → Type 0
  AreChecked [] err = err ≡ []
  AreChecked (w ∷ []) err = check_def text w.exprs ≡ err
  AreChecked (w ∷ (v ∷ ws)) err = (check_def text w.exprs ≡ []) × AreChecked (v ∷ ws) err

  -- The tokens are those of the definitions and the rest, and the module has the definitions beside
  -- what it had.
  pub record IsWritten (toks : List Token) (c : Module Def m) (p : Defs m) (ws : List Written)
      : Type 0 where
    pub tokens : toks ≡ tokens_of ws ++ p.rest
    pub defined : AreDefined p.defs ws
    pub kept :
        (k : List ℕ) (v : Def) → module_get Def m c k ≡ some v → module_get Def m p.defs k ≡ some v

  pub record AreRead (toks : List Token) (c : Module Def m) (p : Defs m) : Type 0 where
    pub written : List Written
    pub reads : IsWritten toks c p written
    pub checked : AreChecked written p.err
    pub stop : p.err ≡ [] → parse_def text p.rest ≡ some none

  AreChecked-suc :
      (w : Written) (ws : List Written) (err : List Token)
      → check_def text w.exprs ≡ []
      → AreChecked ws err
      → AreChecked (w ∷ ws) err
  AreChecked-suc w [] err h c = h ∙ sym c
  AreChecked-suc w (v ∷ ws) err h c = (h, c)

  -- One definition more, before those that are read after it.
  abbrev written_by : {toks : List Token} {d : Definition} → IsDefinition text toks d → Written
  written_by {d = d} i = record { name = i.name; colon = i.colon; exprs = d.exprs }

  read_more :
      (toks : List Token) (c c' : Module Def m) (strs strs' : Strings) (d : Definition) (p : Defs m)
      (ws : List Written)
      → nul_free text ≡ true
      → IsModule Def m c
      → (i : IsDefinition text toks d)
      → module_set Def m c (tok_seg text d.name) (def_of m name d) strs ≡ some (none, c', strs')
      → IsWritten d.rest c' p ws
      → IsWritten toks c p (written_by i ∷ ws)
  read_more toks c c' strs strs' d p ws n b i h r =
      let (set, new) =
        module_set-new Def m c (tok_seg text d.name) (def_of m name d) strs b c' strs'
          (nul_free-tok_seg text d.name n) h in
      record {
        tokens =
            i.tokens
            ∙ ap (λ t. i.name ∷ (i.colon ∷ t))
                (ap (λ t. concat d.exprs ++ t) r.tokens
                  ∙ sym (append_assoc (concat d.exprs) (tokens_of ws) p.rest));
        defined = (
          r.kept (tok_seg text i.name) (def_written (written_by i)) (
              subst
                (λ t.
                  module_get Def m c' (tok_seg text t)
                  ≡ some (record {
                    exprs = d.exprs;
                    hide = t.hide || scan_attributes d.exprs;
                    module_name = name;
                  }))
                i.named set.here),
          r.defined,
        );
        kept = λ k v e. r.kept k v (set.others k (new_name c k (tok_seg text d.name) v e new) ∙ e);
      }
    where
      new_name :
          (c : Module Def m) (k key : List ℕ) (v : Def)
          → module_get Def m c k ≡ some v
          → module_get Def m c key ≡ none
          → (k =t key) ≡ false
      new_name c k key v e n = elim (Bool-cases (k =t key)) [
        | inl b ↦
            absurd (none-ne-some v (sym n ∙ ap (module_get Def m c) (sym (=t→eq k key b)) ∙ e))
        | inr b ↦ b
      ]

  -- Every round of the loop, by what it finds
  module _ (k : ℕ) (toks : List Token) (c : Module Def m) (strs : Strings) where
    loop_thrown : parse_def text toks ≡ none → defs_loop m (suc k) text name toks c strs ≡ thrown
    unfolding defs_loop
    loop_thrown e = rw (defs_loop, e) refl

    loop_stop :
        parse_def text toks ≡ some none
        → defs_loop m (suc k) text name toks c strs
          ≡ done (record { defs = c; strings = strs; rest = toks; err = [] })
    unfolding defs_loop
    loop_stop e = rw (defs_loop, e) refl

    module _ (d : Definition) (e : parse_def text toks ≡ some (some d)) where
      loop_full :
          module_set Def m c (tok_seg text d.name) (def_of m name d) strs ≡ none
          → defs_loop m (suc k) text name toks c strs ≡ thrown
      unfolding defs_loop
      loop_full s = rw (defs_loop, e, s) refl

      loop_twice :
          (old : Def) (c' : Module Def m) (strs' : Strings)
          → module_set Def m c (tok_seg text d.name) (def_of m name d) strs
            ≡ some (some old, c', strs')
          → defs_loop m (suc k) text name toks c strs ≡ thrown
      unfolding defs_loop
      loop_twice old c' strs' s = rw (defs_loop, e, s) refl

      module _ (c' : Module Def m) (strs' : Strings)
          (s : module_set Def m c (tok_seg text d.name) (def_of m name d) strs
            ≡ some (none, c', strs')) where
        loop_next :
            check_def text d.exprs ≡ []
            → defs_loop m (suc k) text name toks c strs ≡ defs_loop m k text name d.rest c' strs'
        unfolding defs_loop
        loop_next q = rw (defs_loop, e, s, q) refl

        loop_error :
            (t : Token) (ts : List Token)
            → check_def text d.exprs ≡ t ∷ ts
            → defs_loop m (suc k) text name toks c strs
              ≡ done (record { defs = c'; strings = strs'; rest = d.rest; err = t ∷ ts })
        unfolding defs_loop
        loop_error t ts q = rw (defs_loop, e, s, q) refl

  -- What `k` rounds of the loop read
  abbrev LoopReads : ℕ → Type 0
  LoopReads k =
      (toks : List Token) (c : Module Def m) (strs : Strings) (p : Defs m)
      → nul_free text ≡ true
      → IsModule Def m c
      → defs_loop m k text name toks c strs ≡ done p
      → AreRead toks c p

  -- All that the loop reads, when it ends without a failed assertion.
  defs_loop-AreRead :
      (k : ℕ) (toks : List Token) (c : Module Def m) (strs : Strings) (p : Defs m)
      → nul_free text ≡ true
      → IsModule Def m c
      → defs_loop m k text name toks c strs ≡ done p
      → AreRead toks c p
  unfolding defs_loop
  defs_loop-AreRead zero toks c strs p n b h = absurd cc
  defs_loop-AreRead (suc k) toks c strs p n b h =
      by_def (defs_loop-AreRead k) (parse_def text toks) refl
    where
      by_check :
          LoopReads k
          → (d : Definition) (e : parse_def text toks ≡ some (some d)) (c' : Module Def m)
            (strs' : Strings)
            (s : module_set Def m c (tok_seg text d.name) (def_of m name d) strs
              ≡ some (none, c', strs'))
            (r : List Token)
          → check_def text d.exprs ≡ r
          → AreRead toks c p
      by_check ih d e c' strs' s [] q =
          let i = parse_def-IsDefinition text toks d e in
          let (set, new) =
            module_set-new Def m c (tok_seg text d.name) (def_of m name d) strs b c' strs'
              (nul_free-tok_seg text d.name n) s in
          let r =
            ih d.rest c' strs' p n set.bounded
              (sym (loop_next k toks c strs d e c' strs' s q) ∙ h) in
          record {
            written = written_by i ∷ r.written;
            reads = read_more toks c c' strs strs' d p r.written n b i s r.reads;
            checked = AreChecked-suc (written_by i) r.written p.err q r.checked;
            stop = r.stop;
          }
      by_check ih d e c' strs' s (t ∷ ts) q =
          let i = parse_def-IsDefinition text toks d e in
          let last : Defs m = record { defs = c'; strings = strs'; rest = d.rest; err = t ∷ ts } in
          subst (AreRead toks c)
            (done_inj (sym (loop_error k toks c strs d e c' strs' s t ts q) ∙ h))
            (record {
              written = written_by i ∷ [];
              reads =
                  read_more toks c c' strs strs' d last [] n b i s
                    (record { tokens = refl; defined = tt; kept = λ k v z. z });
              checked = q;
              stop = λ z. absurd (cons≢nil z);
            })

      by_set :
          LoopReads k
          → (d : Definition) (e : parse_def text toks ≡ some (some d))
            (r : Option (Option Def × Module Def m × Strings))
          → module_set Def m c (tok_seg text d.name) (def_of m name d) strs ≡ r
          → AreRead toks c p
      by_set ih d e none s = absurd (thrown_not_done (sym (loop_full k toks c strs d e s) ∙ h))
      by_set ih d e (some (some old, c', strs')) s =
          absurd (thrown_not_done (sym (loop_twice k toks c strs d e old c' strs' s) ∙ h))
      by_set ih d e (some (none, c', strs')) s =
          by_check ih d e c' strs' s (check_def text d.exprs) refl

      by_def :
          LoopReads k
          → (r : Option (Option Definition)) → parse_def text toks ≡ r
          → AreRead toks c p
      by_def ih none e = absurd (thrown_not_done (sym (loop_thrown k toks c strs e) ∙ h))
      by_def ih (some none) e =
          subst (AreRead toks c) (done_inj (sym (loop_stop k toks c strs e) ∙ h)) (record {
            written = [];
            reads = record { tokens = refl; defined = tt; kept = λ k v q. q };
            checked = refl;
            stop = λ q. e;
          })
      by_def ih (some (some d)) e =
          by_set ih d e (module_set Def m c (tok_seg text d.name) (def_of m name d) strs) refl

  -- Rounds enough for the tokens
  abbrev LoopEnds : ℕ → Type 0
  LoopEnds k =
      (toks : List Token) (c : Module Def m) (strs : Strings)
      → length toks < k
      → defs_loop m k text name toks c strs ≢ out_of_fuel

  -- Every definition takes two tokens or more.
  defs_loop-ends :
      (k : ℕ) (toks : List Token) (c : Module Def m) (strs : Strings)
      → length toks < k
      → defs_loop m k text name toks c strs ≢ out_of_fuel
  defs_loop-ends zero toks c strs h z = absurd (omega (arith, h))
  defs_loop-ends (suc k) toks c strs h z = by_def (defs_loop-ends k) (parse_def text toks) refl
    where
      by_check :
          LoopEnds k
          → (d : Definition) (e : parse_def text toks ≡ some (some d)) (c' : Module Def m)
            (strs' : Strings)
            (s : module_set Def m c (tok_seg text d.name) (def_of m name d) strs
              ≡ some (none, c', strs'))
            (r : List Token)
          → check_def text d.exprs ≡ r
          → ⊥
      by_check ih d e c' strs' s [] q =
          ih d.rest c' strs'
            (omega
              (arith, h, IsDefinition-shorter text toks d (parse_def-IsDefinition text toks d e)))
            (sym (loop_next k toks c strs d e c' strs' s q) ∙ z)
      by_check ih d e c' strs' s (t ∷ ts) q =
          done_has_fuel (sym (loop_error k toks c strs d e c' strs' s t ts q) ∙ z)

      by_set :
          LoopEnds k
          → (d : Definition) (e : parse_def text toks ≡ some (some d))
            (r : Option (Option Def × Module Def m × Strings))
          → module_set Def m c (tok_seg text d.name) (def_of m name d) strs ≡ r
          → ⊥
      by_set ih d e none s = thrown_has_fuel (sym (loop_full k toks c strs d e s) ∙ z)
      by_set ih d e (some (some old, c', strs')) s =
          thrown_has_fuel (sym (loop_twice k toks c strs d e old c' strs' s) ∙ z)
      by_set ih d e (some (none, c', strs')) s =
          by_check ih d e c' strs' s (check_def text d.exprs) refl

      by_def : LoopEnds k → (r : Option (Option Definition)) → parse_def text toks ≡ r → ⊥
      by_def ih none e = thrown_has_fuel (sym (loop_thrown k toks c strs e) ∙ z)
      by_def ih (some none) e = done_has_fuel (sym (loop_stop k toks c strs e) ∙ z)
      by_def ih (some (some d)) e =
          by_set ih d e (module_set Def m c (tok_seg text d.name) (def_of m name d) strs) refl

  -- With a round for every token, the assertions fail or all is read: the tokens are those of the
  -- definitions and the rest, the module has the definitions under their names, only the last can be
  -- wrong, and if none is, no definition follows.
  pub parse_defs-AreRead :
      (k : ℕ) (toks : List Token) (strs : Strings)
      → nul_free text ≡ true
      → length toks < k
      → (parse_defs m k text name toks strs ≡ thrown)
        ⊎ ((p : Defs m) × (parse_defs m k text name toks strs ≡ done p) × AreRead toks none p)
  unfolding parse_defs make_module
  parse_defs-AreRead k toks strs n h = by_run (defs_loop m k text name toks none strs) refl
    where
      by_run :
          (r : Run (Defs m))
          → defs_loop m k text name toks none strs ≡ r
          → (defs_loop m k text name toks none strs ≡ thrown)
            ⊎ ((p : Defs m) × (defs_loop m k text name toks none strs ≡ done p)
                × AreRead toks none p)
      by_run thrown e = inl e
      by_run (done p) e = inr (p, e, defs_loop-AreRead k toks none strs p n tt e)
      by_run out_of_fuel e = absurd (defs_loop-ends k toks none strs h e)
