-- ===== src/Compiler/Accepted/Plan.antt =====
-- What src/bin/estate_cc_out_gc.c prints for a machine that src/bin/estate_cc_check.c has accepted.
use estate.Base.{
  AreDistinct, IsIn, All, length, ℕ, suc, ◌<◌, ◌^◌, ◌≡◌, inl, inr, refl, sym, subst, ap, ◌∙◌, Bool,
  Option, none, some, List, [], ◌∷◌, Text, arith,
}
use mathlib.Core.List.{Perm}
use estate.Eina.{Eina}
use estate.Runtime.Types.{ℤ}
use estate.Runtime.Mempool.{Sizes}
use estate.Compiler.Data.{State, Transit, Store}
use estate.Compiler.Check.Deduce.{Joins}
use estate.Compiler.Check.Table.{Alike}
use estate.Compiler.Check.Foreach.{names}
use estate.Compiler.OutGc.{Statement}
use estate.Compiler.OutGc.Builds.{IsPlan}
use estate.Compiler.OutGc.Fill.{FitsKey, state_names}
use estate.Compiler.OutGc.Fill.States.{Fit}
use estate.Compiler.OutGc.Link.{transition_names}
use estate.Compiler.OutGc.Link.Transitions.{FitAll}
use estate.Compiler.OutGc.Plan.{HasEnds, state_plans, transition_plans}
use estate.Compiler.OutGc.Plan.Tables.{Tables}
use estate.Compiler.OutGc.Machine.{IsPrintable, length-state_plans, length-transition_plans}
use estate.Compiler.Check.Foreach.{AreStates}
use estate.Compiler.Accepted.Separate.{names-AreDistinct}

-- A state without a table, whose callbacks have keys that fit.
abbrev pub IsPlain : State → Type 0
IsPlain x = (x.trs ≡ []) × FitsKey x.enterer.value × FitsKey x.exiter.value

pub IsPlain-Alike : (x y : State) → IsPlain x → Alike x y → IsPlain y
IsPlain-Alike x y (a, b, c) (inl (d, e, f)) =
    (d ∙ a, subst (λ w. FitsKey w.value) (sym e) b, subst (λ w. FitsKey w.value) (sym f) c)
IsPlain-Alike x y p (inr (d, e, f)) =
    (d, subst (λ w. FitsKey w.value) (sym e) tt, subst (λ w. FitsKey w.value) (sym f) tt)

abbrev pub transit_names : (ℕ → Transit) → List ℕ → List Text
transit_names tr [] = []
transit_names tr (t ∷ ts) = (tr t).name ∷ transit_names tr ts

-- Transitions with different names, with keys that fit, and without a key for the exiter.
abbrev pub AreUsable : (ℕ → Transit) → List ℕ → Type 0
AreUsable tr ts =
    AreDistinct (transit_names tr ts)
    × All
        (λ t. FitsKey (tr t).cb.value × FitsKey (tr t).enterer.value × ((tr t).exiter.value ≡ none))
        ts

-- The ends of the transitions are among the names.
abbrev pub HaveNames : List Text → List (Text × Text) → Type 0
HaveNames ns ps = All (λ (a, b). IsIn a ns × IsIn b ns) ps

Joins-HasEnds :
    (tr : ℕ → Transit) (ts : List ℕ) (ps : List (Text × Text))
    → Joins tr ts ps
    → All (λ t. HasEnds (tr t)) ts
Joins-HasEnds tr [] [] j = tt
Joins-HasEnds tr [] (p ∷ ps) j = tt
Joins-HasEnds tr (t ∷ ts) [] j = elim j [ ]
Joins-HasEnds tr (t ∷ ts) ((a, b) ∷ ps) j = ((a, b, j.0, j.1), Joins-HasEnds tr ts ps j.3)

pub Joins-length :
    (tr : ℕ → Transit) (ts : List ℕ) (ps : List (Text × Text))
    → Joins tr ts ps
    → length ts ≡ length ps
Joins-length tr [] [] j = refl
Joins-length tr [] (p ∷ ps) j = elim j [ ]
Joins-length tr (t ∷ ts) [] j = elim j [ ]
Joins-length tr (t ∷ ts) ((a, b) ∷ ps) j = ap suc (Joins-length tr ts ps j.3)

pub IsIn-length : (n : Text) (ns : List Text) → IsIn n ns → 0 < length ns
IsIn-length n [] i = elim i [ ]
IsIn-length n (x ∷ ns) i = omega arith

module _ {H : Type 0} where
  transition_names-plans :
      (m : Store H) (ts : List ℕ)
      → transition_names (transition_plans m ts) ≡ transit_names m.transits ts
  transition_names-plans m [] = refl
  transition_names-plans m (t ∷ ts) = ap (◌∷◌ (m.transits t).name) (transition_names-plans m ts)

  HaveNames-plans :
      (m : Store H) (ts : List ℕ) (ps : List (Text × Text)) (ns : List Text)
      → Joins m.transits ts ps
      → HaveNames ns ps
      → All (λ t. IsIn t.from ns × IsIn t.to ns) (transition_plans m ts)
  HaveNames-plans m [] ps ns j h = tt
  HaveNames-plans m (t ∷ ts) [] ns j h = elim j [ ]
  HaveNames-plans m (t ∷ ts) ((a, b) ∷ ps) ns (from, to, _, j) ((i, k), h) =
      ((rw from i, rw to k), HaveNames-plans m ts ps ns j h)

module _ (E : Eina) where
  state_names-plans :
      (m m' : Store E.Hash) (ss : List ℕ)
      → ((a : ℕ) → (m'.states a).name ≡ (m.states a).name)
      → state_names (state_plans m' ss) ≡ names E m ss
  state_names-plans m m' [] e = refl
  state_names-plans m m' (s ∷ ss) e =
      ap (λ x. x ∷ state_names (state_plans m' ss)) (e s)
      ∙ ap (◌∷◌ (m.states s).name) (state_names-plans m m' ss e)

  length-names : (m : Store E.Hash) (ss : List ℕ) → length (names E m ss) ≡ length ss
  length-names m [] = refl
  length-names m (s ∷ ss) = ap suc (length-names m ss)

  untabled :
      (m : Store E.Hash) (ss : List ℕ)
      → ((p : ℕ) → IsPlain (m.states p))
      → All (λ s. (m.states s).trs ≡ []) ss
  untabled m [] p = tt
  untabled m (s ∷ ss) p = ((p s).0, untabled m ss p)

  -- A machine as the checker leaves it, if it accepts it.
  pub record IsChecked (each : E.Hash → List ℕ) (m : Store E.Hash) (f : ℕ) (i : Text)
      (ps : List (Text × Text)) : Type 0 where
    pub starts : (m.fsms f).init ≡ some i
    pub start : IsIn i (names E m (each (m.fsms f).states))
    pub plain : (p : ℕ) → IsPlain (m.states p)
    pub states : AreStates E m (m.fsms f).states (each (m.fsms f).states)
    pub joins : Joins m.transits (each (m.fsms f).transitions) ps
    pub usable : AreUsable m.transits (each (m.fsms f).transitions)
    pub ends : HaveNames (names E m (each (m.fsms f).states)) ps
    pub some_transitions : 0 < length ps
    pub few_transitions : length ps < 2 ^ 32
    pub few_states : length (each (m.fsms f).states) < 2 ^ 32

  module _ (qsort : (ℕ → ℕ → ℤ) → List ℕ → List ℕ) (each : E.Hash → List ℕ)
      (permutes : (c : ℕ → ℕ → ℤ) (xs : List ℕ) → Perm (qsort c xs) xs) where
    pub IsChecked-IsPrintable :
        (m : Store E.Hash) (f : ℕ) (i : Text) (ps : List (Text × Text))
        → IsChecked each m f i ps
        → IsPrintable E qsort each permutes m f i
    IsChecked-IsPrintable m f i ps c = record {
      starts = c.starts;
      separate = names-AreDistinct E m (each (m.fsms f).states) c.states.distinct;
      untabled = untabled m (each (m.fsms f).states) c.plain;
      ends = Joins-HasEnds m.transits (each (m.fsms f).transitions) ps c.joins;
    }

    module _ (z : Sizes) (malloc : ℕ → Option ℕ) (calloc : ℕ → Bool) (function : Text → ℕ) where
      FitAll-plans :
          (m : Store E.Hash) (ts : List ℕ)
          → All
              (λ t.
                FitsKey (m.transits t).cb.value
                × FitsKey (m.transits t).enterer.value
                × ((m.transits t).exiter.value ≡ none))
              ts
          → FitAll z E malloc calloc function (transition_plans m ts)
      FitAll-plans m [] a = tt
      FitAll-plans m (t ∷ ts) (a, r) = (a, FitAll-plans m ts r)

      Fit-plans :
          (m m' : Store E.Hash) (ts ss out_ss : List ℕ) (out : List Statement)
          → ((p : ℕ) → IsPlain (m.states p))
          → Tables E qsort each permutes m m' ts ss out
          → Fit z E malloc calloc function (state_plans m' out_ss)
      Fit-plans m m' ts ss [] out p t = tt
      Fit-plans m m' ts ss (s ∷ rest) out p t = (
        (
          subst (λ w. FitsKey w.value) (sym (t.enterers s)) (p s).1,
          subst (λ w. FitsKey w.value) (sym (t.exiters s)) (p s).2,
        ),
        Fit-plans m m' ts ss rest out p t,
      )

      pub IsChecked-IsPlan :
          (m m' : Store E.Hash) (f : ℕ) (i : Text) (ps : List (Text × Text)) (out : List Statement)
          → IsChecked each m f i ps
          → let ss = each (m.fsms f).states in
            let ts = each (m.fsms f).transitions in
            Tables E qsort each permutes m m' ts ss out
            → IsPlan z E malloc calloc function i (state_plans m' ss) (transition_plans m' ts)
      IsChecked-IsPlan m m' f i ps out c t =
          let ss = each (m.fsms f).states in
          let ts = each (m.fsms f).transitions in
          let size = Joins-length m.transits ts ps c.joins in
          let same = sym (state_names-plans m m' ss t.names) in
          let usable = subst (λ tr. AreUsable tr ts) (sym t.transits) c.usable in
          let joins = subst (λ tr. Joins tr ts ps) (sym t.transits) c.joins in
          record {
            states_named = subst AreDistinct same c.states.distinct;
            transitions_named = subst AreDistinct (sym (transition_names-plans m' ts)) usable.0;
            starts = subst (IsIn i) same c.start;
            ends = HaveNames-plans m' ts ps _ joins (subst (λ ns. HaveNames ns ps) same c.ends);
            states_fit = Fit-plans m m' ts ss ss out c.plain t;
            transitions_fit = FitAll-plans m' ts usable.1;
            some_states =
                omega (arith, IsIn-length i _ c.start, length-names m ss, length-state_plans m' ss);
            some_transitions =
                omega (arith, size, c.some_transitions, length-transition_plans m' ts);
            few_states = omega (arith, c.few_states, length-state_plans m' ss);
            few_transitions = omega (arith, size, c.few_transitions, length-transition_plans m' ts);
          }
