-- ===== src/Compiler/OutGc/Plan.antt =====
-- The statements that src/bin/estate_cc_out_gc.c prints for a machine, as the code for a plan.
pub mod Collect
pub mod Tables
use estate.Base.{
  All, All-append, ℕ, suc, ◌≡◌, ◌≢◌, inl, inr, refl, sym, subst, ap, ◌∙◌, true, false, Option, none,
  some, List, [], ◌∷◌, ◌++◌, Text, length, if◌then◌else◌, arith, Bool-cases,
}
use mathlib.Core.List.{append_assoc, append-nil, Perm}
use estate.Eina.{Eina}
use estate.Runtime.Types.{ℤ}
use estate.Compiler.Data.{Transit, Store, update}
use estate.Compiler.OutGc.{
  Statement, new_state, new_transition, prototypes, same_name, set_trs, from_cache, from_cache_all,
  states_proto, transitions_proto, states_declare, transitions_declare, transitions_alloc, names_of,
  state_init_text, states_init, transition_init_text, transitions_init, sort_cb, states_alloc,
}
use estate.Compiler.OutGc.Alloc.{allocs}
use estate.Compiler.OutGc.Alloc.Transitions.{transition_allocs}
use estate.Compiler.OutGc.Fill.{StatePlan, init_states}
use estate.Compiler.OutGc.Link.{TransitionPlan, init_transitions, transition_names}
use estate.Compiler.OutGc.Builds.{IsQuiet, counts}

abbrev pub text_of : Option Text → Text
text_of none = []
text_of (some t) = t

-- Both ends of a transition are known.
abbrev pub HasEnds : Transit → Type 0
HasEnds t = (a : Text) × (b : Text) × (t.from ≡ some a) × (t.to ≡ some b)

-- The transitions that leave a state, in the order of the table.
abbrev pub leaving : (ℕ → Transit) → Text → List ℕ → List ℕ
leaving tr n [] = []
leaving tr n (t ∷ ts) =
    let rest = leaving tr n ts in if same_name (tr t).from n then t ∷ rest else rest

prototypes-IsQuiet : (fs : List (Option Text)) → All IsQuiet (prototypes fs)
unfolding prototypes
prototypes-IsQuiet [] = tt
prototypes-IsQuiet (none ∷ fs) = prototypes-IsQuiet fs
prototypes-IsQuiet (some f ∷ fs) = (tt, prototypes-IsQuiet fs)

pub leaving-cons :
    (tr : ℕ → Transit) (n : Text) (t : ℕ) (ts : List ℕ)
    → leaving tr n (t ∷ ts) ≡ leaving tr n (t ∷ []) ++ leaving tr n ts
leaving-cons tr n t ts = elim (Bool-cases (same_name (tr t).from n)) [ inl e ↦ rw e | inr e ↦ rw e ]

pub length-names_of : {H : Type 0} (m : Store H) (ts : List ℕ) → length (names_of m ts) ≡ length ts
length-names_of m [] = refl
length-names_of m (t ∷ ts) = ap suc (length-names_of m ts)

module _ {H : Type 0} where
  abbrev pub state_plans : Store H → List ℕ → List StatePlan
  state_plans m [] = []
  state_plans m (s ∷ ss) =
      record {
        name = (m.states s).name;
        trs = names_of m (m.states s).trs;
        enterer = (m.states s).enterer;
        exiter = (m.states s).exiter;
      }
      ∷ state_plans m ss

  abbrev pub transition_plans : Store H → List ℕ → List TransitionPlan
  transition_plans m [] = []
  transition_plans m (t ∷ ts) =
      record {
        name = (m.transits t).name;
        from = text_of (m.transits t).from;
        to = text_of (m.transits t).to;
        cb = (m.transits t).cb;
        enterer = (m.transits t).enterer;
        exiter = (m.transits t).exiter;
      }
      ∷ transition_plans m ts

  pub states_init_plans :
      (m : Store H) (ss : List ℕ) → states_init m ss ≡ init_states (state_plans m ss)
  unfolding states_init state_init_text
  states_init_plans m [] = refl
  states_init_plans m (s ∷ ss) = ap (◌∷◌ (state_init_text m s)) (states_init_plans m ss)

  pub transitions_init_plans :
      (m : Store H) (ts : List ℕ)
      → All (λ t. HasEnds (m.transits t)) ts
      → transitions_init m ts ≡ init_transitions (transition_plans m ts)
  unfolding transitions_init transition_init_text
  transitions_init_plans m [] a = refl
  transitions_init_plans m (t ∷ ts) ((f, g, from, to), a) =
      let ih = transitions_init_plans m ts a in ground (arith, ih, from, to)

  pub transitions_alloc_plans :
      (m : Store H) (ts : List ℕ)
      → transitions_alloc m ts ≡ transition_allocs (transition_names (transition_plans m ts))
  unfolding transitions_alloc
  transitions_alloc_plans m [] = refl
  transitions_alloc_plans m (t ∷ ts) =
      ap (◌∷◌ (new_transition (m.transits t).name)) (transitions_alloc_plans m ts)

  pub states_proto-IsQuiet : (m : Store H) (ss : List ℕ) → All IsQuiet (states_proto m ss)
  unfolding states_proto
  states_proto-IsQuiet m [] = tt
  states_proto-IsQuiet m (s ∷ ss) =
      All-append IsQuiet (prototypes _) (states_proto m ss) (prototypes-IsQuiet _)
        (states_proto-IsQuiet m ss)

  pub transitions_proto-IsQuiet : (m : Store H) (ts : List ℕ) → All IsQuiet (transitions_proto m ts)
  unfolding transitions_proto
  transitions_proto-IsQuiet m [] = tt
  transitions_proto-IsQuiet m (t ∷ ts) =
      All-append IsQuiet (prototypes _) (transitions_proto m ts) (prototypes-IsQuiet _)
        (transitions_proto-IsQuiet m ts)

  pub states_declare-IsQuiet : (m : Store H) (ss : List ℕ) → All IsQuiet (states_declare m ss)
  unfolding states_declare
  states_declare-IsQuiet m [] = tt
  states_declare-IsQuiet m (s ∷ ss) = (tt, states_declare-IsQuiet m ss)

  pub transitions_declare-IsQuiet :
      (m : Store H) (ts : List ℕ) → All IsQuiet (transitions_declare m ts)
  unfolding transitions_declare
  transitions_declare-IsQuiet m [] = tt
  transitions_declare-IsQuiet m (t ∷ ts) = (tt, transitions_declare-IsQuiet m ts)
