-- ===== src/Compiler/OutGi/Functions.antt =====
-- The functions that src/bin/estate_cc_out_gi.c defines, against those that src/bin/estate_cc_out_gc.c declares.
use mathlib.Core.List.{append_assoc}
use estate.Base.{ℕ, ◌≡◌, refl, sym, ap, ◌∙◌, Option, none, some, List, [], ◌∷◌, ◌++◌, Text}
use estate.Eina.{Eina}
use estate.Runtime.Types.{ℤ}
use estate.Compiler.Data.{Store}
use estate.Compiler.OutGc.{
  Statement, prototype, end_prototypes, begin, blank, prototypes, states_proto, transitions_proto,
  states_declare, transitions_declare, prologue,
}
use estate.Compiler.OutGi.{definition, gi_cb, load_text, states_gi, transitions_gi, machine_gi}

-- The functions among some names that may be missing.
abbrev pub present : List (Option Text) → List Text
present [] = []
present (none ∷ fs) = present fs
present (some f ∷ fs) = f ∷ present fs

abbrev pub definitions : List Text → Text
definitions [] = []
definitions (f ∷ fs) = definition f ++ definitions fs

abbrev pub declarations : List Text → List Statement
declarations [] = []
declarations (f ∷ fs) = prototype f ∷ declarations fs

module _ {H : Type 0} where
  abbrev pub state_functions : Store H → List ℕ → List Text
  state_functions m [] = []
  state_functions m (s ∷ ss) =
      present ((m.states s).enterer.func ∷ (m.states s).exiter.func ∷ []) ++ state_functions m ss

  abbrev pub transition_functions : Store H → List ℕ → List Text
  transition_functions m [] = []
  transition_functions m (t ∷ ts) =
      present ((m.transits t).cb.func ∷ []) ++ transition_functions m ts

gi_cb-present : (fs : List (Option Text)) → gi_cb fs ≡ definitions (present fs)
unfolding gi_cb
gi_cb-present [] = refl
gi_cb-present (none ∷ fs) = gi_cb-present fs
gi_cb-present (some f ∷ fs) = ap (λ x. definition f ++ x) (gi_cb-present fs)

prototypes-present : (fs : List (Option Text)) → prototypes fs ≡ declarations (present fs)
unfolding prototypes
prototypes-present [] = refl
prototypes-present (none ∷ fs) = prototypes-present fs
prototypes-present (some f ∷ fs) = ap (◌∷◌ (prototype f)) (prototypes-present fs)

definitions-append : (a b : List Text) → definitions (a ++ b) ≡ definitions a ++ definitions b
definitions-append [] b = refl
definitions-append (f ∷ a) b =
    ap (λ x. definition f ++ x) (definitions-append a b)
    ∙ sym (append_assoc (definition f) (definitions a) (definitions b))

declarations-append : (a b : List Text) → declarations (a ++ b) ≡ declarations a ++ declarations b
declarations-append [] b = refl
declarations-append (f ∷ a) b = ap (◌∷◌ (prototype f)) (declarations-append a b)

module _ {H : Type 0} (m : Store H) where
  states_gi-definitions : (ss : List ℕ) → states_gi m ss ≡ definitions (state_functions m ss)
  unfolding states_gi
  states_gi-definitions [] = refl
  states_gi-definitions (s ∷ ss) = rw (
    gi_cb-present ((m.states s).enterer.func ∷ (m.states s).exiter.func ∷ []),
    states_gi-definitions ss,
    definitions-append (present ((m.states s).enterer.func ∷ (m.states s).exiter.func ∷ []))
        (state_functions m ss),
  )

  transitions_gi-definitions :
      (ts : List ℕ) → transitions_gi m ts ≡ definitions (transition_functions m ts)
  unfolding transitions_gi
  transitions_gi-definitions [] = refl
  transitions_gi-definitions (t ∷ ts) = rw (
    gi_cb-present ((m.transits t).cb.func ∷ []),
    transitions_gi-definitions ts,
    definitions-append (present ((m.transits t).cb.func ∷ [])) (transition_functions m ts),
  )

  states_proto-declarations :
      (ss : List ℕ) → states_proto m ss ≡ declarations (state_functions m ss)
  unfolding states_proto
  states_proto-declarations [] = refl
  states_proto-declarations (s ∷ ss) = rw (
    prototypes-present ((m.states s).enterer.func ∷ (m.states s).exiter.func ∷ []),
    states_proto-declarations ss,
    declarations-append (present ((m.states s).enterer.func ∷ (m.states s).exiter.func ∷ []))
        (state_functions m ss),
  )

  transitions_proto-declarations :
      (ts : List ℕ) → transitions_proto m ts ≡ declarations (transition_functions m ts)
  unfolding transitions_proto
  transitions_proto-declarations [] = refl
  transitions_proto-declarations (t ∷ ts) = rw (
    prototypes-present ((m.transits t).cb.func ∷ []),
    transitions_proto-declarations ts,
    declarations-append (present ((m.transits t).cb.func ∷ [])) (transition_functions m ts),
  )

-- The functions of a machine: the enterers and exiters of its states, then the callbacks of its
-- transitions.
abbrev pub functions : {H : Type 0} → Store H → List ℕ → List ℕ → List Text
functions m ss ts = state_functions m ss ++ transition_functions m ts

-- For each machine, the glue file defines the functions that the generated code declares, in the
-- same order and each as often as it is declared. A function that is used twice is defined twice.
pub machine_gi-prologue :
    (E : Eina) (qsort : (ℕ → ℕ → ℤ) → List ℕ → List ℕ) (each : E.Hash → List ℕ) (m : Store E.Hash)
    (f : ℕ)
    → let fsm = m.fsms f in
      let ss = each fsm.states in
      let ts = each fsm.transitions in
      (machine_gi E each m f ≡ load_text fsm.name ++ definitions (functions m ss ts))
      × (prologue E qsort each m fsm.name ss ts
          ≡ declarations (functions m ss ts)
            ++ end_prototypes
              ∷ begin fsm.name
              ∷ (states_declare m ss ++ (transitions_declare m ts ++ blank ∷ [])))
unfolding machine_gi prologue
machine_gi-prologue E qsort each m f =
    let ss = each (m.fsms f).states in
    let ts = each (m.fsms f).transitions in
    (
      ap (λ x. load_text (m.fsms f).name ++ x)
          (rw (
            states_gi-definitions m ss,
            transitions_gi-definitions m ts,
            definitions-append (state_functions m ss) (transition_functions m ts),
          )),
      rw (
        states_proto-declarations m ss,
        transitions_proto-declarations m ts,
        declarations-append (state_functions m ss) (transition_functions m ts),
        append_assoc (declarations (state_functions m ss))
            (declarations (transition_functions m ts)),
      ),
    )
