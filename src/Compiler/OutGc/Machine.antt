-- ===== src/Compiler/OutGc/Machine.antt =====
-- The function estate_cc_out_gc of src/bin/estate_cc_out_gc.c, from a machine of the compiler to what its code
-- builds at run time.
use estate.Base.{
  AreDistinct, All, All-append, ℕ, suc, ◌≡◌, ◌<◌, refl, sym, subst, ap, Bool, true, Option, some,
  List, [], ◌∷◌, ◌++◌, Text, length,
}
use mathlib.Core.List.{Perm}
use estate.Eina.{Eina}
use estate.Runtime.Types.{ℤ, Machine}
use estate.Runtime.Mempool.{Sizes, mem_size}
use estate.Runtime.Mempool.Layout.{IsSmall}
use estate.Runtime.Outcome.{returns}
use estate.Compiler.Data.{Store}
use estate.Compiler.OutGc.{
  Statement, blank, new_machine, finish, states_proto, transitions_proto, states_declare,
  transitions_declare, transitions_alloc, states_init, transitions_init, states_alloc, prologue,
  machine_text,
}
use estate.Compiler.OutGc.Exec.{Program, run}
use estate.Compiler.OutGc.Alloc.{allocs}
use estate.Compiler.OutGc.Builds.{IsQuiet, IsPlan, counts, building}
use estate.Compiler.OutGc.Builds.Run.{run-Builds}
use estate.Compiler.OutGc.Mirror.{Mirrors, Builds-Mirrors}
use estate.Compiler.OutGc.Plan.Tables.{Tables, states_alloc-Tables}
use estate.Compiler.OutGc.Plan.{
  HasEnds, state_plans, transition_plans, states_init_plans, transitions_init_plans,
  transitions_alloc_plans, states_proto-IsQuiet, transitions_proto-IsQuiet, states_declare-IsQuiet,
  transitions_declare-IsQuiet,
}

pub length-state_plans :
    {H : Type 0} (m : Store H) (ss : List ℕ) → length (state_plans m ss) ≡ length ss
length-state_plans m [] = refl
length-state_plans m (s ∷ ss) = ap suc (length-state_plans m ss)

pub length-transition_plans :
    {H : Type 0} (m : Store H) (ts : List ℕ) → length (transition_plans m ts) ≡ length ts
length-transition_plans m [] = refl
length-transition_plans m (t ∷ ts) = ap suc (length-transition_plans m ts)

module _ (E : Eina) (qsort : (ℕ → ℕ → ℤ) → List ℕ → List ℕ) (each : E.Hash → List ℕ)
    (permutes : (c : ℕ → ℕ → ℤ) (xs : List ℕ) → Perm (qsort c xs) xs) where
  prologue-IsQuiet :
      (m : Store E.Hash) (name : Text) (ss ts : List ℕ)
      → All IsQuiet (prologue E qsort each m name ss ts)
  unfolding prologue
  prologue-IsQuiet m name ss ts =
      let variables = All-append IsQuiet (states_declare m ss) _ (states_declare-IsQuiet m ss) (
        All-append IsQuiet (transitions_declare m ts) _ (transitions_declare-IsQuiet m ts)
          (tt, tt)) in
      All-append IsQuiet (states_proto m ss) _ (states_proto-IsQuiet m ss) (
        All-append IsQuiet (transitions_proto m ts) _ (transitions_proto-IsQuiet m ts)
          (tt, (tt, variables)))

  -- The machine `f` can be printed: its tables are still empty, and each transition has both ends.
  pub record IsPrintable (m : Store E.Hash) (f : ℕ) (init : Text) : Type 0 where
    pub starts : (m.fsms f).init ≡ some init
    pub separate : AreDistinct (each (m.fsms f).states)
    pub untabled : All (λ s. (m.states s).trs ≡ []) (each (m.fsms f).states)
    pub ends : All (λ t. HasEnds (m.transits t)) (each (m.fsms f).transitions)

  abbrev pub printed : Store E.Hash → ℕ → Store E.Hash
  printed m f =
      (states_alloc E qsort each m (each (m.fsms f).transitions) (each (m.fsms f).states)).0

  building_printed :
      (m m' : Store E.Hash) (name init : Text) (ss ts : List ℕ) (out : List Statement)
      → out ≡ allocs (counts (state_plans m' ss))
      → All (λ t. HasEnds (m'.transits t)) ts
      → new_machine (length ss) (length ts)
          ∷ (out
              ++ (transitions_alloc m' ts
                  ++ blank
                    ∷ (states_init m' ss
                        ++ (transitions_init m' ts ++ blank ∷ finish (some init) name ∷ []))))
        ≡ building name init (state_plans m' ss) (transition_plans m' ts)
  building_printed m m' name init ss ts out e ends = rw (
    e,
    transitions_alloc_plans m' ts,
    states_init_plans m' ss,
    transitions_init_plans m' ts ends,
    length-state_plans m' ss,
    length-transition_plans m' ts,
  )

  pub machine_text-building :
      (m : Store E.Hash) (f : ℕ) (init : Text)
      → IsPrintable m f init
      → let fsm = m.fsms f in
        let ss = each fsm.states in
        let ts = each fsm.transitions in
        let (m', out) = machine_text E qsort each m f in
        Tables E qsort each permutes m m' ts ss (allocs (counts (state_plans m' ss)))
        × (out
            ≡ prologue E qsort each m fsm.name ss ts
              ++ building fsm.name init (state_plans m' ss) (transition_plans m' ts))
  unfolding machine_text
  machine_text-building m f init c =
      let fsm = m.fsms f in
      let ss = each fsm.states in
      let ts = each fsm.transitions in
      let r = states_alloc-Tables E qsort each permutes ss m ts c.separate c.untabled in
      let m' = (states_alloc E qsort each m ts ss).0 in
      let ends = subst (λ x. All (λ t. HasEnds (x t)) ts) (sym r.transits) c.ends in
      (
        subst (Tables E qsort each permutes m m' ts ss) r.prints r,
        ap (λ x. prologue E qsort each m fsm.name ss ts ++ x)
            (subst
              (λ i.
                new_machine (length ss) (length ts)
                  ∷ ((states_alloc E qsort each m ts ss).1
                      ++ (transitions_alloc m' ts
                          ++ blank
                            ∷ (states_init m' ss
                                ++ (transitions_init m' ts ++ blank ∷ finish i fsm.name ∷ []))))
                ≡ building fsm.name init (state_plans m' ss) (transition_plans m' ts))
              (sym c.starts) (building_printed m m' fsm.name init ss ts _ r.prints ends)),
      )

  module _ (z : Sizes) (small : IsSmall z) (state_size : 0 < z.state)
      (transition_size : 0 < z.transition) (h : E.Hash) (made : E.hash_new ≡ some h)
      (malloc : ℕ → Option ℕ) (calloc : ℕ → Bool) (memory : (n : ℕ) → calloc n ≡ true)
      (function : Text → ℕ) where
    -- For a machine that has an initial state, whose states are apart and have empty tables, and
    -- whose transitions have both ends; where the names of its states are distinct and those of its
    -- transitions, too, the initial state and the ends are among the states, no callback key is
    -- longer than 125 characters, no transition has an exiter key, and there are at least one and
    -- less than 2 ^ 32 states and transitions; and where eina_hash_new, malloc and calloc find
    -- memory, with headers, states and transitions that are not empty or huge (`IsSmall`), and
    -- qsort permutes: the code that estate_cc_out_gc prints runs to its end with no fault and with
    -- no jump to its error label. It builds a machine that is locked at the initial state. Each
    -- state and each transition of the compiler's machine stands there, at the variable of its name,
    -- with its name and with the functions and keys of its callbacks: a state with its enterer, its
    -- exiter and the table of the transitions that leave it, as qsort sorts them with the comparison
    -- of the generator; a transition with its two ends, its callback, its enterer and its exiter.
    pub machine_text-Builds :
        (m : Store E.Hash) (f : ℕ) (init : Text) (p : Program E.Hash) (base : ℕ)
        → IsPrintable m f init
        → let ss = each (m.fsms f).states in
          let ts = each (m.fsms f).transitions in
          let (m', out) = machine_text E qsort each m f in
          IsPlan z E malloc calloc function init (state_plans m' ss) (transition_plans m' ts)
          → malloc (mem_size z (length ss) (length ts)) ≡ some base
          → (q : Program E.Hash) × (built : Machine E.Hash) × (run z E malloc calloc function p out
              ≡ returns (some q))
            × Mirrors E qsort each permutes function m f init q built
    unfolding machine_text
    machine_text-Builds m f init p base c plan room =
        let fsm = m.fsms f in
        let ss = each fsm.states in
        let ts = each fsm.transitions in
        let m' = (machine_text E qsort each m f).0 in
        let (tables, out) = machine_text-building m f init c in
        let (q, built, runs, builds) =
          run-Builds z small state_size transition_size E h made malloc calloc memory function p
            (prologue E qsort each m fsm.name ss ts) fsm.name init (state_plans m' ss)
            (transition_plans m' ts) base (prologue-IsQuiet m fsm.name ss ts) plan
            (rw (length-state_plans m' ss, length-transition_plans m' ts) room) in
        (
          q,
          built,
          subst (λ x. run z E malloc calloc function p x ≡ returns (some q)) (sym out) runs,
          Builds-Mirrors E qsort each permutes function z malloc calloc m m' f init _ q built tables
              c.ends builds,
        )
