-- ===== src/Compiler/OutGc/Builds/Run.antt =====
-- The code from src/bin/estate_cc_out_gc.c runs to its end.
use estate.Base.{
  All, ℕ, ◌+◌, ◌≡◌, ◌<◌, refl, sym, subst, ap, ◌∙◌, Bool, true, Option, some, List, [], ◌∷◌, ◌++◌,
  Text, length, arith,
}
use estate.Eina.{Eina}
use estate.Compiler.OutGc.{Statement, blank, finish}
use estate.Compiler.OutGc.Exec.{Program, Runs, Runs-append, run, run-Runs}
use estate.Compiler.OutGc.Alloc.{IsBuilt, Ascending}
use estate.Compiler.OutGc.Fill.{StatePlan, init_states, state_names, StatesHold, CallsBack}
use estate.Compiler.OutGc.Fill.States.{init-Filled}
use estate.Compiler.OutGc.Link.{TransitionPlan, init_transitions, transition_names, TransitionsHold}
use estate.Compiler.OutGc.Link.Transitions.{init-Linked}
use estate.Runtime.Types.{CbWrapper, Wrapper, state_enterer, state_exiter, State, Machine}
use estate.Runtime.Mempool.{Sizes, mem_size}
use estate.Runtime.Mempool.Layout.{IsSmall}
use estate.Runtime.Outcome.{returns}
use estate.Compiler.OutGc.Builds.{
  Builds, IsQuiet, building, Ascending-In, machine_new-IsBuilt, quiet-Runs, IsPlan,
}
use estate.Compiler.OutGc.Builds.Allocate.{
  Allocated, have-ends, get_locked, step-new_machine, step-blank, step-finish, allocate,
}

module _ (z : Sizes) (small : IsSmall z) (state_size : 0 < z.state)
    (transition_size : 0 < z.transition) (E : Eina) (h : E.Hash) (made : E.hash_new ≡ some h)
    (malloc : ℕ → Option ℕ) (calloc : ℕ → Bool) (memory : (n : ℕ) → calloc n ≡ true)
    (function : Text → ℕ) where
  -- All states and transitions have been filled in.
  record Complete (p q : Program E.Hash) (m : Machine E.Hash) (init : Text) (xs : List StatePlan)
      (ts : List TransitionPlan) : Type 0 where
    runs :
        (r : Program E.Hash) (rest : List Statement)
        → Runs z E malloc calloc function q rest r
        → Runs z E malloc calloc function p (init_states xs ++ (init_transitions ts ++ rest)) r
    fsm : q.fsm ≡ some m
    built : IsBuilt z (length xs) (length ts) (length xs) (length ts) (length xs) (length ts) m
    start : (i : ℕ) × (q.states init ≡ some i)
    states : StatesHold function q.states q.transits m.states m.wrappers xs
    transits : TransitionsHold function q.states q.transits m.transits m.wrappers ts

  StatesHold-wrappers :
      (s t : Text → Option ℕ) (st : ℕ → State) (xs : List StatePlan) (w w' : Wrapper → CbWrapper)
      → ((a : ℕ)
          → (w' (state_enterer a) ≡ w (state_enterer a))
            × (w' (state_exiter a) ≡ w (state_exiter a)))
      → StatesHold function s t st w xs
      → StatesHold function s t st w' xs
  StatesHold-wrappers s t st [] w w' same a = tt
  StatesHold-wrappers s t st (x ∷ xs) w w' same ((a, at, named, table, enters, exits), rest) = (
    (
      a,
      at,
      named,
      table,
      subst (λ y. CallsBack function y x.enterer) (sym (same a).0) enters,
      subst (λ y. CallsBack function y x.exiter) (sym (same a).1) exits,
    ),
    StatesHold-wrappers s t st xs w w' same rest,
  )

  complete :
      (p q : Program E.Hash) (m : Machine E.Hash) (init : Text) (xs : List StatePlan)
      (ts : List TransitionPlan)
      → Allocated z small state_size transition_size E h made malloc calloc memory function p q m xs
          ts
      → IsPlan z E malloc calloc function init xs ts
      → (r : Program E.Hash) × (m' : Machine E.Hash) × Complete q r m' init xs ts
  complete p q m init xs ts a plan =
      let s = length xs in
      let t = length ts in
      let (p4, m4, r4) =
        init-Filled z E malloc calloc function xs s t s t 0 0 a.first_state q m a.fsm a.built
          (omega arith) plan.few_states a.states a.room plan.states_fit in
      let up = subst (λ f. Ascending a.first_state f (state_names xs)) (sym r4.states) a.states in
      let (p5, m5, r5) =
        init-Linked z E malloc calloc function ts s t s t (0 + s) 0 a.first_transition p4 m4 r4.fsm
          r4.built (omega arith) plan.few_transitions
          (subst (λ f. Ascending a.first_transition f (transition_names ts)) (sym r4.transits)
            a.transits)
          (have-ends z small state_size transition_size E h made malloc calloc memory function p4
            (state_names xs) a.first_state ts up plan.ends)
          plan.transitions_fit in
      let (i, at) = Ascending-In init (state_names xs) a.first_state p4.states up plan.starts in
      let all_states : 0 + s ≡ s = omega arith in
      let all_transits : 0 + t ≡ t = omega arith in
      (
        p5,
        m5,
        record {
          runs = λ r rest go.
              Runs-append z E malloc calloc function q p4 r (init_states xs)
                (init_transitions ts ++ rest) r4.runs
                (Runs-append z E malloc calloc function p4 p5 r (init_transitions ts) rest r5.runs
                  go);
          fsm = r5.fsm;
          built =
              subst (λ k. IsBuilt z s t s t k t m5) all_states
                (subst (λ k. IsBuilt z s t s t (0 + s) k m5) all_transits r5.built);
          start = (i, ap (λ f. f init) r5.states ∙ at);
          states =
              subst (λ f. StatesHold function f p5.transits m5.states m5.wrappers xs)
                (sym r5.states)
                (subst (λ f. StatesHold function p4.states f m5.states m5.wrappers xs)
                  (sym r5.transits)
                  (subst (λ f. StatesHold function p4.states p4.transits f m5.wrappers xs)
                    (sym r5.kept)
                    (StatesHold-wrappers p4.states p4.transits m4.states xs m4.wrappers m5.wrappers
                      r5.states_wrapped r4.holds)));
          transits = r5.holds;
        },
      )

  lock-Builds :
      (p q : Program E.Hash) (m : Machine E.Hash) (init name : Text) (xs : List StatePlan)
      (ts : List TransitionPlan)
      → Complete p q m init xs ts
      → (r : Program E.Hash) × (m' : Machine E.Hash) × Runs z E malloc calloc function q
          (blank ∷ finish (some init) name ∷ [])
          r
        × Builds z E malloc calloc function r init xs ts m'
  lock-Builds p q m init name xs ts c =
      let (i, at) = c.start in
      let m' = record m { current_state = some i; locked = true } in
      let r = record q { fsm = some m' } in
      (
        r,
        m',
        (
          q,
          step-blank z small state_size transition_size E h made malloc calloc memory function q,
          (
            r,
            step-finish z small state_size transition_size E h made malloc calloc memory function
                (length xs) (length ts) (length xs) (length ts) i q m init name c.fsm c.built at,
            refl,
          ),
        ),
        record {
          fsm = refl;
          locked = refl;
          start = (
            i,
            at,
            get_locked z small state_size transition_size E h made malloc calloc memory function m
                i,
          );
          states = c.states;
          transits = c.transits;
        },
      )

  -- Where eina_hash_new, malloc and calloc find memory, the code for a plan runs to its end with no
  -- fault and with no jump to its error label. It builds the machine of the plan, locked at the
  -- initial state.
  pub run-Builds :
      (p : Program E.Hash) (prologue : List Statement) (name init : Text) (xs : List StatePlan)
      (ts : List TransitionPlan) (base : ℕ)
      → All IsQuiet prologue
      → IsPlan z E malloc calloc function init xs ts
      → malloc (mem_size z (length xs) (length ts)) ≡ some base
      → (q : Program E.Hash) × (m : Machine E.Hash) × (run z E malloc calloc function p
            (prologue ++ building name init xs ts)
          ≡ returns (some q))
        × Builds z E malloc calloc function q init xs ts m
  run-Builds p prologue name init xs ts base quiet plan room =
      let (p0, runs0) = quiet-Runs z E malloc calloc function prologue p quiet in
      let (m1, news, b1) =
        machine_new-IsBuilt z small E h made malloc (length xs) (length ts) base plan.some_states
          plan.some_transitions plan.few_states plan.few_transitions room in
      let p1 = record p0 { fsm = some m1 } in
      let (p3, m3, a) =
        allocate z small state_size transition_size E h made malloc calloc memory function p1 m1 xs
          ts refl b1 plan.states_named plan.transitions_named in
      let (p5, m5, c) = complete p1 p3 m3 init xs ts a plan in
      let (q, m, ends, builds) = lock-Builds p3 p5 m5 init name xs ts c in
      let filled = c.runs q (blank ∷ finish (some init) name ∷ []) ends in
      let built =
        a.runs q
          (blank
            ∷ (init_states xs ++ (init_transitions ts ++ blank ∷ finish (some init) name ∷ [])))
          (
            p3,
            step-blank z small state_size transition_size E h made malloc calloc memory function p3,
            filled,
          ) in
      let all =
        Runs-append z E malloc calloc function p p0 q prologue (building name init xs ts) runs0 (
          p1,
          step-new_machine z small state_size transition_size E h made malloc calloc memory function
              p0 (length xs) (length ts) m1 news,
          built,
        ) in
      (
        q,
        m,
        run-Runs z E malloc calloc function p q (prologue ++ building name init xs ts) all,
        builds,
      )
