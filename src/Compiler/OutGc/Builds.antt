-- ===== src/Compiler/OutGc/Builds.antt =====
-- What the code from src/bin/estate_cc_out_gc.c builds when it runs.
pub mod Allocate
pub mod Run
use estate.Base.{
  AreDistinct, IsIn, All, ℕ, suc, ◌+◌, ◌^◌, ◌≡◌, ◌≢◌, ◌<◌, ◌⊎◌, inl, inr, refl, sym, subst, ap, ◌∙◌,
  Bool, true, false, Option, none, some, List, [], ◌∷◌, ◌++◌, Text, length, arith, Option-cases,
}
use estate.Eina.{Eina}
use estate.Compiler.OutGc.{
  Statement, prototype, end_prototypes, begin, declare_state, declare_transition, blank,
  new_machine, finish,
}
use estate.Compiler.OutGc.Exec.{Program, assign, step, Runs, Runs-append, run, run-Runs}
use estate.Compiler.OutGc.Alloc.{IsBuilt, Ascending, allocs, firsts, alloc-Made, Made}
use estate.Compiler.OutGc.Alloc.Transitions.{transition_allocs, transition_alloc-Made}
use estate.Compiler.OutGc.Fill.{StatePlan, init_states, state_names, StatesHold}
use estate.Compiler.OutGc.Fill.States.{init-Filled, HasRoom, Fit}
use estate.Compiler.OutGc.Link.{TransitionPlan, init_transitions, transition_names, TransitionsHold}
use estate.Compiler.OutGc.Link.Transitions.{init-Linked, HaveEnds, FitAll}
use estate.Runtime.Types.{Machine, cb_unlocked}
use estate.Runtime.Mempool.{Sizes, Mempool, mempool_new, mem_size}
use estate.Runtime.Mempool.Layout.{IsSmall, mempool_new-IsPool}
use estate.Runtime.Build.{
  zero_state, zero_transition, zero_wrapper, machine_new, machine_lock, current_state_get,
}
use estate.Runtime.Outcome.{returns}

-- The statements before the call of estate_machine_new: they call nothing.
abbrev pub IsQuiet : Statement → Type 0
IsQuiet (prototype f) = Unit
IsQuiet end_prototypes = Unit
IsQuiet (begin n) = Unit
IsQuiet (declare_state n) = Unit
IsQuiet (declare_transition n) = Unit
IsQuiet blank = Unit
IsQuiet _ = ⊥

abbrev pub counts : List StatePlan → List (Text × ℕ)
counts [] = []
counts (x ∷ xs) = (x.name, length x.trs) ∷ counts xs

-- The statements from the call of estate_machine_new on.
abbrev pub building : Text → Text → List StatePlan → List TransitionPlan → List Statement
building name init xs ts =
    new_machine (length xs) (length ts)
    ∷ (allocs (counts xs)
        ++ (transition_allocs (transition_names ts)
            ++ blank
              ∷ (init_states xs ++ (init_transitions ts ++ blank ∷ finish (some init) name ∷ []))))

pub firsts-counts : (xs : List StatePlan) → firsts (counts xs) ≡ state_names xs
firsts-counts [] = refl
firsts-counts (x ∷ xs) = ap (◌∷◌ x.name) (firsts-counts xs)

pub length-counts : (xs : List StatePlan) → length (counts xs) ≡ length xs
length-counts [] = refl
length-counts (x ∷ xs) = ap suc (length-counts xs)

pub length-transition_names : (ts : List TransitionPlan) → length (transition_names ts) ≡ length ts
length-transition_names [] = refl
length-transition_names (t ∷ ts) = ap suc (length-transition_names ts)

pub Ascending-In :
    (n : Text) (ns : List Text) (low : ℕ) (f : Text → Option ℕ)
    → Ascending low f ns
    → IsIn n ns
    → (a : ℕ) × (f n ≡ some a)
Ascending-In n [] low f a i = elim i [ ]
Ascending-In n (x ∷ ns) low f (a, e, _, r) (inl same) = (a, ap f (sym same) ∙ e)
Ascending-In n (x ∷ ns) low f (a, e, _, r) (inr i) = Ascending-In n ns (suc a) f r i

-- What estate_machine_new returns.
abbrev fresh : {H : Type 0} → Mempool → H → ℕ → ℕ → Machine H
fresh mp h s t = record {
  mempool = mp;
  states = λ _. zero_state;
  transits = λ _. zero_transition;
  wrappers = λ _. zero_wrapper;
  current_state = none;
  current_transition = none;
  error_cb = none;
  user_data = h;
  cb_defer = [];
  global_data = none;
  states_count = s;
  transit_count = t;
  in_cb = cb_unlocked;
  locked = false;
}

module _ (z : Sizes) (small : IsSmall z) (E : Eina) (h : E.Hash) (made : E.hash_new ≡ some h)
    (malloc : ℕ → Option ℕ) where
  mempool_new-some :
      (s t base : ℕ)
      → 0 < s
      → 0 < t
      → malloc (mem_size z s t) ≡ some base
      → mempool_new z malloc s t ≢ none
  unfolding mempool_new
  mempool_new-some s t base ps pt room = ground (arith, room)

  pub machine_new-IsBuilt :
      (s t base : ℕ)
      → 0 < s
      → 0 < t
      → s < 2 ^ 32
      → t < 2 ^ 32
      → malloc (mem_size z s t) ≡ some base
      → (m : Machine E.Hash) × (machine_new z E malloc s t ≡ some m) × IsBuilt z s t 0 0 0 0 m
  unfolding machine_new
  machine_new-IsBuilt s t base ps pt hs ht room = elim (Option-cases (mempool_new z malloc s t)) [
    | inl e ↦ absurd (mempool_new-some s t base ps pt room e)
    | inr (mp, e) ↦
        let (pool, rs, rt, _, _) = mempool_new-IsPool z malloc s t mp small hs ht e in
        (
          fresh mp h s t,
          rw (e, machine_new) (rw (made, machine_new)),
          record {
            pool = pool;
            states_reg = rs;
            transit_reg = rt;
            states_count = refl;
            transit_count = refl;
            unlocked = refl;
          },
        )
  ]

module _ (z : Sizes) (E : Eina) (malloc : ℕ → Option ℕ) (calloc : ℕ → Bool)
    (function : Text → ℕ) where
  pub quiet-Runs :
      (ss : List Statement) (p : Program E.Hash)
      → All IsQuiet ss
      → (q : Program E.Hash) × Runs z E malloc calloc function p ss q
  unfolding step
  quiet-Runs [] p a = (p, refl)
  quiet-Runs (prototype f ∷ ss) p a = let (q, r) = quiet-Runs ss p a.1 in (q, (p, refl, r))
  quiet-Runs (end_prototypes ∷ ss) p a = let (q, r) = quiet-Runs ss p a.1 in (q, (p, refl, r))
  quiet-Runs (begin n ∷ ss) p a = let (q, r) = quiet-Runs ss p a.1 in (q, (p, refl, r))
  quiet-Runs (blank ∷ ss) p a = let (q, r) = quiet-Runs ss p a.1 in (q, (p, refl, r))
  quiet-Runs (declare_state n ∷ ss) p a =
      let p' = record p { states = assign p.states n none } in
      let (q, r) = quiet-Runs ss p' a.1 in (q, (p', refl, r))
  quiet-Runs (declare_transition n ∷ ss) p a =
      let p' = record p { transits = assign p.transits n none } in
      let (q, r) = quiet-Runs ss p' a.1 in (q, (p', refl, r))
  quiet-Runs (_ ∷ ss) p a = elim a.0 [ ]

  -- The machine that the program holds in the end is locked at its initial state, and its states
  -- and transitions are as the plan gives them.
  pub record Builds (q : Program E.Hash) (init : Text) (xs : List StatePlan)
      (ts : List TransitionPlan) (m : Machine E.Hash) : Type 0 where
    pub fsm : q.fsm ≡ some m
    pub locked : m.locked ≡ true
    pub start : (i : ℕ) × (q.states init ≡ some i) × (current_state_get m ≡ some i)
    pub states : StatesHold function q.states q.transits m.states m.wrappers xs
    pub transits : TransitionsHold function q.states q.transits m.transits m.wrappers ts

  -- What a plan must be for its code to work.
  pub record IsPlan (init : Text) (xs : List StatePlan) (ts : List TransitionPlan) : Type 0 where
    pub states_named : AreDistinct (state_names xs)
    pub transitions_named : AreDistinct (transition_names ts)
    pub starts : IsIn init (state_names xs)
    pub ends : All (λ t. IsIn t.from (state_names xs) × IsIn t.to (state_names xs)) ts
    pub states_fit : Fit z E malloc calloc function xs
    pub transitions_fit : FitAll z E malloc calloc function ts
    pub some_states : 0 < length xs
    pub some_transitions : 0 < length ts
    pub few_states : length xs < 2 ^ 32
    pub few_transitions : length ts < 2 ^ 32
