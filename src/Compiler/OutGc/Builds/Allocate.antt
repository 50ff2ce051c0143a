-- ===== src/Compiler/OutGc/Builds/Allocate.antt =====
-- The allocations of a plan and the single calls around them, in the code from src/bin/estate_cc_out_gc.c.
use estate.Base.{
  AreDistinct, IsIn, All, ℕ, ◌≡◌, ◌<◌, refl, sym, subst, ap, ◌∙◌, Bool, true, Option, some, List,
  [], ◌∷◌, ◌++◌, Text, length, arith,
}
use estate.Eina.{Eina}
use estate.Compiler.OutGc.{Statement, blank, new_machine, finish}
use estate.Compiler.OutGc.Exec.{Program, step, Runs, Runs-append}
use estate.Compiler.OutGc.Alloc.{IsBuilt, Ascending, allocs, alloc-Made, Made}
use estate.Compiler.OutGc.Alloc.Transitions.{transition_allocs, transition_alloc-Made}
use estate.Compiler.OutGc.Fill.{StatePlan, state_names}
use estate.Compiler.OutGc.Fill.States.{HasRoom}
use estate.Compiler.OutGc.Link.{TransitionPlan, transition_names}
use estate.Compiler.OutGc.Link.Transitions.{HaveEnds}
use estate.Runtime.Types.{Machine}
use estate.Runtime.Mempool.{Sizes}
use estate.Runtime.Mempool.Layout.{IsSmall}
use estate.Runtime.Build.{machine_new, machine_lock, current_state_get}
use estate.Runtime.Outcome.{returns}
use estate.Compiler.OutGc.Builds.{
  counts, firsts-counts, length-counts, length-transition_names, Ascending-In,
}

module _ (z : Sizes) (small : IsSmall z) (state_size : 0 < z.state)
    (transition_size : 0 < z.transition) (E : Eina) (h : E.Hash) (made : E.hash_new ≡ some h)
    (malloc : ℕ → Option ℕ) (calloc : ℕ → Bool) (memory : (n : ℕ) → calloc n ≡ true)
    (function : Text → ℕ) where
  -- The ends of the transitions are variables that are set.
  pub have-ends :
      (p : Program E.Hash) (names : List Text) (low : ℕ) (ts : List TransitionPlan)
      → Ascending low p.states names
      → All (λ t. IsIn t.from names × IsIn t.to names) ts
      → HaveEnds z E malloc calloc function p ts
  have-ends p names low [] up a = tt
  have-ends p names low (t ∷ ts) up ((f, g), a) = (
    (Ascending-In t.from names low p.states up f, Ascending-In t.to names low p.states up g),
    have-ends p names low ts up a,
  )

  given-room :
      (p q : Program E.Hash) (m m' : Machine E.Hash) (xs : List StatePlan)
      → All
          (λ (n, c). (a : ℕ) × (p.states n ≡ some a) × ((m.states a).transit_count ≡ c))
          (counts xs)
      → q.states ≡ p.states
      → m'.states ≡ m.states
      → HasRoom z E malloc calloc function q m' xs
  given-room p q m m' [] g e k = tt
  given-room p q m m' (x ∷ xs) ((a, at, c), g) e k = (
    (a, ap (λ f. f x.name) e ∙ at, ap (λ f. (f a).transit_count) k ∙ c),
    given-room p q m m' xs g e k,
  )

  lock_at :
      (s t k l a : ℕ) (m : Machine E.Hash)
      → IsBuilt z s t k l s t m
      → machine_lock m (some a) ≡ record m { current_state = some a; locked = true }
  unfolding machine_lock
  lock_at s t k l a m b =
      ground (arith, b.states_reg, b.states_count, b.transit_reg, b.transit_count)

  pub get_locked :
      (m : Machine E.Hash) (a : ℕ)
      → current_state_get (record m { current_state = some a; locked = true }) ≡ some a
  unfolding current_state_get
  get_locked m a = refl

  pub step-new_machine :
      (p : Program E.Hash) (s t : ℕ) (m : Machine E.Hash)
      → machine_new z E malloc s t ≡ some m
      → step z E malloc calloc function p (new_machine s t)
        ≡ returns (some (record p { fsm = some m }))
  unfolding step
  step-new_machine p s t m e = ap (λ x. returns (some (record p { fsm = x }))) e

  pub step-blank : (p : Program E.Hash) → step z E malloc calloc function p blank ≡ returns (some p)
  unfolding step
  step-blank p = refl

  pub step-finish :
      (s t k l a : ℕ) (p : Program E.Hash) (m : Machine E.Hash) (init name : Text)
      → p.fsm ≡ some m
      → IsBuilt z s t k l s t m
      → p.states init ≡ some a
      → step z E malloc calloc function p (finish (some init) name)
        ≡ returns
            (some (record p { fsm = some (record m { current_state = some a; locked = true }) }))
  unfolding step
  step-finish s t k l a p m init name e b at =
      rw (e, step)
        (rw (at, step)
          (ap (λ x. returns (some (record p { fsm = some x }))) (lock_at s t k l a m b)))

  abbrev Run : Program E.Hash → List Statement → Program E.Hash → Type 0
  Run = Runs z E malloc calloc function

  -- All states and transitions have been made.
  pub record Allocated (p q : Program E.Hash) (m : Machine E.Hash) (xs : List StatePlan)
      (ts : List TransitionPlan) : Type 0 where
    pub runs :
        (r : Program E.Hash) (rest : List Statement)
        → Run q rest r
        → Run p (allocs (counts xs) ++ (transition_allocs (transition_names ts) ++ rest)) r
    pub fsm : q.fsm ≡ some m
    pub built : IsBuilt z (length xs) (length ts) (length xs) (length ts) 0 0 m
    pub first_state : ℕ
    pub states : Ascending first_state q.states (state_names xs)
    pub first_transition : ℕ
    pub transits : Ascending first_transition q.transits (transition_names ts)
    pub room : HasRoom z E malloc calloc function q m xs

  states-Made :
      (p : Program E.Hash) (m : Machine E.Hash) (xs : List StatePlan) (t : ℕ)
      → p.fsm ≡ some m
      → IsBuilt z (length xs) t 0 0 0 0 m
      → AreDistinct (state_names xs)
      → (q : Program E.Hash) × (m' : Machine E.Hash) × Made z state_size E malloc calloc memory
          function
          (length xs)
          t
          0
          0
          0
          p
          q
          m
          m'
          (counts xs)
        × IsBuilt z (length xs) t (length xs) 0 0 0 m'
        × Ascending m.mempool.stack_states q.states (state_names xs)
  states-Made p m xs t e b d =
      let (q, m', r) =
        alloc-Made z state_size E malloc calloc memory function (counts xs) (length xs) t 0 0 0 p m
          e b (omega (arith, length-counts xs)) (subst AreDistinct (sym (firsts-counts xs)) d) in
      (
        q,
        m',
        r,
        subst (λ k. IsBuilt z (length xs) t k 0 0 0 m') (omega (arith, length-counts xs)) r.built,
        subst (Ascending m.mempool.stack_states q.states) (firsts-counts xs) r.order,
      )

  pub allocate :
      (p : Program E.Hash) (m : Machine E.Hash) (xs : List StatePlan) (ts : List TransitionPlan)
      → p.fsm ≡ some m
      → IsBuilt z (length xs) (length ts) 0 0 0 0 m
      → AreDistinct (state_names xs)
      → AreDistinct (transition_names ts)
      → (q : Program E.Hash) × (m' : Machine E.Hash) × Allocated p q m' xs ts
  allocate p m xs ts e b d d' =
      let (p2, m2, r2, b2, up) = states-Made p m xs (length ts) e b d in
      let (p3, m3, r3) =
        transition_alloc-Made z transition_size E malloc calloc function (transition_names ts)
          (length xs) (length ts) (length xs) 0 0 0 p2 m2 r2.fsm b2
          (omega (arith, length-transition_names ts)) d' in
      (
        p3,
        m3,
        record {
          runs = λ r rest go.
              Runs-append z E malloc calloc function p p2 r (allocs (counts xs))
                (transition_allocs (transition_names ts) ++ rest) r2.runs
                (Runs-append z E malloc calloc function p2 p3 r
                  (transition_allocs (transition_names ts)) rest r3.runs go);
          fsm = r3.fsm;
          built =
              subst (λ k. IsBuilt z (length xs) (length ts) (length xs) k 0 0 m3)
                (omega (arith, length-transition_names ts)) r3.built;
          first_state = m.mempool.stack_states;
          states =
              subst (λ f. Ascending m.mempool.stack_states f (state_names xs)) (sym r3.states) up;
          first_transition = m2.mempool.stack_transits;
          transits = r3.order;
          room = given-room p2 p3 m2 m3 xs r2.given r3.states r3.kept;
        },
      )
