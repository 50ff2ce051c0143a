-- ===== src/Compiler/OutGc/Link/Transitions.antt =====
-- The calls that fill in the transitions run to their end in the code from src/bin/estate_cc_out_gc.c.
use estate.Base.{
  All, ℕ, suc, ◌+◌, ◌^◌, ◌≡◌, ◌<◌, ◌≤◌, refl, sym, subst, ap, ◌∙◌, Bool, Option, none, some, List,
  [], ◌∷◌, Text, length, arith,
}
use estate.Eina.{Eina}
use estate.Compiler.OutGc.{init_transition}
use estate.Compiler.OutGc.Exec.{Program, step, add_transition, checked, Runs}
use estate.Compiler.OutGc.Alloc.{IsBuilt, Ascending, update_at, update_below}
use estate.Compiler.OutGc.Fill.{FitsKey, CallsBack, ctor-fits}
use estate.Runtime.Types.{
  CbWrapper, state_enterer, state_exiter, transition_cb, transition_enterer, transition_exiter,
  Machine,
}
use estate.Runtime.Mempool.{Sizes}
use estate.Runtime.Outcome.{returns}
use estate.Compiler.OutGc.Link.{
  TransitionPlan, init_transitions, transition_names, TransitionsHold, linked,
  transition_init-linked, transition_add-linked,
}

module _ (z : Sizes) (E : Eina) (malloc : ℕ → Option ℕ) (calloc : ℕ → Bool)
    (function : Text → ℕ) where
  step-init_transition :
      (s n k l i j : ℕ) (p : Program E.Hash) (m : Machine E.Hash) (a : ℕ) (x : TransitionPlan)
      (f t : ℕ)
      → p.fsm ≡ some m
      → IsBuilt z s n k l i j m
      → j < n
      → n < 2 ^ 32
      → p.transits x.name ≡ some a
      → p.states x.from ≡ some f
      → p.states x.to ≡ some t
      → FitsKey x.cb.value × FitsKey x.enterer.value × (x.exiter.value ≡ none)
      → step z E malloc calloc function p
          (init_transition x.name (some x.from) (some x.to) x.cb x.enterer x.exiter)
        ≡ returns (some (record p { fsm = some (linked function m a x f t) }))
  unfolding step add_transition checked
  step-init_transition s n k l i j p m a x f t e b lt le at from to (fc, fe, keyless) =
      let inits = transition_init-linked function m a x f t keyless in
      let adds = (transition_add-linked function z s n k l i j m a x f t b lt le).0 in
      let fits : FitsKey x.exiter.value = subst FitsKey (sym keyless) tt in
      rw (e, step)
        (rw (ctor-fits function x.cb fc, step)
          (rw (ctor-fits function x.enterer fe, step)
            (rw (ctor-fits function x.exiter fits, step)
              (rw (at, step)
                (rw (from, step)
                  (rw (to, step)
                    (rw (inits, step)
                      (rw (at, add_transition)
                        (ap (checked z E malloc calloc function (record p { fsm = some m }))
                          adds)))))))))

  linked_wrapped :
      (m : Machine E.Hash) (a b : ℕ) (x : TransitionPlan) (f t : ℕ)
      → b < a
      → let w = (linked function m a x f t).wrappers in
        (w (transition_cb b) ≡ m.wrappers (transition_cb b))
        × (w (transition_enterer b) ≡ m.wrappers (transition_enterer b))
        × (w (transition_exiter b) ≡ m.wrappers (transition_exiter b))
  linked_wrapped m a b x f t lt = ground arith

  linked_states :
      (m : Machine E.Hash) (a b : ℕ) (x : TransitionPlan) (f t : ℕ)
      → let w = (linked function m a x f t).wrappers in
        (w (state_enterer b) ≡ m.wrappers (state_enterer b))
        × (w (state_exiter b) ≡ m.wrappers (state_exiter b))
  linked_states m a b x f t = (refl, refl)

  CallsBack-linked :
      (m : Machine E.Hash) (a : ℕ) (x : TransitionPlan) (f t : ℕ) (wc we wx : CbWrapper)
      → x.exiter.value ≡ none
      → (wc ≡ (linked function m a x f t).wrappers (transition_cb a))
        × (we ≡ (linked function m a x f t).wrappers (transition_enterer a))
        × (wx ≡ (linked function m a x f t).wrappers (transition_exiter a))
      → CallsBack function wc x.cb
        × CallsBack function we x.enterer
        × CallsBack function wx x.exiter
  CallsBack-linked m a x f t wc we wx keyless (p, q, r) = (
    (ap (λ w. w.func) p ∙ ground arith, ap (λ w. w.key) p ∙ ground arith),
    (ap (λ w. w.func) q ∙ ground arith, ap (λ w. w.key) q ∙ ground arith),
    (ap (λ w. w.func) r ∙ ground arith, ap (λ w. w.key) r ∙ ground (arith, keyless)),
  )

  -- The transitions of `xs` have been filled in.
  pub record Linked (s n k l i j low : ℕ) (p q : Program E.Hash) (m m' : Machine E.Hash)
      (xs : List TransitionPlan) : Type 0 where
    pub runs : Runs z E malloc calloc function p (init_transitions xs) q
    pub fsm : q.fsm ≡ some m'
    pub built : IsBuilt z s n k l i (j + length xs) m'
    pub states : q.states ≡ p.states
    pub transits : q.transits ≡ p.transits
    pub others : (a : ℕ) → a < low → m'.transits a ≡ m.transits a
    pub kept : m'.states ≡ m.states
    pub wrapped :
        (a : ℕ)
        → a < low
        → (m'.wrappers (transition_cb a) ≡ m.wrappers (transition_cb a))
          × (m'.wrappers (transition_enterer a) ≡ m.wrappers (transition_enterer a))
          × (m'.wrappers (transition_exiter a) ≡ m.wrappers (transition_exiter a))
    pub states_wrapped :
        (a : ℕ)
        → (m'.wrappers (state_enterer a) ≡ m.wrappers (state_enterer a))
          × (m'.wrappers (state_exiter a) ≡ m.wrappers (state_exiter a))
    pub holds : TransitionsHold function q.states q.transits m'.transits m'.wrappers xs

  abbrev pub HaveEnds : Program E.Hash → List TransitionPlan → Type 0
  HaveEnds p xs =
      All (λ x. ((f : ℕ) × (p.states x.from ≡ some f)) × ((t : ℕ) × (p.states x.to ≡ some t))) xs

  abbrev pub FitAll : List TransitionPlan → Type 0
  FitAll xs = All (λ x. FitsKey x.cb.value × FitsKey x.enterer.value × (x.exiter.value ≡ none)) xs

  pub init-Linked :
      (xs : List TransitionPlan) (s n k l i j low : ℕ) (p : Program E.Hash) (m : Machine E.Hash)
      → p.fsm ≡ some m
      → IsBuilt z s n k l i j m
      → j + length xs ≤ n
      → n < 2 ^ 32
      → Ascending low p.transits (transition_names xs)
      → HaveEnds p xs
      → FitAll xs
      → (q : Program E.Hash) × (m' : Machine E.Hash) × Linked s n k l i j low p q m m' xs
  init-Linked [] s n k l i j low p m e b le small up ends fit = (
    p,
    m,
    record {
      runs = refl;
      fsm = e;
      built = subst (λ x. IsBuilt z s n k l i x m) (omega arith) b;
      states = refl;
      transits = refl;
      others = λ a lt. refl;
      kept = refl;
      wrapped = λ a lt. (refl, refl, refl);
      states_wrapped = λ a. (refl, refl);
      holds = tt;
    },
  )
  init-Linked (x ∷ xs) s n k l i j low p m e b le small (a, at, above, up)
        (((f, from), (t, to)), ends) (fit, fits) =
      let m1 = linked function m a x f t in
      let p1 = record p { fsm = some m1 } in
      let lt : j < n = omega arith in
      let b1 = (transition_add-linked function z s n k l i j m a x f t b lt small).1 in
      let (q, m', r) =
        init-Linked xs s n k l i (suc j) (suc a) p1 m1 refl b1 (omega arith) small up ends fits in
      let calls = CallsBack-linked m a x f t _ _ _ fit.2 (r.wrapped a (omega arith)) in
      (
        q,
        m',
        record {
          runs = (
            p1,
            step-init_transition s n k l i j p m a x f t e b lt small at from to fit,
            r.runs,
          );
          fsm = r.fsm;
          built = subst (λ y. IsBuilt z s n k l i y m') (omega arith) r.built;
          states = r.states;
          transits = r.transits;
          others = λ c lt'. r.others c (omega arith) ∙ update_below m.transits a c _ (omega arith);
          kept = r.kept;
          wrapped = λ c lt'.
              let w = linked_wrapped m a c x f t (omega arith) in
              let w' = r.wrapped c (omega arith) in (w'.0 ∙ w.0, w'.1 ∙ w.1, w'.2 ∙ w.2);
          states_wrapped = λ c.
              let w = linked_states m a c x f t in
              let w' = r.states_wrapped c in (w'.0 ∙ w.0, w'.1 ∙ w.1);
          holds = (
            (
              a,
              f,
              t,
              ap (λ g. g x.name) r.transits ∙ at,
              ap (λ g. g x.from) r.states ∙ from,
              ap (λ g. g x.to) r.states ∙ to,
              r.others a (omega arith) ∙ update_at m.transits a _,
              calls.0,
              calls.1,
              calls.2,
            ),
            r.holds,
          );
        },
      )
