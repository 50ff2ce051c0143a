-- ===== src/Compiler/OutGc/Fill/States.antt =====
-- The calls that fill in the states run to their end in the code from src/bin/estate_cc_out_gc.c.
use estate.Base.{
  All, ℕ, suc, ◌+◌, ◌^◌, ◌≡◌, ◌<◌, ◌≤◌, inl, inr, refl, sym, subst, ap, ◌∙◌, Bool, Option, some,
  List, [], ◌∷◌, Text, length, arith,
}
use estate.Eina.{Eina}
use estate.Compiler.OutGc.{init_state}
use estate.Compiler.OutGc.Exec.{Program, addresses, step, add_state, checked, Runs}
use estate.Compiler.OutGc.Alloc.{IsBuilt, Ascending, update_at, update_below}
use estate.Runtime.Types.{CbWrapper, state_enterer, state_exiter, Machine}
use estate.Runtime.Mempool.{Sizes}
use estate.Runtime.Outcome.{returns}
use estate.Compiler.OutGc.Fill.{
  FitsKey, ctor-fits, length-addresses, copied-addresses, StatePlan, init_states, state_names,
  StatesHold, CallsBack, filled, state_init-filled, state_add-filled,
}

module _ (z : Sizes) (E : Eina) (malloc : ℕ → Option ℕ) (calloc : ℕ → Bool)
    (function : Text → ℕ) where
  step-init_state :
      (s t k l i j : ℕ) (p : Program E.Hash) (m : Machine E.Hash) (a : ℕ) (x : StatePlan)
      → p.fsm ≡ some m
      → IsBuilt z s t k l i j m
      → i < s
      → s < 2 ^ 32
      → p.states x.name ≡ some a
      → (m.states a).transit_count ≡ length x.trs
      → FitsKey x.enterer.value
      → FitsKey x.exiter.value
      → step z E malloc calloc function p (init_state x.name x.trs x.enterer x.exiter)
        ≡ returns
            (some (record p { fsm = some (filled function m a x (addresses p.transits x.trs)) }))
  unfolding step add_state checked
  step-init_state s t k l i j p m a x e b lt le at count fe fx =
      let new = addresses p.transits x.trs in
      let same = length-addresses p.transits x.trs in
      let inits = state_init-filled function m a x new (count ∙ sym same) in
      let adds = (state_add-filled function z s t k l i j m a x new b lt le).0 in
      rw (e, step)
        (rw (ctor-fits function x.enterer fe, step)
          (rw (ctor-fits function x.exiter fx, step)
            (rw (at, step)
              (rw (← same) (
                rw (inits, step)
                  (rw (at, add_state)
                    (ap (checked z E malloc calloc function (record p { fsm = some m })) adds)))))))

  -- The states of `xs` have been filled in.
  pub record Filled (s t k l i j low : ℕ) (p q : Program E.Hash) (m m' : Machine E.Hash)
      (xs : List StatePlan) : Type 0 where
    pub runs : Runs z E malloc calloc function p (init_states xs) q
    pub fsm : q.fsm ≡ some m'
    pub built : IsBuilt z s t k l (i + length xs) j m'
    pub states : q.states ≡ p.states
    pub transits : q.transits ≡ p.transits
    pub others : (a : ℕ) → a < low → m'.states a ≡ m.states a
    pub kept : m'.transits ≡ m.transits
    pub wrapped :
        (a : ℕ)
        → a < low
        → (m'.wrappers (state_enterer a) ≡ m.wrappers (state_enterer a))
          × (m'.wrappers (state_exiter a) ≡ m.wrappers (state_exiter a))
    pub holds : StatesHold function q.states q.transits m'.states m'.wrappers xs

  -- Each state has room for as many transitions as the plan gives it.
  abbrev pub HasRoom : Program E.Hash → Machine E.Hash → List StatePlan → Type 0
  HasRoom p m xs =
      All (λ x. (a : ℕ) × (p.states x.name ≡ some a) × ((m.states a).transit_count ≡ length x.trs))
        xs

  abbrev pub Fit : List StatePlan → Type 0
  Fit xs = All (λ x. FitsKey x.enterer.value × FitsKey x.exiter.value) xs

  filled_keeps :
      (m : Machine E.Hash) (a b : ℕ) (x : StatePlan) (new : List (Option ℕ))
      → ((filled function m a x new).states b).transit_count ≡ (m.states b).transit_count
  filled_keeps m a b x new = ground arith

  filled_wrapped :
      (m : Machine E.Hash) (a b : ℕ) (x : StatePlan) (new : List (Option ℕ))
      → b < a
      → ((filled function m a x new).wrappers (state_enterer b) ≡ m.wrappers (state_enterer b))
        × ((filled function m a x new).wrappers (state_exiter b) ≡ m.wrappers (state_exiter b))
  filled_wrapped m a b x new lt = ground arith

  CallsBack-filled :
      (m : Machine E.Hash) (a : ℕ) (x : StatePlan) (new : List (Option ℕ)) (we wx : CbWrapper)
      → (we ≡ (filled function m a x new).wrappers (state_enterer a))
        × (wx ≡ (filled function m a x new).wrappers (state_exiter a))
      → CallsBack function we x.enterer × CallsBack function wx x.exiter
  CallsBack-filled m a x new we wx (p, q) = (
    (ap (λ w. w.func) p ∙ ground arith, ap (λ w. w.key) p ∙ ground arith),
    (ap (λ w. w.func) q ∙ ground arith, ap (λ w. w.key) q ∙ ground arith),
  )

  HasRoom-filled :
      (p : Program E.Hash) (m : Machine E.Hash) (a : ℕ) (y : StatePlan) (new : List (Option ℕ))
      (xs : List StatePlan)
      → HasRoom p m xs
      → HasRoom (record p { fsm = some (filled function m a y new) }) (filled function m a y new) xs
  HasRoom-filled p m a y new [] h = tt
  HasRoom-filled p m a y new (x ∷ xs) ((b, e, c), h) =
      ((b, e, filled_keeps m a b y new ∙ c), HasRoom-filled p m a y new xs h)

  pub init-Filled :
      (xs : List StatePlan) (s t k l i j low : ℕ) (p : Program E.Hash) (m : Machine E.Hash)
      → p.fsm ≡ some m
      → IsBuilt z s t k l i j m
      → i + length xs ≤ s
      → s < 2 ^ 32
      → Ascending low p.states (state_names xs)
      → HasRoom p m xs
      → Fit xs
      → (q : Program E.Hash) × (m' : Machine E.Hash) × Filled s t k l i j low p q m m' xs
  init-Filled [] s t k l i j low p m e b le small up room fit = (
    p,
    m,
    record {
      runs = refl;
      fsm = e;
      built = subst (λ x. IsBuilt z s t k l x j m) (omega arith) b;
      states = refl;
      transits = refl;
      others = λ a lt. refl;
      kept = refl;
      wrapped = λ a lt. (refl, refl);
      holds = tt;
    },
  )
  init-Filled (x ∷ xs) s t k l i j low p m e b le small (a, at, above, up) ((a', at', count), room)
        (fit, fits) =
      let new = addresses p.transits x.trs in
      let m1 = filled function m a x new in
      let p1 = record p { fsm = some m1 } in
      let lt : i < s = omega arith in
      let same : a' ≡ a = cc in
      let counted : (m.states a).transit_count ≡ length x.trs =
        subst (λ y. (m.states y).transit_count ≡ length x.trs) same count in
      let b1 = (state_add-filled function z s t k l i j m a x new b lt small).1 in
      let (q, m', r) =
        init-Filled xs s t k l (suc i) j (suc a) p1 m1 refl b1 (omega arith) small up
          (HasRoom-filled p m a x new xs room) fits in
      let calls = CallsBack-filled m a x new _ _ (r.wrapped a (omega arith)) in
      let here : m'.states a ≡ m1.states a = r.others a (omega arith) in
      (
        q,
        m',
        record {
          runs =
              (p1, step-init_state s t k l i j p m a x e b lt small at counted fit.0 fit.1, r.runs);
          fsm = r.fsm;
          built = subst (λ y. IsBuilt z s t k l y j m') (omega arith) r.built;
          states = r.states;
          transits = r.transits;
          others = λ c lt'. r.others c (omega arith) ∙ update_below m.states a c _ (omega arith);
          kept = r.kept;
          wrapped = λ c lt'.
              let w = filled_wrapped m a c x new (omega arith) in
              let w' = r.wrapped c (omega arith) in (w'.0 ∙ w.0, w'.1 ∙ w.1);
          holds = (
            (
              a,
              ap (λ f. f x.name) r.states ∙ at,
              ap (λ y. y.name) here ∙ ap (λ y. y.name) (update_at m.states a _),
              elim (copied-addresses p.transits (m.states a).transit x.trs) [
                | inl c ↦ inl (
                    ap (λ y. y.transit) here
                    ∙ ap (λ y. y.transit) (update_at m.states a _)
                    ∙ c
                    ∙ ap (λ f. addresses f x.trs) (sym r.transits))
                | inr c ↦ inr c
              ],
              calls.0,
              calls.1,
            ),
            r.holds,
          );
        },
      )
