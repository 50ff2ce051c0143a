-- ===== src/Runtime/Transition/Walk.antt =====
-- Whatever the callbacks do, a machine only moves along its transitions.
use estate.Base.{
  ℕ, zero, suc, ◌≡◌, refl, sym, ap, subst, ◌∙◌, inl, inr, Bool, true, Option, some, List, [], ◌∷◌,
  Text,
}
use estate.Runtime.Callback.Frame.{LocksNothing}
use estate.Eina.{Eina}
use estate.Runtime.Callback.{User}
use estate.Runtime.Outcome.{Outcome, returns, bind-eq-returns}
use estate.Runtime.Types.{cb_unlocked, Transition}
use estate.Runtime.Transition.{Run, drain, jump, transition_do}
use estate.Runtime.Transition.Cross.{Crossed, arrived-Crossed, cross-cases}
use estate.Runtime.Transition.Cases.{
  cleared, jump-cases, Attempted, failed, jumped, transition_do-cases,
}

-- The abstract machine: states, and the transitions between them.
pub data Edge (tr : ℕ → Transition) (s u : Option ℕ) : Type 0 where
  edge : (t : ℕ) → (tr t).from ≡ s → (tr t).to ≡ u → Edge tr s u

pub data Walk (tr : ℕ → Transition) (s : Option ℕ) : Option ℕ → Type 0 where
  here : Walk tr s s
  step : {u v : Option ℕ} → Walk tr s u → Edge tr u v → Walk tr s v

pub Walk-append : {tr : ℕ → Transition} {s u v : Option ℕ} → Walk tr s u → Walk tr u v → Walk tr s v
Walk-append p here = p
Walk-append p (step q e) = step (Walk-append p q) e

module _ (E : Eina) (U : User E.Hash) (calm : LocksNothing E U) where
  -- The structure of the machine is as it was, no callback runs, nothing is pending, and the
  -- current state was reached along transitions.
  pub record Walked (r r' : Run E U) : Type 0 where
    pub states : r'.0.states ≡ r.0.states
    pub transits : r'.0.transits ≡ r.0.transits
    pub locked : r'.0.locked ≡ r.0.locked
    pub in_cb : r'.0.in_cb ≡ cb_unlocked
    pub settled : r'.0.cb_defer ≡ []
    pub walk : Walk r.0.transits r.0.current_state r'.0.current_state

  -- Outside of any callback, with nothing pending.
  pub record IsIdle (r : Run E U) : Type 0 where
    pub in_cb : r.0.in_cb ≡ cb_unlocked
    pub settled : r.0.cb_defer ≡ []

  Walked-refl : (r : Run E U) → IsIdle r → Walked r r
  Walked-refl r i = record {
    states = refl;
    transits = refl;
    locked = refl;
    in_cb = i.in_cb;
    settled = i.settled;
    walk = here;
  }

  Walked-trans : (r s t : Run E U) → Walked r s → Walked s t → Walked r t
  Walked-trans r s t f g = record {
    states = g.states ∙ f.states;
    transits = g.transits ∙ f.transits;
    locked = g.locked ∙ f.locked;
    in_cb = g.in_cb;
    settled = g.settled;
    walk = Walk-append f.walk (rw f.transits at g.walk);
  }

  -- What a call of transition_do guarantees where it returns.
  abbrev pub Keeps : (Run E U → Option Text → Outcome (Run E U × Bool)) → Type 0
  Keeps again =
      (r r' : Run E U) (n : Option Text) (b : Bool)
      → IsIdle r
      → again r n ≡ returns (r', b)
      → Walked r r'

  drain-Walked :
      (again : Run E U → Option Text → Outcome (Run E U × Bool)) (r r' : Run E U) (ns : List Text)
      → Keeps again
      → IsIdle r
      → drain E U again r ns ≡ returns r'
      → Walked r r'
  unfolding drain
  drain-Walked again r r' [] k i e = let q : r ≡ r' = cc in subst (Walked r) q (Walked-refl r i)
  drain-Walked again r r' (n ∷ ns) k i e =
      let ((q, b), e1, e2) = bind-eq-returns (again r (some n)) _ e in
      let w = k r q (some n) b i e1 in
      Walked-trans r q r' w
        (drain-Walked again q r' ns k (record { in_cb = w.in_cb; settled = w.settled }) e2)

  -- A jump along `t` first goes to the end of `t`.
  pub record Jumped (r r' : Run E U) (t : ℕ) (b : Bool) : Type 0 where
    pub walked : Walked r r'
    pub onward : Walk r.0.transits (r.0.transits t).to r'.0.current_state
    pub succeeds : b ≡ true

  drained-Jumped :
      (r q r' : Run E U) (t u : ℕ)
      → (r.0.transits t).from ≡ r.0.current_state
      → (r.0.transits t).to ≡ some u
      → Crossed E U calm r q t u
      → Walked (cleared E U calm q) r'
      → Jumped r r' t true
  drained-Jumped r q r' t u from to c w =
      let onward : Walk r.0.transits (r.0.transits t).to r'.0.current_state =
        subst (λ a. Walk r.0.transits a r'.0.current_state) (c.current_state ∙ sym to)
          (subst (λ a. Walk a q.0.current_state r'.0.current_state) c.transits w.walk) in
      record {
        walked = record {
          states = w.states ∙ c.states;
          transits = w.transits ∙ c.transits;
          locked = w.locked ∙ c.locked;
          in_cb = w.in_cb;
          settled = w.settled;
          walk = Walk-append (step here (edge t from refl)) onward;
        };
        onward = onward;
        succeeds = refl;
      }

  pub jump-Jumped :
      (again : Run E U → Option Text → Outcome (Run E U × Bool)) (r r' : Run E U) (t : ℕ) (b : Bool)
      → Keeps again
      → IsIdle r
      → (r.0.transits t).from ≡ r.0.current_state
      → jump E U again r t ≡ returns (r', b)
      → Jumped r r' t b
  jump-Jumped again r r' t b k i from e =
      let (q, e1, e2, e3) = jump-cases E U calm again r r' t b e in
      let (s, u, _, to, arrives) = cross-cases E U calm r q t i.in_cb e1 in
      let c : Crossed E U calm r q t u =
        subst (λ p. Crossed E U calm r p t u) (sym arrives)
          (arrived-Crossed E U calm r s t u i.in_cb) in
      let w : Walked (cleared E U calm q) r' =
        drain-Walked again (cleared E U calm q) r' q.0.cb_defer k
          (record { in_cb = c.in_cb; settled = refl }) e2 in
      subst (Jumped r r' t) (sym e3) (drained-Jumped r q r' t u from to c w)

  Attempted-Walked :
      (again : Run E U → Option Text → Outcome (Run E U × Bool)) (r r' : Run E U) (n : Text)
      (b : Bool)
      → Keeps again
      → IsIdle r
      → Attempted E U calm again r r' n b
      → Walked r r'
  Attempted-Walked again r r' n b k i (failed same _) = record {
    states = ap (λ m. m.states) same;
    transits = ap (λ m. m.transits) same;
    locked = ap (λ m. m.locked) same;
    in_cb = ap (λ m. m.in_cb) same ∙ i.in_cb;
    settled = ap (λ m. m.cb_defer) same ∙ i.settled;
    walk = subst (Walk r.0.transits r.0.current_state) (ap (λ m. m.current_state) (sym same)) here;
  }
  Attempted-Walked again r r' n b k i (jumped s t _ _ from e) =
      (jump-Jumped again r r' t b k i from e).walked

  pub transition_do-Walked :
      (fuel : ℕ) (r r' : Run E U) (n : Option Text) (b : Bool)
      → IsIdle r
      → transition_do E U fuel r n ≡ returns (r', b)
      → Walked r r'
  unfolding transition_do
  transition_do-Walked zero r r' n b i e = cc
  transition_do-Walked (suc f) r r' n b i e =
      let k : Keeps (transition_do E U f) = transition_do-Walked f in
      elim (transition_do-cases E U calm f r r' n b i.in_cb e) [
        | inl (same, _) ↦ subst (Walked r) (sym same) (Walked-refl r i)
        | inr (name, _, a) ↦ Attempted-Walked (transition_do E U f) r r' name b k i a
      ]
