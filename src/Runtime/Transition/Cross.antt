-- ===== src/Runtime/Transition/Cross.antt =====
-- One transition of estate_machine_transition_do, with the callbacks around it.
use estate.Base.{ℕ, ◌≡◌, ap, ◌∙◌, ◌≤◌, inl, inr, none, some, arith, Option-cases}
use estate.Eina.{Eina}
use estate.Runtime.Callback.{User, cb_call}
use estate.Runtime.Callback.Frame.{
  LocksNothing, Frame-trans, IsBudget, load, Called, cb_call-Called, cb_call-load,
}
use estate.Runtime.Outcome.{returns, faults}
use estate.Runtime.Types.{
  enterer, exiter, transition, cb_unlocked, state_enterer, state_exiter, transition_cb,
}
use estate.Runtime.Transition.{Run, cross}

module _ (E : Eina) (U : User E.Hash) (calm : LocksNothing E U) where
  -- The run after the exiter, after the transition's callback, and after the enterer.
  abbrev pub left : Run E U → ℕ → ℕ → Run E U
  left (m, w) s t =
      cb_call E U (record m { current_transition = some t }, w) (state_exiter s) exiter t

  abbrev pub passed : Run E U → ℕ → ℕ → Run E U
  passed r s t = cb_call E U (left r s t) (transition_cb t) transition t

  abbrev pub moved : Run E U → ℕ → Run E U
  moved (m, w) u = (record m { current_state = some u }, w)

  abbrev pub arrived : Run E U → ℕ → ℕ → ℕ → Run E U
  arrived r s t u = cb_call E U (moved (passed r s t) u) (state_enterer u) enterer t

  passed-Called :
      (r : Run E U) (s t : ℕ)
      → r.0.in_cb ≡ cb_unlocked
      → Called E U (record (r.0) { current_transition = some t }, r.1) (passed r s t)
  passed-Called (m, w) s t h =
      let m0 = record m { current_transition = some t } in
      let a = cb_call-Called E U calm m0 w (state_exiter s) exiter t h in
      let l = left (m, w) s t in
      let b = cb_call-Called E U calm l.0 l.1 (transition_cb t) transition t a.in_cb in
      record { frame = Frame-trans m0 l.0 _ a.frame b.frame; in_cb = b.in_cb }

  -- What a crossing has done to the machine.
  pub record Crossed (r r' : Run E U) (t u : ℕ) : Type 0 where
    pub states : r'.0.states ≡ r.0.states
    pub transits : r'.0.transits ≡ r.0.transits
    pub locked : r'.0.locked ≡ r.0.locked
    pub mempool : r'.0.mempool ≡ r.0.mempool
    pub current_state : r'.0.current_state ≡ some u
    pub current_transition : r'.0.current_transition ≡ some t
    pub in_cb : r'.0.in_cb ≡ cb_unlocked

  pub arrived-Crossed :
      (r : Run E U) (s t u : ℕ) → r.0.in_cb ≡ cb_unlocked → Crossed r (arrived r s t u) t u
  arrived-Crossed r s t u h =
      let p = passed-Called r s t h in
      let q = moved (passed r s t) u in
      let c = cb_call-Called E U calm q.0 q.1 (state_enterer u) enterer t p.in_cb in
      record {
        states = c.frame.states ∙ p.frame.states;
        transits = c.frame.transits ∙ p.frame.transits;
        locked = c.frame.locked ∙ p.frame.locked;
        mempool = c.frame.mempool ∙ p.frame.mempool;
        current_state = c.frame.current_state;
        current_transition = c.frame.current_transition ∙ p.frame.current_transition;
        in_cb = c.in_cb;
      }

  pub arrived-load :
      (rank : U.World → ℕ) (r : Run E U) (s t u : ℕ)
      → IsBudget E U rank
      → load E U rank (arrived r s t u) ≤ load E U rank r
  arrived-load rank (m, w) s t u b =
      let l = left (m, w) s t in
      let q = moved (passed (m, w) s t) u in
      omega (
        arith,
        cb_call-load E U rank (record m { current_transition = some t }) w (state_exiter s) exiter t
            b,
        cb_call-load E U rank l.0 l.1 (transition_cb t) transition t b,
        cb_call-load E U rank q.0 q.1 (state_enterer u) enterer t b,
      )

  -- A transition with both its ends crosses.
  pub cross-arrived :
      (r : Run E U) (s t u : ℕ)
      → r.0.in_cb ≡ cb_unlocked
      → (r.0.transits t).from ≡ some s
      → (r.0.transits t).to ≡ some u
      → cross E U r t ≡ returns (arrived r s t u)
  unfolding cross
  cross-arrived (m, w) s t u h from to =
      rw from (rw (ap (λ tr. (tr t).to) (passed-Called (m, w) s t h).frame.transits ∙ to))

  -- A transition without a start or without an end uses a NULL pointer.
  cross-faults_from : (r : Run E U) (t : ℕ) → (r.0.transits t).from ≡ none → cross E U r t ≡ faults
  unfolding cross
  cross-faults_from (m, w) t from = rw from

  cross-faults_to :
      (r : Run E U) (s t : ℕ)
      → r.0.in_cb ≡ cb_unlocked
      → (r.0.transits t).from ≡ some s
      → (r.0.transits t).to ≡ none
      → cross E U r t ≡ faults
  unfolding cross
  cross-faults_to (m, w) s t h from to =
      rw from (rw (ap (λ tr. (tr t).to) (passed-Called (m, w) s t h).frame.transits ∙ to))

  -- A crossing that returns had both its ends.
  pub cross-cases :
      (r r' : Run E U) (t : ℕ)
      → r.0.in_cb ≡ cb_unlocked
      → cross E U r t ≡ returns r'
      → (s : ℕ) × (u : ℕ) × ((r.0.transits t).from ≡ some s)
        × ((r.0.transits t).to ≡ some u)
        × (r' ≡ arrived r s t u)
  cross-cases r r' t h e = elim (Option-cases (r.0.transits t).from) [
    | inl q ↦ cc (e, cross-faults_from r t q)
    | inr (s, q) ↦ elim (Option-cases (r.0.transits t).to) [
      | inl v ↦ cc (e, cross-faults_to r s t h q v)
      | inr (u, v) ↦ (s, u, q, v, cc (e, cross-arrived r s t u h q v))
    ]
  ]
