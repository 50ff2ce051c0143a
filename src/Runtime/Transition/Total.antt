-- ===== src/Runtime/Transition/Total.antt =====
-- When a call of estate_machine_transition_do ends, with no NULL pointer used.
use estate.Base.{
  ℕ, zero, suc, ◌≡◌, ◌+◌, ◌≤◌, ◌<◌, refl, sym, ap, subst, ◌∙◌, ◌⊎◌, inl, inr, Bool, true, false,
  Option, some, List, [], ◌∷◌, Text, length, arith, Bool-cases, Option-cases,
}
use estate.Eina.{Eina}
use estate.Runtime.Callback.{Message, User}
use estate.Runtime.Callback.Frame.{LocksNothing, IsBudget}
use estate.Runtime.Outcome.{Outcome, returns, ◌>>=◌}
use estate.Runtime.Search.{Search, missing, found}
use estate.Runtime.Search.Complete.{IsTable, find_transition-entry}
use estate.Runtime.Types.{error_transition, Transition, State, Machine}
use estate.Runtime.Transition.{
  Run, same_ptr, drain, jump, fail, settle, attempt, carry, transition_do,
}
use estate.Runtime.Transition.Cross.{arrived, Crossed, arrived-Crossed, arrived-load, cross-arrived}
use estate.Runtime.Transition.Cases.{
  cleared, jump-returns, same_ptr-true, fail-lem, attempt-settle, transition_enter_idle,
}
use estate.Runtime.Transition.Walk.{IsIdle, transition_do-Walked}

-- A named transition leads somewhere.
abbrev pub HasEnds : (ℕ → Transition) → Type 0
HasEnds tr = (t : ℕ) (n : Text) → (tr t).name ≡ some n → (u : ℕ) × ((tr t).to ≡ some u)

module _ (E : Eina) where
  -- Each state has a whole table, and named transitions have ends.
  pub record IsWired (states : ℕ → State) (transits : ℕ → Transition) : Type 0 where
    pub table : (s : ℕ) → IsTable E transits (states s).transit
    pub whole : (s : ℕ) → (states s).transit_count ≡ length (states s).transit
    pub ends : HasEnds transits

  -- The machine is wired and stands at a state.
  abbrev pub IsLinked : Machine E.Hash → Type 0
  IsLinked m = IsWired m.states m.transits × ((s : ℕ) × (m.current_state ≡ some s))

module _ (E : Eina) (U : User E.Hash) (calm : LocksNothing E U) (rank : U.World → ℕ)
    (budget : IsBudget E U rank) where
  -- The call returns, within the budget, at some state.
  pub record Ends (x : Outcome (Run E U × Bool)) (r : Run E U) : Type 0 where
    pub last : Run E U
    pub result : Bool
    pub returned : x ≡ returns (last, result)
    pub spent : rank last.1 ≤ rank r.1
    pub linked : IsLinked E last.0

  abbrev pub EndsBelow : ℕ → (Run E U → Option Text → Outcome (Run E U × Bool)) → Type 0
  EndsBelow f again =
      (r : Run E U) (n : Option Text)
      → IsIdle E U calm r
      → IsLinked E r.0
      → rank r.1 < f
      → Ends (again r n) r

  abbrev pub KeepsIdle : (Run E U → Option Text → Outcome (Run E U × Bool)) → Type 0
  KeepsIdle again =
      (r r' : Run E U) (n : Option Text) (b : Bool)
      → IsIdle E U calm r
      → again r n ≡ returns (r', b)
      → IsIdle E U calm r'

  record Drains (x : Outcome (Run E U)) (r : Run E U) : Type 0 where
    last : Run E U
    returned : x ≡ returns last
    spent : rank last.1 ≤ rank r.1
    linked : IsLinked E last.0

  drain-Drains :
      (f : ℕ) (again : Run E U → Option Text → Outcome (Run E U × Bool)) (r : Run E U)
      (ns : List Text)
      → EndsBelow f again
      → KeepsIdle again
      → IsIdle E U calm r
      → IsLinked E r.0
      → rank r.1 + length ns ≤ f
      → Drains (drain E U again r ns) r
  unfolding drain
  drain-Drains f again r [] h k i l b = record {
    last = r;
    returned = refl;
    spent = omega arith;
    linked = l;
  }
  drain-Drains f again r (n ∷ ns) h k i l b =
      let e = h r (some n) i l (omega arith) in
      let j = k r e.last (some n) e.result i e.returned in
      let d = drain-Drains f again e.last ns h k j e.linked (omega (arith, e.spent)) in
      record {
        last = d.last;
        returned = ap (λ x. x >>= λ y. drain E U again y.0 ns) e.returned ∙ d.returned;
        spent = omega (arith, e.spent, d.spent);
        linked = d.linked;
      }

  Crossed-IsLinked :
      (r q : Run E U) (t u : ℕ)
      → Crossed E U calm r q t u
      → IsWired E r.0.states r.0.transits
      → IsLinked E (cleared E U calm q).0
  Crossed-IsLinked r q t u c w = (
    subst (λ s. IsWired E s q.0.transits) (sym c.states)
        (subst (λ tr. IsWired E r.0.states tr) (sym c.transits) w),
    (u, c.current_state),
  )

  jump-Ends :
      (f : ℕ) (again : Run E U → Option Text → Outcome (Run E U × Bool)) (r : Run E U) (s t u : ℕ)
      → EndsBelow f again
      → KeepsIdle again
      → IsIdle E U calm r
      → IsWired E r.0.states r.0.transits
      → rank r.1 ≤ f
      → (r.0.transits t).from ≡ some s
      → (r.0.transits t).to ≡ some u
      → Ends (jump E U again r t) r
  jump-Ends f again r s t u h k i w b from to =
      let q = arrived E U calm r s t u in
      let c = arrived-Crossed E U calm r s t u i.in_cb in
      let spent = arrived-load E U calm rank r s t u budget in
      let none_left : length r.0.cb_defer ≡ 0 = ap length i.settled in
      let d =
        drain-Drains f again (cleared E U calm q) q.0.cb_defer h k
          (record { in_cb = c.in_cb; settled = refl }) (Crossed-IsLinked r q t u c w)
          (omega (arith, spent, none_left, b)) in
      record {
        last = d.last;
        result = true;
        returned =
            jump-returns E U calm again r q d.last t
              (cross-arrived E U calm r s t u i.in_cb from to) d.returned;
        spent = omega (arith, d.spent, spent, none_left);
        linked = d.linked;
      }

  fail-rank : (r : Run E U) (n : Text) (msg : Message) → rank (fail E U r n msg).0.1 ≤ rank r.1
  unfolding fail
  fail-rank (m, w) n msg = elim (Option-cases m.error_cb) [
    | inl e ↦ rw (e, fail) (omega arith)
    | inr (func, e) ↦ rw (e, fail) (budget.on_error m w func error_transition n msg)
  ]

  pub transition_do-KeepsIdle : (f : ℕ) → KeepsIdle (transition_do E U f)
  transition_do-KeepsIdle f r r' n b i e =
      let w = transition_do-Walked E U calm f r r' n b i e in
      record { in_cb = w.in_cb; settled = w.settled }

  fail-Ends :
      (r : Run E U) (n : Text) (msg : Message)
      → IsLinked E r.0
      → Ends (returns (fail E U r n msg)) r
  fail-Ends r n msg l = record {
    last = (fail E U r n msg).0;
    result = (fail E U r n msg).1;
    returned = refl;
    spent = fail-rank r n msg;
    linked = subst (IsLinked E) (sym (fail-lem E U calm r n msg).0) l;
  }

  -- Such a jump does not only return, but returns success.
  pub jump-succeeds :
      (f : ℕ) (again : Run E U → Option Text → Outcome (Run E U × Bool)) (r : Run E U) (s t u : ℕ)
      → EndsBelow f again
      → KeepsIdle again
      → IsIdle E U calm r
      → IsWired E r.0.states r.0.transits
      → rank r.1 ≤ f
      → (r.0.transits t).from ≡ some s
      → (r.0.transits t).to ≡ some u
      → (p : Run E U) × (jump E U again r t ≡ returns (p, true))
  unfolding jump-Ends
  jump-succeeds f again r s t u h k i w b from to =
      let e = jump-Ends f again r s t u h k i w b from to in (e.last, e.returned)

  settle-Ends :
      (f : ℕ) (again : Run E U → Option Text → Outcome (Run E U × Bool)) (r : Run E U) (n : Text)
      (s : ℕ) (x : Search (Option ℕ))
      → EndsBelow f again
      → KeepsIdle again
      → IsIdle E U calm r
      → IsWired E r.0.states r.0.transits
      → r.0.current_state ≡ some s
      → rank r.1 ≤ f
      → (x ≡ missing)
        ⊎ ((t : ℕ) × (m : Text) × (x ≡ found (some t)) × ((r.0.transits t).name ≡ some m))
      → Ends (settle E U again r n s x) r
  unfolding settle
  settle-Ends f again r n s x h k i w at b (inl e) = rw e (fail-Ends r n _ (w, (s, at)))
  settle-Ends f again r n s x h k i w at b (inr (t, m, e, named)) =
      elim (Bool-cases (same_ptr (r.0.transits t).from r.0.current_state)) [
        | inl same ↦
            let (u, to) = w.ends t m named in
            let from = same_ptr-true E U calm _ _ same in
            rw e (rw same (jump-Ends f again r s t u h k i w b (from ∙ at) to))
        | inr other ↦ rw e (rw other (fail-Ends r n _ (w, (s, at))))
      ]

  attempt-Ends :
      (f : ℕ) (again : Run E U → Option Text → Outcome (Run E U × Bool)) (r : Run E U) (n : Text)
      → EndsBelow f again
      → KeepsIdle again
      → IsIdle E U calm r
      → IsLinked E r.0
      → rank r.1 ≤ f
      → Ends (attempt E U again r n) r
  attempt-Ends f again r n h k i (w, (s, at)) b =
      subst (λ x. Ends x r) (sym (attempt-settle E U calm again r n s at))
        (settle-Ends f again r n s _ h k i w at b
          (find_transition-entry E r.0.transits n (r.0.states s) (w.table s) (w.whole s)))

  -- On a linked machine, outside of any callback and with nothing pending, where `rank` bounds what
  -- the user's functions still ask for, and none of them calls estate_machine_lock, a call with more fuel than that returns: it uses no NULL
  -- pointer, the deferred transitions come to an end, and the machine is linked again.
  pub transition_do-Ends :
      (fuel : ℕ) (r : Run E U) (n : Option Text)
      → IsIdle E U calm r
      → IsLinked E r.0
      → rank r.1 < fuel
      → Ends (transition_do E U fuel r n) r
  unfolding transition_do carry
  transition_do-Ends zero r n i l b = absurd (omega arith)
  transition_do-Ends (suc f) r n i l b =
      let keeps : KeepsIdle (transition_do E U f) = transition_do-KeepsIdle f in
      let h : EndsBelow f (transition_do E U f) = transition_do-Ends f in
      elim (transition_enter_idle E U calm r.0 n i.in_cb) [
        | inl q ↦
            rw q (record {
              last = r;
              result = false;
              returned = refl;
              spent = omega arith;
              linked = l;
            })
        | inr (name, _, q) ↦
            rw q (attempt-Ends f (transition_do E U f) r name h keeps i l (omega arith))
      ]
