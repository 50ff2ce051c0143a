-- ===== src/Runtime/Transition/Cases.antt =====
-- How a call of estate_machine_transition_do went, from what it returned.
use estate.Base.{
  ℕ, suc, ◌≡◌, refl, sym, ap, ◌∙◌, ◌⊎◌, inl, inr, Bool, true, false, Option, none, some, [], Text,
  arith, Option-cases, Bool-cases,
}
use estate.Runtime.Callback.Frame.{LocksNothing}
use estate.Eina.{Eina}
use estate.Runtime.Callback.{Message, User, refused, proceeds, transition_enter}
use estate.Runtime.Outcome.{Outcome, returns, faults, bind-eq-returns, deref, ◌>>=◌}
use estate.Runtime.Search.{missing, fault, found, find_transition, Search}
use estate.Runtime.Types.{cb_unlocked, Machine}
use estate.Runtime.Transition.{
  Run, same_ptr, cross, drain, jump, fail, settle, attempt, carry, transition_do,
}

module _ (E : Eina) (U : User E.Hash) (calm : LocksNothing E U) where
  -- The run with the pending transitions taken away.
  abbrev pub cleared : Run E U → Run E U
  cleared (m, w) = (record m { cb_defer = [] }, w)

  pub jump-cases :
      (again : Run E U → Option Text → Outcome (Run E U × Bool)) (r r' : Run E U) (t : ℕ) (b : Bool)
      → jump E U again r t ≡ returns (r', b)
      → (q : Run E U) × (cross E U r t ≡ returns q)
        × (drain E U again (cleared q) q.0.cb_defer ≡ returns r')
        × (b ≡ true)
  unfolding jump
  jump-cases again r r' t b e =
      let (q, e1, e2) = bind-eq-returns (cross E U r t) _ e in
      let (p, e3, e4) = bind-eq-returns (drain E U again (cleared q) q.0.cb_defer) _ e2 in
      (q, e1, e3 ∙ cc e4, cc e4)

  pub jump-returns :
      (again : Run E U → Option Text → Outcome (Run E U × Bool)) (r q p : Run E U) (t : ℕ)
      → cross E U r t ≡ returns q
      → drain E U again (cleared q) q.0.cb_defer ≡ returns p
      → jump E U again r t ≡ returns (p, true)
  unfolding jump
  jump-returns again r q p t e1 e2 =
      ap (λ x. x >>= λ y. (drain E U again (cleared y) y.0.cb_defer >>= λ z. returns (z, true))) e1
      ∙ ap (λ x. x >>= λ z. returns (z, true)) e2

  pub same_ptr-true : (a b : Option ℕ) → same_ptr a b ≡ true → a ≡ b
  same_ptr-true none none h = refl
  same_ptr-true none (some b) h = cc
  same_ptr-true (some a) none h = cc
  same_ptr-true (some a) (some b) h = ground arith

  -- How an attempt that returns went: it failed and changed nothing in the machine, or it jumped
  -- along the transition that the search had found.
  pub data Attempted (again : Run E U → Option Text → Outcome (Run E U × Bool)) (r r' : Run E U)
      (n : Text) (b : Bool) : Type 0 where
    failed : r'.0 ≡ r.0 → b ≡ false → Attempted again r r' n b
    jumped :
        (s t : ℕ)
        → r.0.current_state ≡ some s
        → find_transition E r.0.transits n (r.0.states s) ≡ found (some t)
        → (r.0.transits t).from ≡ r.0.current_state
        → jump E U again r t ≡ returns (r', b)
        → Attempted again r r' n b

  pub fail-lem :
      (r : Run E U) (n : Text) (msg : Message)
      → ((fail E U r n msg).0.0 ≡ r.0) × ((fail E U r n msg).1 ≡ false)
  unfolding fail
  fail-lem (m, w) n msg = ground arith

  fail-Attempted :
      (again : Run E U → Option Text → Outcome (Run E U × Bool)) (r r' : Run E U) (n : Text)
      (b : Bool) (msg : Message)
      → returns (fail E U r n msg) ≡ returns (r', b)
      → Attempted again r r' n b
  fail-Attempted again r r' n b msg e =
      let (same, done) = fail-lem r n msg in
      let q : fail E U r n msg ≡ (r', b) = cc in
      failed (ap (λ x. x.0.0) (sym q) ∙ same) (ap (λ x. x.1) (sym q) ∙ done)

  settle-Attempted :
      (again : Run E U → Option Text → Outcome (Run E U × Bool)) (r r' : Run E U) (n : Text)
      (b : Bool) (s : ℕ) (x : Search (Option ℕ))
      → r.0.current_state ≡ some s
      → find_transition E r.0.transits n (r.0.states s) ≡ x
      → settle E U again r n s x ≡ returns (r', b)
      → Attempted again r r' n b
  unfolding settle
  settle-Attempted again r r' n b s fault at f e = cc
  settle-Attempted again r r' n b s missing at f e = fail-Attempted again r r' n b _ e
  settle-Attempted again r r' n b s (found none) at f e = fail-Attempted again r r' n b _ e
  settle-Attempted again r r' n b s (found (some t)) at f e =
      elim (Bool-cases (same_ptr (r.0.transits t).from r.0.current_state)) [
        | inl same ↦ jumped s t at f (same_ptr-true _ _ same) (rw same at e)
        | inr other ↦ fail-Attempted again r r' n b _ (rw other at e)
      ]

  -- An attempt at a current state is what follows the search there.
  pub attempt-settle :
      (again : Run E U → Option Text → Outcome (Run E U × Bool)) (r : Run E U) (n : Text) (s : ℕ)
      → r.0.current_state ≡ some s
      → attempt E U again r n
        ≡ settle E U again r n s (find_transition E r.0.transits n (r.0.states s))
  unfolding attempt
  attempt-settle again r n s at =
      ap
        (λ o. deref o >>= λ s'.
          settle E U again r n s' (find_transition E r.0.transits n (r.0.states s')))
        at

  attempt_nowhere :
      (again : Run E U → Option Text → Outcome (Run E U × Bool)) (r : Run E U) (n : Text)
      → r.0.current_state ≡ none
      → attempt E U again r n ≡ faults
  unfolding attempt
  attempt_nowhere again r n at =
      ap
        (λ o. deref o >>= λ s'.
          settle E U again r n s' (find_transition E r.0.transits n (r.0.states s')))
        at

  attempt-Attempted :
      (again : Run E U → Option Text → Outcome (Run E U × Bool)) (r r' : Run E U) (n : Text)
      (b : Bool)
      → attempt E U again r n ≡ returns (r', b)
      → Attempted again r r' n b
  attempt-Attempted again r r' n b e = elim (Option-cases r.0.current_state) [
    | inl q ↦ cc (e, attempt_nowhere again r n q)
    | inr (s, q) ↦
        settle-Attempted again r r' n b s _ q refl (sym (attempt-settle again r n s q) ∙ e)
  ]

  -- Outside of any callback a name passes the guards exactly on a locked machine.
  pub transition_enter_idle :
      (m : Machine E.Hash) (n : Option Text)
      → m.in_cb ≡ cb_unlocked
      → (transition_enter m n ≡ refused)
        ⊎ ((name : Text) × (n ≡ some name) × (transition_enter m n ≡ proceeds name))
  unfolding transition_enter
  transition_enter_idle m none i = inl refl
  transition_enter_idle m (some name) i = elim (Bool-cases m.locked) [
    | inl lock ↦ inr (name, refl, ground arith)
    | inr lock ↦ inl (ground arith)
  ]

  pub transition_enter_locked :
      (m : Machine E.Hash) (n : Text)
      → m.in_cb ≡ cb_unlocked
      → m.locked ≡ true
      → transition_enter m (some n) ≡ proceeds n
  unfolding transition_enter
  transition_enter_locked m n i lock = ground arith

  pub same_ptr_eq : (a b : Option ℕ) → a ≡ b → same_ptr a b ≡ true
  same_ptr_eq none none h = refl
  same_ptr_eq none (some b) h = cc
  same_ptr_eq (some a) none h = cc
  same_ptr_eq (some a) (some b) h = ground arith

  -- How a call outside of a callback went.
  pub transition_do-cases :
      (f : ℕ) (r r' : Run E U) (n : Option Text) (b : Bool)
      → r.0.in_cb ≡ cb_unlocked
      → transition_do E U (suc f) r n ≡ returns (r', b)
      → ((r' ≡ r) × (b ≡ false))
        ⊎ ((name : Text) × (n ≡ some name) × Attempted (transition_do E U f) r r' name b)
  unfolding transition_do carry
  transition_do-cases f r r' n b i e = elim (transition_enter_idle r.0 n i) [
    | inl q ↦
        let same : returns (r, false) ≡ returns (r', b) =
          ap (carry E U (transition_do E U f) r) (sym q) ∙ e in
        inl (cc same, cc same)
    | inr (name, en, q) ↦ inr (
      name,
      en,
      attempt-Attempted (transition_do E U f) r r' name b
          (ap (carry E U (transition_do E U f) r) (sym q) ∙ e),
    )
  ]
