-- ===== src/Runtime/Transition/Reach.antt =====
-- Driving a machine by the names of transitions: it gets to each state that can be reached.
use estate.Base.{
  ℕ, suc, ◌≡◌, ◌≤◌, refl, sym, ap, subst, ◌∙◌, Bool, true, Option, some, List, [], ◌∷◌, ◌++◌, Text,
  length, arith,
}
use estate.Eina.{Eina, EinaLaws}
use estate.Runtime.Callback.{User}
use estate.Runtime.Callback.Frame.{LocksNothing, IsBudget}
use estate.Runtime.Outcome.{Outcome, returns}
use estate.Runtime.Search.{found}
use estate.Runtime.Search.Complete.{IsNear, linear_find, AreShared}
use estate.Runtime.Types.{State, Transition}
use estate.Runtime.Transition.{Run, drain, transition_do}
use estate.Runtime.Transition.Cross.{arrived, arrived-Crossed, arrived-load, cross-arrived}
use estate.Runtime.Transition.Cases.{cleared, jump-returns}
use estate.Runtime.Transition.Walk.{edge, Walk, here, step, IsIdle}
use estate.Runtime.Transition.Total.{IsWired}
use estate.Runtime.Transition.Decides.{attempts, enters, settle_found}

module _ (E : Eina) where
  -- Each transition that starts at a state is what a search by its name finds in the table of that
  -- state, and it has an end.
  abbrev pub IsListed : (ℕ → State) → (ℕ → Transition) → Type 0
  IsListed states tr =
      (t s : ℕ)
      → (tr t).from ≡ some s
      → (n : Text) × E.IsShared n
        × (linear_find E tr n (states s).transit ≡ found (some t))
        × ((u : ℕ) × ((tr t).to ≡ some u))

no_length {ℓ} : {A : Type ℓ} (xs : List A) → length xs ≤ 0 → xs ≡ []
no_length [] le = refl
no_length (x ∷ xs) le = absurd (omega arith)

module _ (E : Eina) (laws : EinaLaws E) (near : IsNear E) (U : User E.Hash)
    (calm : LocksNothing E U) (rank : U.World → ℕ) (budget : IsBudget E U rank) where
  -- A machine ready for the next name, standing at `v`; the user's functions ask for nothing more.
  pub record IsReady (st : ℕ → State) (tr : ℕ → Transition) (v : Option ℕ) (r : Run E U)
      : Type 0 where
    pub idle : IsIdle E U calm r
    pub states : r.0.states ≡ st
    pub transits : r.0.transits ≡ tr
    pub locked : r.0.locked ≡ true
    pub at : (s : ℕ) × (v ≡ some s) × (r.0.current_state ≡ some s)
    pub quiet : rank r.1 ≡ 0

  drain_none :
      (again : Run E U → Option Text → Outcome (Run E U × Bool)) (r : Run E U) (ns : List Text)
      → ns ≡ []
      → drain E U again r ns ≡ returns r
  unfolding drain
  drain_none again r ns e = rw (e, drain) refl

  arrives :
      (f : ℕ) (r : Run E U) (n : Text) (s t u : ℕ)
      → IsIdle E U calm r
      → IsWired E r.0.states r.0.transits
      → AreShared E r.0.transits
      → E.IsShared n
      → r.0.locked ≡ true
      → r.0.current_state ≡ some s
      → rank r.1 ≡ 0
      → linear_find E r.0.transits n (r.0.states s).transit ≡ found (some t)
      → (r.0.transits t).from ≡ some s
      → (r.0.transits t).to ≡ some u
      → transition_do E U (suc f) r (some n)
        ≡ returns (cleared E U calm (arrived E U calm r s t u), true)
  arrives f r n s t u i w sh mine lock at quiet e from to =
      let again = transition_do E U f in
      let q = arrived E U calm r s t u in
      let none_left : length r.0.cb_defer ≡ 0 = ap length i.settled in
      let none_new =
        no_length q.0.cb_defer
          (omega (arith, arrived-load E U calm rank r s t u budget, none_left, quiet)) in
      enters E laws near U calm rank budget f r n lock i
      ∙ attempts E laws near U calm rank budget again r n s (found (some t)) w sh mine at e
      ∙ settle_found E laws near U calm rank budget again r n s t (from ∙ sym at)
      ∙ jump-returns E U calm again r q (cleared E U calm q) t
          (cross-arrived E U calm r s t u i.in_cb from to)
          (drain_none again (cleared E U calm q) q.0.cb_defer none_new)

  -- The names are requested one after the other, and each request returns success.
  abbrev pub Serves : ℕ → Run E U → List Text → Run E U → Type 0
  Serves f r [] r' = r ≡ r'
  Serves f r (n ∷ ns) r' =
      (q : Run E U) × (transition_do E U f r (some n) ≡ returns (q, true)) × Serves f q ns r'

  Serves-append :
      (f : ℕ) (r q r' : Run E U) (a b : List Text)
      → Serves f r a q
      → Serves f q b r'
      → Serves f r (a ++ b) r'
  Serves-append f r q r' [] b e y = subst (λ x. Serves f x b r') (sym e) y
  Serves-append f r q r' (n ∷ a) b (p, e, x) y = (p, e, Serves-append f p q r' a b x y)

  -- One more transition.
  advance :
      (f : ℕ) (st : ℕ → State) (tr : ℕ → Transition) (v : Option ℕ) (t : ℕ) (r : Run E U)
      → IsWired E st tr
      → AreShared E tr
      → IsListed E st tr
      → IsReady st tr v r
      → (tr t).from ≡ v
      → (n : Text) × (q : Run E U) × (transition_do E U (suc f) r (some n) ≡ returns (q, true))
        × IsReady st tr (tr t).to q
  advance f st tr v t r w sh listed ready from =
      let (s, v_some, at) = ready.at in
      let (n, mine, e, (u, to)) = listed t s (from ∙ v_some) in
      let c = arrived-Crossed E U calm r s t u ready.idle.in_cb in
      let spent = arrived-load E U calm rank r s t u budget in
      let none_left : length r.0.cb_defer ≡ 0 = ap length ready.idle.settled in
      let here_from : (r.0.transits t).from ≡ some s =
        ap (λ x. (x t).from) ready.transits ∙ from ∙ v_some in
      let here_to : (r.0.transits t).to ≡ some u = ap (λ x. (x t).to) ready.transits ∙ to in
      let here_w =
        subst (λ x. IsWired E x r.0.transits) (sym ready.states)
          (subst (IsWired E st) (sym ready.transits) w) in
      let here_sh = subst (AreShared E) (sym ready.transits) sh in
      let here_e : linear_find E r.0.transits n (r.0.states s).transit ≡ found (some t) =
        subst (λ x. linear_find E x n (r.0.states s).transit ≡ found (some t)) (sym ready.transits)
          (subst (λ x. linear_find E tr n (x s).transit ≡ found (some t)) (sym ready.states) e) in
      (
        n,
        cleared E U calm (arrived E U calm r s t u),
        arrives f r n s t u ready.idle here_w here_sh mine ready.locked at ready.quiet here_e
            here_from here_to,
        record {
          idle = record { in_cb = c.in_cb; settled = refl };
          states = c.states ∙ ready.states;
          transits = c.transits ∙ ready.transits;
          locked = c.locked ∙ ready.locked;
          at = (u, to, c.current_state);
          quiet = omega (arith, spent, none_left, ready.quiet);
        },
      )

  -- On a locked, wired machine that stands at `v`, outside of any callback and with nothing
  -- pending, whose user functions ask for no transitions and do not call
  -- estate_machine_lock, with shared names less than 2 ^ 31 apart,
  -- and where each transition is what its name finds in the table of the state that it starts at:
  -- for each state that can be reached along transitions there are names which, requested one after
  -- the other, are all served with success and take the machine to that state.
  pub transition_do-reaches :
      (f : ℕ) (st : ℕ → State) (tr : ℕ → Transition) (v goal : Option ℕ) (r : Run E U)
      → IsWired E st tr
      → AreShared E tr
      → IsListed E st tr
      → IsReady st tr v r
      → Walk tr v goal
      → (names : List Text) × (q : Run E U) × Serves (suc f) r names q × IsReady st tr goal q
  transition_do-reaches f st tr v goal r w sh listed ready here = ([], r, refl, ready)
  transition_do-reaches f st tr v goal r w sh listed ready (step p (edge t from to)) =
      let (names, q, served, stands) = transition_do-reaches f st tr v _ r w sh listed ready p in
      let (n, q', e, done) = advance f st tr _ t q w sh listed stands from in
      (
        names ++ n ∷ [],
        q',
        Serves-append (suc f) r q q' names (n ∷ []) served (q', e, refl),
        subst (λ x. IsReady st tr x q') to done,
      )
