-- ===== src/Runtime/Transition/Decides.antt =====
-- What estate_machine_transition_do does for a name that the table of the current state has, and
-- for one that it has not.
use estate.Base.{
  ℕ, zero, suc, ◌≡◌, ◌<◌, sym, ap, ◌∙◌, inl, inr, Bool, true, false, Option, none, some, List, Text,
  arith,
}
use estate.Eina.{Eina, EinaLaws}
use estate.Runtime.Callback.{not_found, User}
use estate.Runtime.Callback.Frame.{LocksNothing, IsBudget}
use estate.Runtime.Outcome.{Outcome, returns}
use estate.Runtime.Search.{Search, missing, found}
use estate.Runtime.Search.Complete.{
  IsTable, IsNear, linear_find, linear_find-named, find_transition-linear_find, AreShared,
}
use estate.Runtime.Types.{error_transition, Transition}
use estate.Runtime.Transition.{Run, jump, fail, settle, attempt, carry, transition_do}
use estate.Runtime.Transition.Cases.{attempt-settle, transition_enter_locked, same_ptr_eq}
use estate.Runtime.Transition.Walk.{Walk, IsIdle, Keeps, jump-Jumped, transition_do-Walked}
use estate.Runtime.Transition.Total.{
  IsWired, EndsBelow, KeepsIdle, transition_do-KeepsIdle, transition_do-Ends, jump-succeeds,
}

module _ (E : Eina) (laws : EinaLaws E) (near : IsNear E) (U : User E.Hash)
    (calm : LocksNothing E U) (rank : U.World → ℕ) (budget : IsBudget E U rank) where
  found-named :
      (tr : ℕ → Transition) (n : Text) (xs : List (Option ℕ)) (t : ℕ)
      → IsTable E tr xs
      → linear_find E tr n xs ≡ found (some t)
      → (tr t).name ≡ some n
  found-named tr n xs t h e = elim (linear_find-named E tr n xs h) [
    | inl q ↦ cc (q, e)
    | inr (t', q, named) ↦ ground (arith, q, e, named)
  ]

  -- The guards let a name pass on a locked machine outside of any callback.
  pub enters :
      (f : ℕ) (r : Run E U) (n : Text)
      → r.0.locked ≡ true
      → IsIdle E U calm r
      → transition_do E U (suc f) r (some n) ≡ attempt E U (transition_do E U f) r n
  unfolding transition_do carry
  enters f r n lock i =
      ap (carry E U (transition_do E U f) r) (transition_enter_locked E U calm r.0 n i.in_cb lock)

  -- What the attempt does once the search has given `x`.
  pub attempts :
      (again : Run E U → Option Text → Outcome (Run E U × Bool)) (r : Run E U) (n : Text) (s : ℕ)
      (x : Search (Option ℕ))
      → IsWired E r.0.states r.0.transits
      → AreShared E r.0.transits
      → E.IsShared n
      → r.0.current_state ≡ some s
      → linear_find E r.0.transits n (r.0.states s).transit ≡ x
      → attempt E U again r n ≡ settle E U again r n s x
  attempts again r n s x w sh mine at e =
      attempt-settle E U calm again r n s at
      ∙ ap (settle E U again r n s) (
          find_transition-linear_find E laws near r.0.transits sh n mine (r.0.states s) (w.table s)
            (w.whole s)
          ∙ e)

  pub settle_found :
      (again : Run E U → Option Text → Outcome (Run E U × Bool)) (r : Run E U) (n : Text) (s t : ℕ)
      → (r.0.transits t).from ≡ r.0.current_state
      → settle E U again r n s (found (some t)) ≡ jump E U again r t
  unfolding settle
  settle_found again r n s t from = rw (same_ptr_eq E U calm _ _ from)

  -- On a locked, wired machine that stands at `s`, outside of any callback and with nothing
  -- pending, with callbacks that do not call estate_machine_lock, with more fuel than the budget of
  -- transitions that they ask for, and with shared names less than 2 ^ 31 apart: if a
  -- transition from `s` by the requested name is in the table of `s`, the call returns success, and
  -- the state that it ends in is reached from the end of that transition.
  pub transition_do-follows :
      (fuel : ℕ) (r : Run E U) (n : Text) (s t : ℕ)
      → IsIdle E U calm r
      → IsWired E r.0.states r.0.transits
      → AreShared E r.0.transits
      → E.IsShared n
      → r.0.locked ≡ true
      → r.0.current_state ≡ some s
      → rank r.1 < fuel
      → linear_find E r.0.transits n (r.0.states s).transit ≡ found (some t)
      → (r.0.transits t).from ≡ some s
      → (r' : Run E U) × (transition_do E U fuel r (some n) ≡ returns (r', true))
        × ((r.0.transits t).name ≡ some n)
        × Walk r.0.transits (r.0.transits t).to r'.0.current_state
  transition_do-follows zero r n s t i w sh mine lock at b e from = absurd (omega arith)
  transition_do-follows (suc f) r n s t i w sh mine lock at b e from =
      let again = transition_do E U f in
      let keeps : KeepsIdle E U calm rank budget again =
        transition_do-KeepsIdle E U calm rank budget f in
      let below : EndsBelow E U calm rank budget f again =
        transition_do-Ends E U calm rank budget f in
      let walks : Keeps E U calm again = transition_do-Walked E U calm f in
      let name = found-named r.0.transits n (r.0.states s).transit t (w.table s) e in
      let (u, to) = w.ends t n name in
      let (p, jumps) =
        jump-succeeds E U calm rank budget f again r s t u below keeps i w (omega arith) from to in
      let j = jump-Jumped E U calm again r p t true walks i (from ∙ sym at) jumps in
      (
        p,
        enters f r n lock i
            ∙ attempts again r n s (found (some t)) w sh mine at e
            ∙ settle_found again r n s t (from ∙ sym at)
            ∙ jumps,
        name,
        j.onward,
      )

  -- On such a machine, if the table of `s` has no transition by the requested name, the call fails.
  -- It leaves the machine as it was, and calls the error callback once with the name and the state
  -- if one is set, and nothing otherwise.
  pub transition_do-not_found :
      (f : ℕ) (r : Run E U) (n : Text) (s : ℕ)
      → IsIdle E U calm r
      → IsWired E r.0.states r.0.transits
      → AreShared E r.0.transits
      → E.IsShared n
      → r.0.locked ≡ true
      → r.0.current_state ≡ some s
      → linear_find E r.0.transits n (r.0.states s).transit ≡ missing
      → transition_do E U (suc f) r (some n)
        ≡ returns (
          (
            r.0,
            elim r.0.error_cb [
              | none ↦ r.1
              | some g ↦ U.error r.0 r.1 g error_transition n (not_found n (r.0.states s).name)
            ],
          ),
          false,
        )
  unfolding settle fail
  transition_do-not_found f r n s i w sh mine lock at e =
      enters f r n lock i
      ∙ attempts (transition_do E U f) r n s missing w sh mine at e
      ∙ ground arith
