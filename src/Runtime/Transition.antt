-- ===== src/Runtime/Transition.antt =====
-- estate_machine_transition_do of src/lib/estate_machine.c.
pub mod Cross
pub mod Cases
pub mod Walk
pub mod Order
pub mod Total
pub mod Decides
pub mod Reach
use estate.Base.{
  ℕ, zero, suc, Bool, true, false, not, Option, none, some, List, [], ◌∷◌, Text, ◌==◌,
  if◌then◌else◌,
}
use estate.Eina.{Eina}
use estate.Runtime.Callback.{
  Message, not_found, inconsistent, User, Entry, refused, deferred, proceeds, transition_enter,
  cb_call, state_cb_call,
}
use estate.Runtime.Outcome.{Outcome, returns, faults, out_of_fuel, ◌>>=◌, deref}
use estate.Runtime.Search.{Search, missing, fault, found, find_transition}
use estate.Runtime.Types.{
  enterer, exiter, transition, Error, error_transition, Wrapper, transition_cb, State, Transition,
  Machine,
}

-- The comparison of two pointers.
abbrev pub same_ptr : Option ℕ → Option ℕ → Bool
same_ptr none none = true
same_ptr (some a) (some b) = a == b
same_ptr _ _ = false

module _ (E : Eina) (U : User E.Hash) where
  -- A machine and the user's world.
  abbrev pub Run : Type 0
  Run = Machine E.Hash × U.World

  -- From the assignment of `current_transition` to the call of the enterer.
  unfoldable pub cross : Run → ℕ → Outcome Run
  unfolding state_cb_call
  cross (m, w) t = do
    from ← deref (m.transits t).from
    let r = state_cb_call E U (record m { current_transition = some t }, w) from t exiter
    let (m', w') = cb_call E U r (transition_cb t) transition t
    to ← deref (m'.transits t).to
    returns (state_cb_call E U (record m' { current_state = some to }, w') to t enterer)

  -- EINA_LIST_FREE (deferred, transition), where `again` carries a transition out
  unfoldable pub drain : (Run → Option Text → Outcome (Run × Bool)) → Run → List Text → Outcome Run
  drain again r [] = returns r
  drain again r (n ∷ ns) = do (r', done) ← again r (some n); drain again r' ns

  -- The transition `t` of the current state.
  unfoldable pub jump : (Run → Option Text → Outcome (Run × Bool)) → Run → ℕ → Outcome (Run × Bool)
  jump again r t = do
    (m, w) ← cross r t
    r' ← drain again (record m { cb_defer = [] }, w) m.cb_defer
    returns (r', true)

  -- The label `fail`.
  unfoldable pub fail : Run → Text → Message → Run × Bool
  fail (m, w) name msg = elim m.error_cb [
    | none ↦ ((m, w), false)
    | some f ↦ ((m, U.error m w f error_transition name msg), false)
  ]

  -- What follows the search in the state `s`.
  unfoldable pub settle :
      (Run → Option Text → Outcome (Run × Bool))
      → Run
      → Text
      → ℕ
      → Search (Option ℕ)
      → Outcome (Run × Bool)
  settle again (m, w) name s fault = faults
  settle again (m, w) name s missing = returns (fail (m, w) name (not_found name (m.states s).name))
  settle again (m, w) name s (found none) =
      returns (fail (m, w) name (not_found name (m.states s).name))
  settle again (m, w) name s (found (some t)) =
      if not (same_ptr (m.transits t).from m.current_state)
      then returns (fail (m, w) name (inconsistent (m.transits t).name))
      else jump again (m, w) t

  -- The search and what follows it.
  unfoldable pub attempt :
      (Run → Option Text → Outcome (Run × Bool)) → Run → Text → Outcome (Run × Bool)
  attempt again (m, w) name = do
    s ← deref m.current_state
    settle again (m, w) name s (find_transition E m.transits name (m.states s))

  -- What follows the guards.
  unfoldable pub carry :
      (Run → Option Text → Outcome (Run × Bool)) → Run → Entry E.Hash → Outcome (Run × Bool)
  carry again r refused = returns (r, false)
  carry again r (deferred m) = returns ((m, r.1), true)
  carry again r (proceeds name) = attempt again r name

  -- The fuel bounds how deep the deferred transitions nest.
  unfoldable pub transition_do : ℕ → Run → Option Text → Outcome (Run × Bool)
  transition_do zero r name = out_of_fuel
  transition_do (suc fuel) r name = carry (transition_do fuel) r (transition_enter r.0 name)
