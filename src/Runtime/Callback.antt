-- ===== src/Runtime/Callback.antt =====
-- Calling a callback: src/lib/estate_misc.c and `_estate_state_cb_call` of estate_state.c. What a
-- user function does is a parameter; it may call the library back, as a list of calls.
pub mod Frame
use estate.Base.{
  ℕ, Bool, true, false, not, Option, none, some, List, [], ◌∷◌, ◌++◌, Text, ◌==◌, if◌then◌else◌,
}
use estate.Eina.{Eina}
use estate.Runtime.Types.{
  ℤ, CbType, enterer, exiter, transition, cb_type_code, cb_unlocked, Error, CbWrapper, Wrapper,
  state_enterer, state_exiter, Machine, update_wrapper,
}
use estate.Runtime.Build.{machine_data_set, global_data_set, error_cb_set, machine_lock}

-- The calls of a callback on its machine that can change it. The others change nothing, or only while the
-- machine is not locked.
pub data ApiCall : Type 0 where
  calls_transition_do : Option Text → ApiCall
  calls_data_set : Option Text → Option ℕ → ApiCall
  calls_global_data_set : Option ℕ → ApiCall
  calls_error_cb_set : Option ℕ → ApiCall
  calls_machine_lock : Option ℕ → ApiCall

-- The message that snprintf builds for the error callback.
pub data Message : Type 0 where
  not_found : Text → Option Text → Message
  inconsistent : Option Text → Message

-- The functions that the user registers, over a world of the user's own. A callback sees the
-- machine, its data, the type and the transition; it gives its result and the calls it made.
pub record User (H : Type 0) : Type 1 where
  pub World : Type 0
  pub call : Machine H → World → ℕ → Option ℕ → CbType → ℕ → World × ℤ × List ApiCall
  pub error : Machine H → World → ℕ → Error → Text → Message → World

-- The guards of estate_machine_transition_do, up to the deferral.
pub data Entry (H : Type 0) : Type 0 where
  refused : Entry H
  deferred : Machine H → Entry H
  proceeds : Text → Entry H

unfoldable pub transition_enter : {H : Type 0} → Machine H → Option Text → Entry H
transition_enter m none = refused
transition_enter m (some name) =
    if not m.locked
    then refused
    else if not (m.in_cb == cb_unlocked)
    then deferred (record m { cb_defer = m.cb_defer ++ name ∷ [] })
    else proceeds name

module _ (E : Eina) where
  -- A call from inside of a callback, where a transition is never carried out.
  unfoldable pub api_call : Machine E.Hash → ApiCall → Machine E.Hash
  unfolding transition_enter machine_data_set global_data_set error_cb_set machine_lock
  api_call m (calls_transition_do name) = elim (transition_enter m name) [
    | refused ↦ m
    | deferred m' ↦ m'
    | proceeds n ↦ m
  ]
  api_call m (calls_data_set key value) = (machine_data_set E m key value).0
  api_call m (calls_global_data_set value) = global_data_set m value
  api_call m (calls_error_cb_set f) = error_cb_set m f
  api_call m (calls_machine_lock st) = machine_lock m st

  unfoldable pub api_calls : Machine E.Hash → List ApiCall → Machine E.Hash
  api_calls m [] = m
  api_calls m (c ∷ cs) = api_calls (api_call m c) cs

  -- `_estate_misc_cb_cache`
  unfoldable pub cb_cache : Machine E.Hash → Wrapper → Machine E.Hash × Bool
  cb_cache m wrp = elim (m.wrappers wrp).key [
    | none ↦ (m, true)
    | some k ↦ elim (m.wrappers wrp).user_data [
      | some v ↦ (m, true)
      | none ↦ elim (E.find m.user_data k) [
        | none ↦ (m, false)
        | some v ↦
            let cached = record (m.wrappers wrp) { user_data = some v } in
            (record m { wrappers = update_wrapper m.wrappers wrp cached }, true)
      ]
    ]
  ]

  module _ (U : User E.Hash) where
    -- `wrp->result = wrp->func (wrp->data, type, tr)` between the two writes of `in_cb`
    unfoldable pub cb_invoke :
        Machine E.Hash × U.World → Wrapper → CbType → ℕ → ℕ → Machine E.Hash × U.World
    cb_invoke (m, w) wrp type tr func =
        let inside = record m { in_cb = cb_type_code type } in
        let (w', result, calls) = U.call inside w func (inside.wrappers wrp).user_data type tr in
        let m' = api_calls inside calls in
        let done = record (m'.wrappers wrp) { result = result } in
        (record m' { wrappers = update_wrapper m'.wrappers wrp done; in_cb = cb_unlocked }, w')

    -- `_estate_misc_cb_call`
    unfoldable pub cb_call :
        Machine E.Hash × U.World → Wrapper → CbType → ℕ → Machine E.Hash × U.World
    cb_call (m, w) wrp type tr = elim (m.wrappers wrp).func [
      | none ↦ (m, w)
      | some func ↦ cb_invoke ((cb_cache m wrp).0, w) wrp type tr func
    ]

    -- `_estate_state_cb_call`
    unfoldable pub state_cb_call :
        Machine E.Hash × U.World → ℕ → ℕ → CbType → Machine E.Hash × U.World
    state_cb_call r st tr enterer = cb_call r (state_enterer st) enterer tr
    state_cb_call r st tr exiter = cb_call r (state_exiter st) exiter tr
    state_cb_call r st tr transition = r
