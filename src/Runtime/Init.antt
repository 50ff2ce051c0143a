-- ===== src/Runtime/Init.antt =====
-- The contents of a state and of a transition: estate_state_init and estate_state_deinit of
-- src/lib/estate_state.c, estate_transition_init and estate_transition_deinit of
-- src/lib/estate_transition.c.
pub mod Sharing
use estate.Base.{
  ℕ, Bool, true, false, not, Option, none, some, List, [], ◌∷◌, ◌++◌, Text, length, take, ltb, ◌==◌,
  if◌then◌else◌,
}
use estate.Runtime.Build.{share}
use estate.Runtime.Outcome.{Outcome, returns, faults, ◌>>=◌, deref}
use estate.Runtime.Types.{
  cb_ok, pos, CbCtor, CbWrapper, Wrapper, state_enterer, state_exiter, transition_cb,
  transition_enterer, transition_exiter, State, Transition, Machine, update, update_wrapper,
}

-- `if (ctor) { ... }` for a wrapper of a state
unfoldable pub wrap_state : CbWrapper → Option CbCtor → Outcome CbWrapper
wrap_state w none = returns w
wrap_state w (some c) = do
  key ← share c.key c.key_len
  returns (record { func = c.func; user_data = none; key = key; result = cb_ok })

-- memcpy (st->transit, transitions, count * sizeof (Estate_Transition *))
unfoldable pub copy_transitions :
    List (Option ℕ) → Option (List (Option ℕ)) → ℕ → Outcome (List (Option ℕ))
copy_transitions old none count = returns old
copy_transitions old (some ts) count =
    if ltb (length ts) count then faults else returns (take count ts)

-- `if (cb) { ... }`: the data and the result stay
unfoldable pub wrap_transition_cb : CbWrapper → Option CbCtor → Outcome CbWrapper
wrap_transition_cb w none = returns w
wrap_transition_cb w (some c) = do
  key ← share c.key c.key_len
  returns (record w { func = c.func; key = key })

-- `if (st_enterer) { ... }`
unfoldable pub wrap_transition_enterer : CbWrapper → Option CbCtor → Outcome CbWrapper
wrap_transition_enterer w none = returns w
wrap_transition_enterer w (some c) = do
  key ← share c.key c.key_len
  returns (record w { func = c.func; key = key; result = cb_ok })

-- `if (st_exiter) { ... }`: the length that it takes is that of the other constructor
unfoldable pub exiter_key : Option CbCtor → Option Text → Outcome (Option Text)
exiter_key st_enterer none = returns none
exiter_key st_enterer (some key) = do other ← deref st_enterer; share (some key) other.key_len

unfoldable pub wrap_transition_exiter :
    CbWrapper → Option CbCtor → Option CbCtor → Outcome CbWrapper
unfolding exiter_key
wrap_transition_exiter w st_enterer none = returns w
wrap_transition_exiter w st_enterer (some c) = do
  key ← exiter_key st_enterer c.key
  returns (record w { func = c.func; key = key; result = cb_ok })

-- eina_stringshare_del (key), which does nothing at NULL
abbrev pub del : Option Text → List Text
del none = []
del (some t) = t ∷ []

-- `if (test) eina_stringshare_del (key);`
abbrev pub del_if : Option Text → Option Text → List Text
del_if none key = []
del_if (some t) key = del key

module _ {H : Type 0} where
  unfoldable pub state_init :
      Machine H
      → Option ℕ
      → Option Text
      → Option (List (Option ℕ))
      → ℕ
      → Option CbCtor
      → Option CbCtor
      → Outcome (Machine H × Bool)
  unfolding copy_transitions wrap_state
  state_init m none name transitions count enterer exiter = returns (m, false)
  state_init m (some st) none transitions count enterer exiter = returns (m, false)
  state_init m (some st) (some name) transitions count enterer exiter =
      if not (count == (m.states st).transit_count) then returns (m, false) else (do
        copied ← copy_transitions (m.states st).transit transitions count
        we ← wrap_state (m.wrappers (state_enterer st)) enterer
        wx ← wrap_state (m.wrappers (state_exiter st)) exiter
        returns (
          record m {
            states =
                update m.states st (record (m.states st) { name = some name; transit = copied });
            wrappers =
                update_wrapper (update_wrapper m.wrappers (state_enterer st) we) (state_exiter st)
                  wx;
          },
          true,
        ))

  unfoldable pub transition_init :
      Machine H
      → Option ℕ
      → Option Text
      → Option ℕ
      → Option ℕ
      → Option CbCtor
      → Option CbCtor
      → Option CbCtor
      → Outcome (Machine H × Bool)
  unfolding wrap_transition_cb wrap_transition_enterer wrap_transition_exiter
  transition_init m (some tr) (some name) (some from) (some to) cb st_enterer st_exiter = do
    wc ← wrap_transition_cb (m.wrappers (transition_cb tr)) cb
    we ← wrap_transition_enterer (m.wrappers (transition_enterer tr)) st_enterer
    wx ← wrap_transition_exiter (m.wrappers (transition_exiter tr)) st_enterer st_exiter
    returns (
      record m {
        transits =
            update m.transits tr (record { name = some name; from = some from; to = some to });
        wrappers =
            update_wrapper
              (update_wrapper (update_wrapper m.wrappers (transition_cb tr) wc)
                (transition_enterer tr) we)
              (transition_exiter tr) wx;
      },
      true,
    )
  transition_init m _ _ _ _ cb st_enterer st_exiter = returns (m, false)

  -- The shared strings that are released, in order.
  unfoldable pub state_deinit : Machine H → Option ℕ → List Text
  state_deinit m none = []
  state_deinit m (some st) =
      let enterer = (m.wrappers (state_enterer st)).key in
      let exiter = (m.wrappers (state_exiter st)).key in
      del_if (m.states st).name (m.states st).name
      ++ (del_if enterer exiter ++ del_if enterer exiter)

  unfoldable pub transition_deinit : Machine H → ℕ → List Text
  transition_deinit m tr =
      let name = (m.transits tr).name in
      let cb = (m.wrappers (transition_cb tr)).key in
      let enterer = (m.wrappers (transition_enterer tr)).key in
      let exiter = (m.wrappers (transition_exiter tr)).key in
      del_if name name ++ (del_if cb cb ++ (del_if enterer enterer ++ del_if exiter exiter))

  -- estate_state_name_get and estate_transition_name_get
  unfoldable pub state_name_get : Machine H → Option ℕ → Option Text
  state_name_get m none = none
  state_name_get m (some st) = (m.states st).name

  unfoldable pub transition_name_get : Machine H → Option ℕ → Option Text
  transition_name_get m none = none
  transition_name_get m (some tr) = (m.transits tr).name
