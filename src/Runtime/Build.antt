-- ===== src/Runtime/Build.antt =====
-- Building a machine: src/lib/estate_machine.c up to estate_machine_lock, its accessors, and the
-- setters of src/lib/estate_state.c and src/lib/estate_transition.c. The machine pointer is never
-- NULL here; the other pointers may be.
pub mod Counts
use estate.Base.{
  ℕ, zero, suc, ◌+◌, ◌%◌, ◌^◌, Bool, true, false, not, Option, none, some, List, [], ◌∷◌, ◌++◌,
  Text, length, take, replicate, ltb, ◌==◌, if◌then◌else◌,
}
use estate.Eina.{Eina}
use estate.Runtime.Mempool.{Sizes, Mempool, mempool_new, state_push, transition_push}
use estate.Runtime.Outcome.{Outcome, returns, faults, ◌>>=◌, deref}
use estate.Runtime.Types.{
  ℤ, int_min, cb_ok, pos, cb_unlocked, CbCtor, CbWrapper, Wrapper, state_enterer, state_exiter,
  transition_cb, transition_enterer, transition_exiter, State, Transition, Machine, update,
  update_wrapper,
}

-- unsigned int arithmetic
abbrev pub u32 : ℕ → ℕ
u32 n = n % 2 ^ 32

-- Memory after memset (p, 0, size).
abbrev pub zero_state : State
zero_state = record { name = none; transit = []; transit_count = 0 }

abbrev pub zero_transition : Transition
zero_transition = record { name = none; from = none; to = none }

abbrev pub zero_wrapper : CbWrapper
zero_wrapper = record { func = none; user_data = none; key = none; result = pos 0 }

module _ (z : Sizes) (E : Eina) where
  unfoldable pub machine_new : (ℕ → Option ℕ) → ℕ → ℕ → Option (Machine E.Hash)
  unfolding mempool_new
  machine_new malloc states transitions = elim (mempool_new z malloc states transitions) [
    | none ↦ none
    | some mp ↦ elim E.hash_new [
      | none ↦ none
      | some h ↦ some (record {
        mempool = mp;
        states = λ _. zero_state;
        transits = λ _. zero_transition;
        wrappers = λ _. zero_wrapper;
        current_state = none;
        current_transition = none;
        error_cb = none;
        user_data = h;
        cb_defer = [];
        global_data = none;
        states_count = states;
        transit_count = transitions;
        in_cb = cb_unlocked;
        locked = false;
      })
    ]
  ]

module _ {H : Type 0} where
  unfoldable pub machine_state_add : Machine H → Option ℕ → Machine H × Bool
  machine_state_add m none = (m, false)
  machine_state_add m (some st) =
      if m.locked
      then (m, false)
      else let n = u32 (m.mempool.states_reg + 1) in
        (record m { mempool = record (m.mempool) { states_reg = n } }, not (ltb m.states_count n))

  unfoldable pub machine_transition_add : Machine H → Option ℕ → Machine H × Bool
  machine_transition_add m none = (m, false)
  machine_transition_add m (some tr) =
      if m.locked
      then (m, false)
      else let n = u32 (m.mempool.transit_reg + 1) in
        (record m { mempool = record (m.mempool) { transit_reg = n } }, not (ltb m.transit_count n))

  unfoldable pub machine_lock : Machine H → Option ℕ → Machine H
  machine_lock m none = m
  machine_lock m (some current) =
      if not (m.mempool.states_reg == m.states_count)
      then m
      else if not (m.mempool.transit_reg == m.transit_count)
      then m
      else record m { current_state = some current; locked = true }

  unfoldable pub current_state_get : Machine H → Option ℕ
  current_state_get m = if not m.locked then none else m.current_state

  -- `type` is the integer that is given as an Estate_Cb_Type.
  unfoldable pub machine_cb_check : Machine H → ℕ → Outcome ℤ
  machine_cb_check m type =
      if not m.locked
      then returns (pos 0)
      else if type == 0
      then (do s ← deref m.current_state; returns (m.wrappers (state_enterer s)).result)
      else if type == 2
      then (do t ← deref m.current_transition; returns (m.wrappers (transition_cb t)).result)
      else if type == 1
      then (do
        t ← deref m.current_transition
        s ← deref (m.transits t).from
        returns (m.wrappers (state_exiter s)).result)
      else returns int_min

  unfoldable pub global_data_set : Machine H → Option ℕ → Machine H
  global_data_set m value = elim m.global_data [
    | some old ↦ m
    | none ↦ record m { global_data = value }
  ]

  unfoldable pub global_data_get : Machine H → Option ℕ
  global_data_get m = m.global_data

  unfoldable pub error_cb_set : Machine H → Option ℕ → Machine H
  error_cb_set m f = record m { error_cb = f }

module _ (E : Eina) where
  unfoldable pub machine_data_set : Machine E.Hash → Option Text → Option ℕ → Machine E.Hash × Bool
  machine_data_set m none value = (m, false)
  machine_data_set m (some key) none = (m, false)
  machine_data_set m (some key) (some value) =
      if not m.locked then (m, false) else elim (E.find m.user_data key) [
        | some old ↦ (m, false)
        | none ↦ elim (E.add m.user_data key value) [
          | none ↦ (m, false)
          | some h ↦ (record m { user_data = h }, true)
        ]
      ]

-- eina_stringshare_add_length (key, len), where a length past the end of the text reads behind it
abbrev pub share : Option Text → ℕ → Outcome (Option Text)
share none len = returns none
share (some key) len = if ltb (length key) len then faults else returns (some (take len key))

module _ (z : Sizes) {H : Type 0} where
  -- `calloc` says whether the allocation of so many pointers succeeds. Where it fails, the code
  -- frees a pointer that malloc has not returned.
  unfoldable pub state_new : (ℕ → Bool) → Machine H → ℕ → Outcome (Machine H × Option ℕ)
  unfolding state_push
  state_new calloc m count =
      let (mp, slot) = state_push z m.mempool in
      let m' = record m { mempool = mp } in
      elim slot [
        | none ↦ returns (m', none)
        | some st ↦
            let fresh = record (m'.states st) { transit_count = count } in
            if count == 0
            then returns (record m' { states = update m'.states st fresh }, some st)
            else if calloc count
            then returns (
              record m' {
                states = update m'.states st (record fresh { transit = replicate count none });
              },
              some st,
            )
            else faults
      ]

  unfoldable pub transition_new : Machine H → Machine H × Option ℕ
  unfolding transition_push
  transition_new m =
      let (mp, slot) = transition_push z m.mempool in (record m { mempool = mp }, slot)
