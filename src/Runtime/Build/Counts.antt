-- ===== src/Runtime/Build/Counts.antt =====
-- When estate_machine_lock of src/lib/estate_machine.c locks a machine that is being built.
use estate.Base.{ℕ, suc, ◌+◌, ◌^◌, ◌<◌, ◌≡◌, ◌↔◌, true, false, none, some, List, [], ◌∷◌, arith}
use estate.Runtime.Types.{Machine}
use estate.Runtime.Build.{
  machine_state_add, machine_transition_add, machine_lock, current_state_get,
}

-- The calls that add to a machine.
pub data Addition : Type 0 where
  state transition : ℕ → Addition

abbrev pub states_added : List Addition → ℕ
states_added [] = 0
states_added (state p ∷ cs) = suc (states_added cs)
states_added (transition p ∷ cs) = states_added cs

abbrev pub transitions_added : List Addition → ℕ
transitions_added [] = 0
transitions_added (state p ∷ cs) = transitions_added cs
transitions_added (transition p ∷ cs) = suc (transitions_added cs)

module _ {H : Type 0} where
  -- The calls one after the other, whatever they return.
  unfoldable pub add_all : Machine H → List Addition → Machine H
  add_all m [] = m
  add_all m (state p ∷ cs) = add_all (machine_state_add m (some p)).0 cs
  add_all m (transition p ∷ cs) = add_all (machine_transition_add m (some p)).0 cs

  record Added (m m' : Machine H) (s t : ℕ) : Type 0 where
    still : m'.locked ≡ false
    states : m'.mempool.states_reg ≡ m.mempool.states_reg + s
    transits : m'.mempool.transit_reg ≡ m.mempool.transit_reg + t
    states_kept : m'.states_count ≡ m.states_count
    transits_kept : m'.transit_count ≡ m.transit_count

  add_all-Added :
      (m : Machine H) (cs : List Addition)
      → m.locked ≡ false
      → m.mempool.states_reg + states_added cs < 2 ^ 32
      → m.mempool.transit_reg + transitions_added cs < 2 ^ 32
      → Added m (add_all m cs) (states_added cs) (transitions_added cs)
  unfolding add_all machine_state_add machine_transition_add
  add_all-Added m [] u hs ht = ground arith
  add_all-Added m (state p ∷ cs) u hs ht =
      ground (arith, add_all-Added (machine_state_add m (some p)).0 cs)
  add_all-Added m (transition p ∷ cs) u hs ht =
      ground (arith, add_all-Added (machine_transition_add m (some p)).0 cs)

  -- Fewer than 2 ^ 32 additions to an unlocked machine with nothing registered, then a lock at a
  -- state: the machine is locked exactly if as many states and as many transitions were added as
  -- it was made for. Locked, its current state is that state; otherwise it still has none to give.
  pub machine_lock-added :
      (m : Machine H) (cs : List Addition) (st : ℕ)
      → m.locked ≡ false
      → m.mempool.states_reg ≡ 0
      → m.mempool.transit_reg ≡ 0
      → states_added cs < 2 ^ 32
      → transitions_added cs < 2 ^ 32
      → let m' = machine_lock (add_all m cs) (some st) in
        (m'.locked ≡ true
          ↔ (states_added cs ≡ m.states_count) × (transitions_added cs ≡ m.transit_count))
        × (m'.locked ≡ true → current_state_get m' ≡ some st)
        × (m'.locked ≡ false → current_state_get m' ≡ none)
  unfolding machine_lock current_state_get
  machine_lock-added m cs st u es et hs ht =
      let a = add_all-Added m cs u (omega arith) (omega arith) in
      (
        (λ h. ground (arith, a), λ h. ground (arith, a)),
        λ h. ground (arith, a),
        λ h. ground (arith, a),
      )

  -- After fewer than 2 ^ 32 - 1 additions of states and of transitions to an unlocked machine with
  -- nothing registered, whatever they returned: one more state is accepted exactly if fewer states
  -- were added before than the machine was made for, and likewise one more transition.
  pub add_all-room :
      (m : Machine H) (cs : List Addition) (p : ℕ)
      → m.locked ≡ false
      → m.mempool.states_reg ≡ 0
      → m.mempool.transit_reg ≡ 0
      → states_added cs + 1 < 2 ^ 32
      → transitions_added cs + 1 < 2 ^ 32
      → ((machine_state_add (add_all m cs) (some p)).1 ≡ true ↔ states_added cs < m.states_count)
        × ((machine_transition_add (add_all m cs) (some p)).1 ≡ true
            ↔ transitions_added cs < m.transit_count)
  unfolding machine_state_add machine_transition_add
  add_all-room m cs p u es et hs ht =
      let a = add_all-Added m cs u (omega arith) (omega arith) in
      (
        (λ e. ground (arith, a), λ e. ground (arith, a)),
        (λ e. ground (arith, a), λ e. ground (arith, a)),
      )
