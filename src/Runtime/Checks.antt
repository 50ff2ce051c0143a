-- ===== src/Runtime/Checks.antt =====
-- The theorems on building a machine, applied to small machines.
use estate.Base.{count}
use estate.Base.{ℕ, ◌<◌, ◌≡◌, ◌↔◌, refl, true, false, none, some, List, [], ◌∷◌, codes, arith}
use estate.Runtime.Build.{
  zero_state, zero_transition, zero_wrapper, machine_lock, current_state_get,
}
use estate.Runtime.Build.{machine_state_add, machine_transition_add}
use estate.Runtime.Build.Counts.{
  add_all-room, Addition, state, transition, states_added, transitions_added, add_all,
  machine_lock-added,
}
use estate.Runtime.Init.{state_init, transition_init, state_deinit, transition_deinit}
use estate.Runtime.Init.Sharing.{transition_deinit-init, state_deinit-init}
use estate.Runtime.Mempool.{Mempool, Sizes, mempool_new, state_push, transition_push, mempool_free}
use estate.Runtime.Mempool.Layout.{
  IsPool, IsSmall, mempool_new-IsPool, state_push_slot, transition_push_slot, push_full,
  state_push_overlap, mempool_free-slots,
}
use estate.Runtime.Outcome.{returns}
use estate.Runtime.Types.{
  pos, cb_unlocked, Machine, update, update_wrapper, state_enterer, state_exiter, transition_cb,
  transition_enterer, transition_exiter,
}
use estate.Runtime.Start.{
  Services, Library, estate_init, estate_shutdown, times, estate_shutdown-init,
}
use estate.Base.{true, arith}

abbrev sizes : Sizes
sizes = record { mempool = 40; machine = 112; state = 96; transition = 128 }

-- A pool at 1000 with two states and three transitions, of which two and one have been pushed.
abbrev pool : Mempool
pool = record {
  base = 1040;
  stack_states = 1344;
  stack_transits = 1472;
  end = 1728;
  states_reg = 2;
  transit_reg = 1;
}

pool_laid : IsPool sizes 2 3 2 1 pool
pool_laid = omega arith

abbrev fresh_pool : Mempool
fresh_pool = record {
  base = 1040;
  stack_states = 1152;
  stack_transits = 1344;
  end = 1728;
  states_reg = 0;
  transit_reg = 0;
}

small : IsSmall sizes
small = omega arith

mempool_new-IsPool_example :
    IsPool sizes 2 3 0 0 fresh_pool
    × (fresh_pool.states_reg ≡ 0)
    × (fresh_pool.transit_reg ≡ 0)
    × (0 < 2)
    × (0 < 3)
unfolding mempool_new
mempool_new-IsPool_example =
    mempool_new-IsPool sizes (λ n. some 1000) 2 3 fresh_pool small (omega arith) (omega arith) refl

state_push_slot_example :
    IsPool sizes 2 3 1 0 (state_push sizes fresh_pool).0
    × ((state_push sizes fresh_pool).1 ≡ some 1152)
state_push_slot_example = state_push_slot sizes 2 3 0 0 fresh_pool (omega arith) (omega arith)

transition_push_slot_example :
    IsPool sizes 2 3 2 2 (transition_push sizes pool).0
    × ((transition_push sizes pool).1 ≡ some 1472)
transition_push_slot_example = transition_push_slot sizes 2 3 2 1 pool pool_laid (omega arith)

push_full_example :
    ((transition_push sizes (record pool { stack_transits = 1728 })).1 ≡ none)
    × ((state_push sizes (record pool { stack_transits = 1344 })).1 ≡ none)
push_full_example =
    push_full sizes 2 3 2 (record pool { stack_transits = 1728 })
      (record pool { stack_transits = 1344 }) (omega arith) (omega arith) (omega arith)
      (omega arith)

state_push_overlap_example : (state_push sizes pool).1 ≡ some 1344
state_push_overlap_example = state_push_overlap sizes 2 3 1 pool pool_laid (omega arith)

mempool_free-slots_example : mempool_free sizes pool ≡ (1344 ∷ [], 1248 ∷ 1152 ∷ [])
mempool_free-slots_example = mempool_free-slots sizes 2 3 2 1 pool pool_laid refl refl

-- A machine for two states and one transition, before anything was added.
abbrev empty : Machine (Unit {0})
empty = record {
  mempool = fresh_pool;
  states = λ p. record zero_state { transit_count = 0 };
  transits = λ t. zero_transition;
  wrappers = λ p. zero_wrapper;
  current_state = none;
  current_transition = none;
  error_cb = none;
  user_data = tt;
  cb_defer = [];
  global_data = none;
  states_count = 2;
  transit_count = 1;
  in_cb = cb_unlocked;
  locked = false;
}

abbrev additions : List Addition
additions = state 1152 ∷ transition 1344 ∷ state 1248 ∷ []

machine_lock-added_example :
    let m = machine_lock (add_all empty additions) (some 1152) in
    (m.locked ≡ true ↔ (states_added additions ≡ 2) × (transitions_added additions ≡ 1))
    × (m.locked ≡ true → current_state_get m ≡ some 1152)
    × (m.locked ≡ false → current_state_get m ≡ none)
machine_lock-added_example =
    machine_lock-added empty additions 1152 refl refl refl (omega arith) (omega arith)

add_all-room_example :
    ((machine_state_add (add_all empty additions) (some 1300)).1 ≡ true
      ↔ states_added additions < 2)
    × ((machine_transition_add (add_all empty additions) (some 1300)).1 ≡ true
        ↔ transitions_added additions < 1)
add_all-room_example = add_all-room empty additions 1300 refl refl refl (omega arith) (omega arith)

abbrev walked : Machine (Unit {0})
walked = record empty {
  transits =
      update empty.transits 1344
        (record { name = some (codes "go"); from = some 1152; to = some 1248 });
  wrappers =
      update_wrapper
        (update_wrapper
          (update_wrapper empty.wrappers (transition_cb 1344)
            (record zero_wrapper { func = some 1; key = some (codes "k") }))
          (transition_enterer 1344)
          (record zero_wrapper { func = some 2; key = some (codes "in") }))
        (transition_exiter 1344) (record zero_wrapper { func = some 3; key = some (codes "ou") });
}

transition_deinit-init_example :
    transition_deinit walked 1344 ≡ codes "go" ∷ codes "k" ∷ codes "in" ∷ codes "ou" ∷ []
unfolding transition_init
transition_deinit-init_example =
    transition_deinit-init empty walked 1344 1152 1248 3 (codes "go") (codes "k") (codes "in")
      (codes "out") (some 1) (some 2) (some 3) (omega arith) refl

abbrev named : Machine (Unit {0})
named = record empty {
  states = update empty.states 1152 (record zero_state { name = some (codes "s") });
  wrappers =
      update_wrapper
        (update_wrapper empty.wrappers (state_enterer 1152)
          (record zero_wrapper { func = some 1; key = some (codes "in") }))
        (state_exiter 1152) (record zero_wrapper { func = some 2; key = some (codes "out") });
}

state_deinit-init_example :
    (count (codes "in") (state_deinit named (some 1152)) ≡ 0)
    × (count (codes "out") (state_deinit named (some 1152)) ≡ 2)
unfolding state_init
state_deinit-init_example =
    state_deinit-init empty named 1152 0 (codes "s") (codes "in") (codes "out") (some 1) (some 2)
      (λ e. cc e) (λ e. cc e) (λ e. cc e) refl

-- The outside as the list of the calls of it.
abbrev logging : Services
logging = record {
  World = List ℕ;
  eina_init = λ w. (1 ∷ w, true);
  domain_register = λ w. (2 ∷ w, some 7);
  domain_unregister = λ w d. 3 ∷ w;
  eina_shutdown = λ w. 4 ∷ w;
}

abbrev library : ℕ → Library
library n = record { init_count = pos n; log_dom = some 7 }

estate_shutdown-init_example :
    (times logging 3 (estate_init logging) (record { init_count = pos 0; log_dom = none }, [])
      ≡ returns (library 3, 2 ∷ 1 ∷ []))
    × (times logging 2 (estate_shutdown logging) (library 3, 2 ∷ 1 ∷ [])
        ≡ returns (library 1, 2 ∷ 1 ∷ []))
    × (times logging 3 (estate_shutdown logging) (library 3, 2 ∷ 1 ∷ [])
        ≡ returns (library 0, 4 ∷ 3 ∷ 2 ∷ 1 ∷ []))
estate_shutdown-init_example =
    estate_shutdown-init logging [] (1 ∷ []) (2 ∷ 1 ∷ []) 7 refl refl none 2 (ground arith)
