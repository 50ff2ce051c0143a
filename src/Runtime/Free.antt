-- ===== src/Runtime/Free.antt =====
-- The release of a machine: estate_machine_free of src/lib/estate_machine.c, estate_state_free of
-- src/lib/estate_state.c, estate_transition_free of src/lib/estate_transition.c and the loops of
-- _estate_mempool_free of src/lib/estate_mempool.c that call them.
use estate.Base.{ℕ, Option, none, some, List, [], ◌∷◌, ◌++◌, Text}
use estate.Runtime.Types.{Machine}
use estate.Runtime.Mempool.{Sizes, mempool_free}
use estate.Runtime.Init.{state_deinit, transition_deinit}

-- What is released: a hash table, a shared string, the array of a state, or the pool.
pub data Freed (H : Type 0) : Type 0 where
  hash : H → Freed H
  string : Text → Freed H
  array : ℕ → Freed H
  pool : Freed H

module _ {H : Type 0} (m : Machine H) where
  abbrev pub strings : List Text → List (Freed H)
  strings [] = []
  strings (t ∷ ts) = string t ∷ strings ts

  unfoldable pub transition_free : ℕ → List (Freed H)
  transition_free tr = strings (transition_deinit m tr)

  unfoldable pub state_free : ℕ → List (Freed H)
  state_free st = strings (state_deinit m (some st)) ++ array st ∷ []

  -- The loops over the addresses that the pool goes through.
  unfoldable pub transitions_free : List ℕ → List (Freed H)
  transitions_free [] = []
  transitions_free (tr ∷ ts) = transition_free tr ++ transitions_free ts

  unfoldable pub states_free : List ℕ → List (Freed H)
  states_free [] = []
  states_free (st ∷ ss) = state_free st ++ states_free ss

-- estate_machine_free; a machine has a hash table
unfoldable pub machine_free : {H : Type 0} → Sizes → Option (Machine H) → List (Freed H)
machine_free z none = []
machine_free z (some m) =
    let (transits, states) = mempool_free z m.mempool in
    hash m.user_data ∷ (transitions_free m transits ++ (states_free m states ++ pool ∷ []))
