-- ===== src/Compiler/Checks.antt =====
-- The theorems on the checker applied to a machine of two states, and a run of it.
use estate.Base.{
  AreDistinct, ℕ, ◌≡◌, refl, Bool, Option, none, some, List, [], ◌∷◌, Text, codes, text_eq,
  if◌then◌else◌,
}
use estate.Compiler.Data.{Store, new_state, new_transit}
use estate.Base.{true, false, arith}
use estate.Base.{◌==◌}
use estate.Compiler.Check.{
  Cache, check_init, check_states, check_all, check_machine, foreach, state_deduction,
  init_deduction, settle_init, settle_found, named_state, pair_name,
}
use estate.Compiler.Check.Sources.{check_init-choose}
use estate.Compiler.Data.{update, state_new}
use estate.Runtime.Outcome.{Outcome, returns}
use estate.Compiler.Samples.Foreach.{table_laws, table_room, walk, walk-IsForeach}
use estate.Compiler.Samples.{plain, blank, table, values}
use estate.Compiler.Check.{count_from, count_to, mark_pair}
use estate.Compiler.Check.Table.{Counted}
use estate.Compiler.Check.Deduce.{Deduced}
use estate.Compiler.Check.Apart.{state_deduction-AreDistinct}
use estate.Compiler.Check.Machine.{initialised, chosen, check_machine-chosen}
use estate.Base.{◌↔◌}

abbrev pair_store : Store (List (Text × ℕ))
pair_store = record blank {
  fsms = λ p. record {
    name = codes "pair";
    transitions = (codes "go", 8) ∷ [];
    states = (codes "A", 5) ∷ (codes "B", 6) ∷ [];
    data_keys = [];
    init = none;
  };
  states = λ p. record (new_state (if p == 5 then codes "A" else codes "B")) {
    check_to = if p == 5 then 0 else 1;
  };
  transits =
      λ p. record (new_transit (codes "go")) { from = some (codes "A"); to = some (codes "B") };
  next = 9;
}

abbrev pub no_cache : Cache (List (Text × ℕ))
no_cache = record { hash = []; states = 0; ok = true; init = none; init_count = 0 }

abbrev init_of : Outcome (Store (List (Text × ℕ)) × Bool) → Option Text × Bool
init_of (returns (m, b)) = ((m.fsms 1).init, b)
init_of _ = (none, false)

init_of-check_states :
    init_of (check_states plain values no_cache pair_store (1 ∷ [])) ≡ (some (codes "A"), true)
unfolding check_states check_all check_machine check_init foreach state_deduction init_deduction
    settle_init settle_found named_state pair_name count_from count_to mark_pair state_new text_eq
init_of-check_states = refl

check_init-choose_example :
    (k : Cache (List (Text × ℕ))) × (check_init plain values pair_store no_cache 1
      ≡ returns (
        record pair_store {
          fsms = update pair_store.fsms 1 (record (pair_store.fsms 1) { init = some (codes "A") });
        },
        k,
      ))
    × (k.ok ≡ true)
check_init-choose_example = check_init-choose plain values pair_store no_cache 1 (ground arith)

-- The machine with no states yet, and the transition.
abbrev pub start_store : Store (List (Text × ℕ))
start_store = record pair_store { fsms = λ p. record (pair_store.fsms p) { states = [] } }

pub start_store-Counted : Counted table start_store 1 (λ n. 0)
start_store-Counted = record {
  named = λ n s e. cc;
  below = λ n s e. cc;
  counts = λ n s e. cc;
  absent = λ n e. refl;
}

-- From one state to another, one transition.
abbrev pub one_pair : List (Text × Text)
one_pair = (codes "A", codes "B") ∷ []

state_deduction-AreDistinct_example :
    (m' : Store table.Hash) × (k' : Cache table.Hash) × (foreach
        (state_deduction table)
        (start_store, record no_cache { states = 1 })
        (8 ∷ [])
      ≡ returns (m', k'))
    × (k'.ok ≡ true ↔ AreDistinct one_pair)
    × (k'.ok ≡ true → Deduced table table_laws table_room start_store m' 1 one_pair (λ n. 0))
state_deduction-AreDistinct_example =
    state_deduction-AreDistinct table table_laws table_room start_store
      (record no_cache { states = 1 }) (8 ∷ []) one_pair (λ n. 0) refl refl start_store-Counted
      (refl, refl, ground arith, tt) ((ground arith, ground arith), tt)

check_machine-chosen_example :
    (m' : Store table.Hash) × (r : Store table.Hash × Cache table.Hash) × (check_machine table walk
        start_store no_cache 1
      ≡ returns r)
    × (r.1.ok ≡ true ↔ (
        AreDistinct one_pair
        × ((chosen table table_laws table_room walk walk-IsForeach start_store m' 1 one_pair).1
            ≡ true)))
    × (AreDistinct one_pair
        → Deduced table table_laws table_room start_store m' 1 one_pair (λ n. 0))
    × (r.1.ok ≡ true
        → ((r.0.fsms 1).init
            ≡ (chosen table table_laws table_room walk walk-IsForeach start_store m' 1 one_pair).0)
          × (r.0
              ≡ initialised table table_laws table_room walk walk-IsForeach m' 1
                  (chosen table table_laws table_room walk walk-IsForeach start_store m' 1
                    one_pair).0))
unfolding text_eq
check_machine-chosen_example =
    check_machine-chosen table table_laws table_room walk walk-IsForeach start_store no_cache 1
      one_pair refl start_store-Counted (refl, refl, ground arith, tt)
      ((ground arith, ground arith), tt) (ground arith)
