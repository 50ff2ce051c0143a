-- ===== src/Compiler/Check.antt =====
-- The checker of src/bin/estate_cc_check.c: it adds the states that transitions name, looks for
-- transitions that are there twice, and settles the initial state.
pub mod Sources
pub mod Table
pub mod Found
pub mod Deduce
pub mod Foreach
pub mod Size
pub mod Apart
pub mod Machine
use estate.Base.{
  take, ℕ, zero, suc, ◌+◌, ◌%◌, ◌^◌, Bool, true, false, not, Option, none, some, List, [], ◌∷◌,
  ◌++◌, Text, length, text_eq, ltb, ◌==◌, if◌then◌else◌,
}
use estate.Eina.{Eina}
use estate.Compiler.Data.{State, Fsm, Store, update, state_new, put}
use estate.Runtime.Outcome.{Outcome, returns, faults, out_of_fuel, ◌>>=◌, deref}

-- The table `states` is that of the machine at the address `states`.
pub record Cache (Hash : Type 0) : Type 0 where
  pub hash : Hash
  pub states : ℕ
  pub ok : Bool
  pub init : Option Text
  pub init_count : ℕ

-- The shared string made of the length that snprintf returns and the 2048 bytes it wrote to.
unfoldable pub pair_name : Text → Text → Outcome Text
pair_name from to =
    let t = from ++ b':' ∷ to in
    if ltb (length t) 2048
    then returns t
    else if length t == 2048
    then returns (take 2047 t ++ 0 ∷ [])
    else faults

-- eina_hash_foreach on the elements in its order
unfoldable pub foreach {ℓ} : {A : Type ℓ} → (A → ℕ → Outcome (A × Bool)) → A → List ℕ → Outcome A
foreach f a [] = returns a
foreach f a (x ∷ xs) = do (a', more) ← f a x; if more then foreach f a' xs else returns a'

abbrev pub set_states : {Hash : Type 0} → Store Hash → ℕ → State → Store Hash
set_states m s new = record m { states = update m.states s new }

abbrev pub u32 : ℕ → ℕ
u32 n = n % 2 ^ 32

-- `_state_init_deduction_cb`
unfoldable pub init_deduction :
    {Hash : Type 0} → Store Hash → Cache Hash → ℕ → Outcome (Cache Hash × Bool)
init_deduction m k s =
    if (m.states s).check_to == 0
    then returns
        (record k { init_count = u32 (k.init_count + 1); init = some (m.states s).name }, true)
    else returns (k, true)

-- The last state found and the initial state of the machine.
unfoldable pub settle_found : Option Text → Option Text → Option Text × Bool
settle_found (some d) (some i) = if text_eq d i then (some d, true) else (some i, false)
settle_found (some d) none = (some d, true)
settle_found none (some i) = (some i, true)
settle_found none none = (none, false)

-- From the count of candidates to the initial state of the machine and `cache.ok`.
unfoldable pub settle_init : ℕ → Option Text → Option Text → Option Text × Bool
unfolding settle_found
settle_init count found init = if ltb 1 count then (init, false) else settle_found found init

module _ (E : Eina) where
  -- A state that a transition names, made if it is not there.
  unfoldable pub named_state : Store E.Hash → ℕ → Text → Outcome (Store E.Hash × ℕ)
  unfolding state_new
  named_state m f name = elim (E.find (m.fsms f).states name) [
    | some s ↦ returns (m, s)
    | none ↦ (do
      (m', s) ← deref (state_new E.calloc m name)
      let fsm = record (m'.fsms f) { states = put E (m'.fsms f).states name s }
      returns (record m' { fsms = update m'.fsms f fsm }, s))
  ]

  -- The state that a transition leaves, and one more transition that leaves it.
  unfoldable pub count_from : Store E.Hash → ℕ → Text → Outcome (Store E.Hash)
  count_from m f name = do
    (m', s) ← named_state m f name
    returns
        (set_states m' s (record (m'.states s) { check_from = u32 ((m'.states s).check_from + 1) }))

  -- The state that a transition leads to, and one more transition that leads to it.
  unfoldable pub count_to : Store E.Hash → ℕ → Text → Outcome (Store E.Hash)
  count_to m f name = do
    (m', s) ← named_state m f name
    returns (set_states m' s (record (m'.states s) { check_to = u32 ((m'.states s).check_to + 1) }))

  -- The check for a pair of states that is there already.
  unfoldable pub mark_pair :
      Store E.Hash → Cache E.Hash → Text → ℕ → Outcome ((Store E.Hash × Cache E.Hash) × Bool)
  mark_pair m k sh t = elim (E.find k.hash sh) [
    | some old ↦ returns ((m, record k { ok = false }), false)
    | none ↦ returns ((m, record k { hash = put E k.hash sh t }), true)
  ]

  -- `_state_deduction_cb`
  unfoldable pub state_deduction :
      Store E.Hash × Cache E.Hash → ℕ → Outcome ((Store E.Hash × Cache E.Hash) × Bool)
  state_deduction (m, k) t = do
    from ← deref (m.transits t).from
    m1 ← count_from m k.states from
    to ← deref (m1.transits t).to
    m2 ← count_to m1 k.states to
    sh ← pair_name from to
    mark_pair m2 k sh t

  -- `each` gives the elements of a table in the order of eina_hash_foreach.
  module _ (each : E.Hash → List ℕ) where
    -- The initial state of one machine.
    unfoldable pub check_init :
        Store E.Hash → Cache E.Hash → ℕ → Outcome (Store E.Hash × Cache E.Hash)
    check_init m k f = do
      k' ←
          foreach (init_deduction m) (record k { init = none; init_count = 0 })
            (each (m.fsms f).states)
      let (init, ok) = settle_init k'.init_count k'.init (m.fsms f).init
      returns (
        record m { fsms = update m.fsms f (record (m.fsms f) { init = init }) },
        record k' { ok = ok },
      )

    -- One turn of the loop over the machines.
    unfoldable pub check_machine :
        Store E.Hash → Cache E.Hash → ℕ → Outcome (Store E.Hash × Cache E.Hash)
    check_machine m k f = do
      (m1, k1) ←
          foreach state_deduction (m, record k { states = f; ok = true })
            (each (m.fsms f).transitions)
      if not k1.ok then returns (m1, k1) else check_init m1 k1 f

    -- The loop over the machines, which stops at the first that is not right.
    unfoldable pub check_all : Store E.Hash → Cache E.Hash → List ℕ → Outcome (Store E.Hash × Bool)
    check_all m k [] = returns (m, k.ok)
    check_all m k (f ∷ fs) = do
      (m', k') ← check_machine m k f
      if k'.ok then check_all m' k' fs else returns (m', false)

    -- estate_cc_check_states, where `unset` is the cache before it is written to
    unfoldable pub check_states :
        Cache E.Hash → Store E.Hash → List ℕ → Outcome (Store E.Hash × Bool)
    check_states unset m parse = do
      h ← deref E.hash_new
      check_all m (record unset { hash = h }) parse
