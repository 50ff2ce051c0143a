-- ===== src/Runtime/Mempool.antt =====
-- src/lib/estate_mempool.c: one allocation that holds the machine, its states and its transitions.
pub mod Layout
use estate.Base.{
  ℕ, zero, suc, ◌+◌, ◌-◌, ◌*◌, ◌%◌, ◌^◌, Option, none, some, List, [], ◌∷◌, ◌++◌, ltb, ◌==◌,
  if◌then◌else◌,
}

-- The sizes that the compiler gives to the structures.
pub record Sizes : Type 0 where
  pub mempool : ℕ
  pub machine : ℕ
  pub state : ℕ
  pub transition : ℕ

pub record Mempool : Type 0 where
  pub base : ℕ
  pub stack_states : ℕ
  pub stack_transits : ℕ
  pub end : ℕ
  pub states_reg : ℕ
  pub transit_reg : ℕ

-- size_t arithmetic wraps at 64 bits.
abbrev pub size_t : ℕ → ℕ
size_t n = n % 2 ^ 64

-- The size that is asked of malloc.
unfoldable pub mem_size : Sizes → ℕ → ℕ → ℕ
mem_size z states transitions =
    size_t (z.mempool + z.machine + size_t (z.state * states) + size_t (z.transition * transitions))

-- for (i = 0; i < n; ++i) { ptr -= size; free (ptr); }
unfoldable pub walk_down : ℕ → ℕ → ℕ → List ℕ
walk_down size ptr zero = []
walk_down size ptr (suc n) = (ptr - size) ∷ walk_down size (ptr - size) n

module _ (z : Sizes) where
  -- `malloc` is the allocator: it is given the size, and `none` is NULL.
  unfoldable pub mempool_new : (ℕ → Option ℕ) → ℕ → ℕ → Option Mempool
  unfolding mem_size
  mempool_new malloc states transitions =
      if states == 0
      then none
      else if transitions == 0
      then none
      else elim (malloc (mem_size z states transitions)) [
        | none ↦ none
        | some mp ↦
            let base = mp + z.mempool in
            let stack_states = base + z.machine in
            some (record {
              base = base;
              stack_states = stack_states;
              stack_transits = stack_states + size_t (z.state * states);
              end = mp + mem_size z states transitions;
              states_reg = 0;
              transit_reg = 0;
            })
      ]

  -- The stack pointer moves also where the push fails.
  unfoldable pub state_push : Mempool → Mempool × Option ℕ
  state_push mp =
      let moved = record mp { stack_states = mp.stack_states + z.state } in
      (moved, if ltb mp.stack_transits moved.stack_states then none else some mp.stack_states)

  unfoldable pub transition_push : Mempool → Mempool × Option ℕ
  transition_push mp =
      let moved = record mp { stack_transits = mp.stack_transits + z.transition } in
      (moved, if ltb mp.end moved.stack_transits then none else some mp.stack_transits)

  -- The addresses that are released as transitions, and those that are released as states.
  unfoldable pub mempool_free : Mempool → List ℕ × List ℕ
  unfolding walk_down
  mempool_free mp = (
    walk_down z.transition mp.stack_transits mp.transit_reg,
    walk_down z.state mp.stack_states mp.states_reg,
  )
