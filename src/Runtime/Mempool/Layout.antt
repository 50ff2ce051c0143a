-- ===== src/Runtime/Mempool/Layout.antt =====
-- The slots that the allocator of estate_mempool.c hands out and takes back.
use estate.Base.{
  ℕ, zero, suc, ◌+◌, ◌-◌, ◌*◌, ◌^◌, ◌≤◌, ◌<◌, ◌≡◌, refl, Option, none, some, List, [], ◌∷◌, arith,
}
use estate.Runtime.Mempool.{
  Sizes, Mempool, mempool_new, state_push, transition_push, walk_down, mempool_free,
}

-- The addresses of `n` slots from `first` on, the last first.
abbrev pub slots_down : ℕ → ℕ → ℕ → List ℕ
slots_down first size zero = []
slots_down first size (suc n) = (first + n * size) ∷ slots_down first size n

walk_down_slots :
    (n first size ptr : ℕ) → ptr ≡ first + n * size → walk_down size ptr n ≡ slots_down first size n
unfolding walk_down
walk_down_slots zero first size ptr e = refl
walk_down_slots (suc n) first size ptr e =
    ground (arith, step, walk_down_slots n first size (ptr - size) step)
  where
    step : ptr - size ≡ first + n * size
    step = grind arith

module _ (z : Sizes) where
  -- The pool has room for `s` states and `t` transitions, and `k` states and `l` transitions have
  -- been pushed.
  pub record IsPool (s t k l : ℕ) (mp : Mempool) : Type 0 where
    pub states_at : mp.stack_states ≡ mp.base + z.machine + k * z.state
    pub transits_at : mp.stack_transits ≡ mp.base + z.machine + s * z.state + l * z.transition
    pub end_at : mp.end ≡ mp.base + z.machine + s * z.state + t * z.transition

  -- The structures are small enough for a 64-bit size of 32-bit counts.
  pub record IsSmall : Type 0 where
    pub headers : z.mempool + z.machine < 2 ^ 31
    pub state_size : z.state < 2 ^ 30
    pub transition_size : z.transition < 2 ^ 30

  mul_bound : (a b : ℕ) → a < 2 ^ 30 → b < 2 ^ 32 → a * b < 2 ^ 62
  mul_bound a b h k = grind arith

  -- A new pool is laid out with no slot handed out, for counts that are not 0 and fit 32 bits.
  pub mempool_new-IsPool :
      (malloc : ℕ → Option ℕ) (s t : ℕ) (mp : Mempool)
      → IsSmall
      → s < 2 ^ 32
      → t < 2 ^ 32
      → mempool_new z malloc s t ≡ some mp
      → IsPool s t 0 0 mp × (mp.states_reg ≡ 0) × (mp.transit_reg ≡ 0) × (0 < s) × (0 < t)
  unfolding mempool_new
  mempool_new-IsPool malloc s t mp small hs ht e =
      ground (arith, mul_bound z.state s, mul_bound z.transition t)

  -- The k-th state push hands out slot k and keeps the layout.
  pub state_push_slot :
      (s t k l : ℕ) (mp : Mempool)
      → IsPool s t k l mp
      → k < s
      → IsPool s t (suc k) l (state_push z mp).0
        × ((state_push z mp).1 ≡ some (mp.base + z.machine + k * z.state))
  unfolding state_push
  state_push_slot s t k l mp v h = grind arith

  -- The l-th transition push hands out slot l behind the states, and keeps the layout.
  pub transition_push_slot :
      (s t k l : ℕ) (mp : Mempool)
      → IsPool s t k l mp
      → l < t
      → IsPool s t k (suc l) (transition_push z mp).0
        × ((transition_push z mp).1 ≡ some (mp.base + z.machine + s * z.state + l * z.transition))
  unfolding transition_push
  transition_push_slot s t k l mp v h = grind arith

  -- When every transition slot has been handed out, a push of a transition returns NULL. When every
  -- state slot has been handed out and no transition has been pushed yet, a push of a state does.
  pub push_full :
      (s t k : ℕ) (mp mp' : Mempool)
      → IsPool s t k t mp
      → IsPool s t s 0 mp'
      → 0 < z.state
      → 0 < z.transition
      → ((transition_push z mp).1 ≡ none) × ((state_push z mp').1 ≡ none)
  unfolding state_push transition_push
  push_full s t k mp mp' v w hs ht = (grind arith, grind arith)

  -- With all states pushed, and then as many transitions as take the room of one state, one more
  -- state push succeeds. The slot that it returns is that of the first transition.
  pub state_push_overlap :
      (s t l : ℕ) (mp : Mempool)
      → IsPool s t s l mp
      → z.state ≤ l * z.transition
      → (state_push z mp).1 ≡ some (mp.base + z.machine + s * z.state + 0 * z.transition)
  unfolding state_push
  state_push_overlap s t l mp v h = grind arith

  -- If all that was pushed was also registered, releasing the pool visits every transition slot
  -- and every state slot that was handed out, once each and no other address.
  pub mempool_free-slots :
      (s t k l : ℕ) (mp : Mempool)
      → IsPool s t k l mp
      → mp.states_reg ≡ k
      → mp.transit_reg ≡ l
      → mempool_free z mp ≡ (
        slots_down (mp.base + z.machine + s * z.state) z.transition l,
        slots_down (mp.base + z.machine) z.state k,
      )
  unfolding mempool_free
  mempool_free-slots s t k l mp v hk hl = ground (
    arith,
    walk_down_slots l (mp.base + z.machine + s * z.state) z.transition mp.stack_transits
        v.transits_at,
    walk_down_slots k (mp.base + z.machine) z.state mp.stack_states v.states_at,
  )
