-- ===== src/Compiler/OutGc/Alloc/Transitions.antt =====
-- The allocations of transitions in the code from src/bin/estate_cc_out_gc.c.
use estate.Base.{
  AreDistinct, All, ℕ, suc, ◌+◌, ◌≡◌, ◌≢◌, ◌<◌, ◌≤◌, refl, sym, subst, ap, ◌∙◌, Bool, Option, some,
  List, [], ◌∷◌, Text, length, arith,
}
use estate.Eina.{Eina}
use estate.Compiler.OutGc.{Statement, new_transition}
use estate.Compiler.OutGc.Exec.{Program, assign, step, new_transition_step, Runs}
use estate.Runtime.Types.{Machine}
use estate.Runtime.Mempool.{Sizes, Mempool, transition_push}
use estate.Runtime.Mempool.Layout.{transition_push_slot}
use estate.Runtime.Build.{transition_new}
use estate.Runtime.Outcome.{returns}
use estate.Compiler.OutGc.Alloc.{IsBuilt, assign_self, assign_other, Ascending, Ascending-mono}

-- The allocations for the names of transitions.
abbrev pub transition_allocs : List Text → List Statement
transition_allocs [] = []
transition_allocs (n ∷ ns) = new_transition n ∷ transition_allocs ns

transition_push_moves :
    (z : Sizes) (mp : Mempool)
    → (transition_push z mp).0.stack_transits ≡ mp.stack_transits + z.transition
unfolding transition_push
transition_push_moves z mp = refl

module _ (z : Sizes) (positive : 0 < z.transition) (E : Eina) (malloc : ℕ → Option ℕ)
    (calloc : ℕ → Bool) (function : Text → ℕ) where
  -- The transitions of `ns` have been made.
  pub record MadeTransitions (s t k l i j : ℕ) (p q : Program E.Hash) (m m' : Machine E.Hash)
      (ns : List Text) : Type 0 where
    pub runs : Runs z E malloc calloc function p (transition_allocs ns) q
    pub fsm : q.fsm ≡ some m'
    pub built : IsBuilt z s t k (l + length ns) i j m'
    pub states : q.states ≡ p.states
    pub kept : m'.states ≡ m.states
    pub others : (x : Text) → All (λ y. x ≢ y) ns → q.transits x ≡ p.transits x
    pub order : Ascending m.mempool.stack_transits q.transits ns

  -- The machine after a transition was pushed.
  abbrev pushed_transition : Machine E.Hash → Machine E.Hash
  pushed_transition m = record m { mempool = (transition_push z m.mempool).0 }

  step-new_transition :
      (s t k l i j : ℕ) (p : Program E.Hash) (m : Machine E.Hash) (n : Text)
      → p.fsm ≡ some m
      → IsBuilt z s t k l i j m
      → l < t
      → step z E malloc calloc function p (new_transition n)
        ≡ returns (
            some (record p {
              transits = assign p.transits n (some m.mempool.stack_transits);
              fsm = some (pushed_transition m);
            }))
  unfolding step new_transition_step transition_new
  step-new_transition s t k l i j p m n e b lt =
      let (pool, slot) = transition_push_slot z s t k l m.mempool b.pool lt in
      let slot' : (transition_push z m.mempool).1 ≡ some m.mempool.stack_transits =
        slot ∙ ap (λ x. some x) (sym b.pool.transits_at) in
      rw (e, step) (rw (slot', step))

  pushed_transition-IsBuilt :
      (s t k l i j : ℕ) (m : Machine E.Hash)
      → IsBuilt z s t k l i j m
      → l < t
      → IsBuilt z s t k (suc l) i j (pushed_transition m)
  unfolding transition_push
  pushed_transition-IsBuilt s t k l i j m b lt = record {
    pool = (transition_push_slot z s t k l m.mempool b.pool lt).0;
    states_reg = b.states_reg;
    transit_reg = b.transit_reg;
    states_count = b.states_count;
    transit_count = b.transit_count;
    unlocked = b.unlocked;
  }

  pub transition_alloc-Made :
      (ns : List Text) (s t k l i j : ℕ) (p : Program E.Hash) (m : Machine E.Hash)
      → p.fsm ≡ some m
      → IsBuilt z s t k l i j m
      → l + length ns ≤ t
      → AreDistinct ns
      → (q : Program E.Hash) × (m' : Machine E.Hash) × MadeTransitions s t k l i j p q m m' ns
  transition_alloc-Made [] s t k l i j p m e b le d = (
    p,
    m,
    record {
      runs = refl;
      fsm = e;
      built = subst (λ x. IsBuilt z s t k x i j m) (omega arith) b;
      states = refl;
      kept = refl;
      others = λ x a. refl;
      order = tt;
    },
  )
  transition_alloc-Made (n ∷ ns) s t k l i j p m e b le d =
      let lt : l < t = omega arith in
      let m1 = pushed_transition m in
      let p1 = record p {
        transits = assign p.transits n (some m.mempool.stack_transits);
        fsm = some m1;
      } in
      let b1 = pushed_transition-IsBuilt s t k l i j m b lt in
      let below : m.mempool.stack_transits < m1.mempool.stack_transits =
        omega (arith, transition_push_moves z m.mempool) in
      let (q, m', r) = transition_alloc-Made ns s t k (suc l) i j p1 m1 refl b1 (omega arith) d.1 in
      (
        q,
        m',
        record {
          runs = (p1, step-new_transition s t k l i j p m n e b lt, r.runs);
          fsm = r.fsm;
          built = subst (λ x. IsBuilt z s t k x i j m') (omega arith) r.built;
          states = r.states;
          kept = r.kept;
          others = λ x a.
              r.others x a.1 ∙ assign_other p.transits n x (some m.mempool.stack_transits) a.0;
          order = (
            m.mempool.stack_transits,
            r.others n d.0 ∙ assign_self p.transits n (some m.mempool.stack_transits),
            omega arith,
            Ascending-mono ns _ m1.mempool.stack_transits q.transits below r.order,
          );
        },
      )
