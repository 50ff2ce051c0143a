-- ===== src/Compiler/OutGc/Alloc.antt =====
-- The allocations that the code from src/bin/estate_cc_out_gc.c makes: each state and each
-- transition of a machine gets a slot, and each state room for its transitions.
pub mod Transitions
use estate.Base.{
  AreDistinct, All, ℕ, suc, ◌+◌, ◌≡◌, ◌≢◌, ◌<◌, ◌≤◌, refl, sym, subst, ap, ◌∙◌, Bool, true, false,
  Option, none, some, List, [], ◌∷◌, Text, length, replicate, text_eq_iff, text_eq_self, ◌==◌,
  if◌then◌else◌, arith,
}
use estate.Eina.{Eina}
use estate.Compiler.OutGc.{Statement, new_state, new_transition}
use estate.Compiler.OutGc.Exec.{Program, assign, step, new_state_step, new_transition_step, Runs}
use estate.Runtime.Types.{Machine, update}
use estate.Runtime.Mempool.{Sizes, Mempool, state_push, transition_push}
use estate.Runtime.Mempool.Layout.{IsPool, state_push_slot, transition_push_slot}
use estate.Runtime.Build.{state_new, transition_new}
use estate.Runtime.Outcome.{returns}

-- A machine under construction, made for `s` states and `t` transitions, with so many pushed and so
-- many registered.
pub record IsBuilt {H : Type 0} (z : Sizes) (s t k l i j : ℕ) (m : Machine H) : Type 0 where
  pub pool : IsPool z s t k l m.mempool
  pub states_reg : m.mempool.states_reg ≡ i
  pub transit_reg : m.mempool.transit_reg ≡ j
  pub states_count : m.states_count ≡ s
  pub transit_count : m.transit_count ≡ t
  pub unlocked : m.locked ≡ false

module _ (z : Sizes) (positive : 0 < z.state) {H : Type 0} (calloc : ℕ → Bool)
    (memory : (n : ℕ) → calloc n ≡ true) where
  -- The machine after a state was pushed.
  abbrev pub pushed : Machine H → ℕ → Machine H
  pushed m count =
      let p = m.mempool.stack_states in
      record m {
        mempool = (state_push z m.mempool).0;
        states = update m.states p (record (m.states p) {
          transit = if count == 0 then (m.states p).transit else replicate count none;
          transit_count = count;
        });
      }

  pub state_new-pushed :
      (s t k i j count : ℕ) (m : Machine H)
      → IsBuilt z s t k 0 i j m
      → k < s
      → (state_new z calloc m count ≡ returns (pushed m count, some m.mempool.stack_states))
        × IsBuilt z s t (suc k) 0 i j (pushed m count)
  unfolding state_new state_push
  state_new-pushed s t k i j count m b lt = (
    ground (arith, state_push_slot z s t k 0 m.mempool b.pool lt, b.pool.states_at, memory count),
    record {
      pool = (state_push_slot z s t k 0 m.mempool b.pool lt).0;
      states_reg = b.states_reg;
      transit_reg = b.transit_reg;
      states_count = b.states_count;
      transit_count = b.transit_count;
      unlocked = b.unlocked;
    },
  )

pub assign_self : (f : Text → Option ℕ) (n : Text) (v : Option ℕ) → assign f n v n ≡ v
assign_self f n v = rw (text_eq_self n)

pub assign_other : (f : Text → Option ℕ) (n x : Text) (v : Option ℕ) → x ≢ n → assign f n v x ≡ f x
assign_other f n x v d = ground (arith, text_eq_iff n x, d)

pub update_at {ℓ} : {A : Type ℓ} (g : ℕ → A) (a : ℕ) (v : A) → update g a v a ≡ v
update_at g a v = ground arith

pub update_below {ℓ} : {A : Type ℓ} (g : ℕ → A) (a b : ℕ) (v : A) → b < a → update g a v b ≡ g b
update_below g a b v lt = ground arith

pub state_push_moves :
    (z : Sizes) (mp : Mempool) → (state_push z mp).0.stack_states ≡ mp.stack_states + z.state
unfolding state_push
state_push_moves z mp = refl

-- The names stand for addresses from `low` on, each above the one before.
abbrev pub Ascending : ℕ → (Text → Option ℕ) → List Text → Type 0
Ascending low f [] = Unit
Ascending low f (n ∷ ns) = (a : ℕ) × (f n ≡ some a) × (low ≤ a) × Ascending (suc a) f ns

pub Ascending-mono :
    (ns : List Text) (low high : ℕ) (f : Text → Option ℕ)
    → low ≤ high
    → Ascending high f ns
    → Ascending low f ns
Ascending-mono [] low high f le a = tt
Ascending-mono (n ∷ ns) low high f le (a, e, l, r) = (a, e, omega arith, r)

-- The allocations for names with their numbers of transitions.
abbrev pub allocs : List (Text × ℕ) → List Statement
allocs [] = []
allocs ((n, c) ∷ xs) = new_state n c ∷ allocs xs

abbrev pub firsts : List (Text × ℕ) → List Text
firsts [] = []
firsts ((n, c) ∷ xs) = n ∷ firsts xs

module _ (z : Sizes) (positive : 0 < z.state) (E : Eina) (malloc : ℕ → Option ℕ) (calloc : ℕ → Bool)
    (memory : (n : ℕ) → calloc n ≡ true) (function : Text → ℕ) where
  -- The states of `xs` have been made.
  pub record Made (s t k i j : ℕ) (p q : Program E.Hash) (m m' : Machine E.Hash)
      (xs : List (Text × ℕ)) : Type 0 where
    pub runs : Runs z E malloc calloc function p (allocs xs) q
    pub fsm : q.fsm ≡ some m'
    pub built : IsBuilt z s t (k + length xs) 0 i j m'
    pub transits : q.transits ≡ p.transits
    pub others : (x : Text) → All (λ y. x ≢ y) (firsts xs) → q.states x ≡ p.states x
    pub kept : (a : ℕ) → a < m.mempool.stack_states → m'.states a ≡ m.states a
    pub order : Ascending m.mempool.stack_states q.states (firsts xs)
    pub given :
        All (λ (n, c). (a : ℕ) × (q.states n ≡ some a) × ((m'.states a).transit_count ≡ c)) xs

  pub step-new_state :
      (s t k i j : ℕ) (p : Program E.Hash) (m : Machine E.Hash) (n : Text) (count : ℕ)
      → p.fsm ≡ some m
      → IsBuilt z s t k 0 i j m
      → k < s
      → step z E malloc calloc function p (new_state n count)
        ≡ returns (
            some (record p {
              states = assign p.states n (some m.mempool.stack_states);
              fsm = some (pushed z positive calloc memory m count);
            }))
  unfolding step new_state_step
  step-new_state s t k i j p m n count e b lt =
      rw (e, step) (rw ((state_new-pushed z positive calloc memory s t k i j count m b lt).0, step))

  pub alloc-Made :
      (xs : List (Text × ℕ)) (s t k i j : ℕ) (p : Program E.Hash) (m : Machine E.Hash)
      → p.fsm ≡ some m
      → IsBuilt z s t k 0 i j m
      → k + length xs ≤ s
      → AreDistinct (firsts xs)
      → (q : Program E.Hash) × (m' : Machine E.Hash) × Made s t k i j p q m m' xs
  alloc-Made [] s t k i j p m e b le d = (
    p,
    m,
    record {
      runs = refl;
      fsm = e;
      built = subst (λ x. IsBuilt z s t x 0 i j m) (omega arith) b;
      transits = refl;
      others = λ x a. refl;
      kept = λ a lt. refl;
      order = tt;
      given = tt;
    },
  )
  alloc-Made ((n, c) ∷ xs) s t k i j p m e b le d =
      let lt : k < s = omega arith in
      let m1 = pushed z positive calloc memory m c in
      let p1 = record p {
        states = assign p.states n (some m.mempool.stack_states);
        fsm = some m1;
      } in
      let b1 = (state_new-pushed z positive calloc memory s t k i j c m b lt).1 in
      let below : m.mempool.stack_states < m1.mempool.stack_states =
        omega (arith, state_push_moves z m.mempool) in
      let (q, m', r) = alloc-Made xs s t (suc k) i j p1 m1 refl b1 (omega arith) d.1 in
      let at = r.others n d.0 ∙ assign_self p.states n (some m.mempool.stack_states) in
      (
        q,
        m',
        record {
          runs = (p1, step-new_state s t k i j p m n c e b lt, r.runs);
          fsm = r.fsm;
          built = subst (λ x. IsBuilt z s t x 0 i j m') (omega arith) r.built;
          transits = r.transits;
          others =
              λ x a. r.others x a.1 ∙ assign_other p.states n x (some m.mempool.stack_states) a.0;
          kept = λ a lt.
              r.kept a (omega (arith, below)) ∙ update_below m.states m.mempool.stack_states a _ lt;
          order = (
            m.mempool.stack_states,
            at,
            omega arith,
            Ascending-mono (firsts xs) _ m1.mempool.stack_states q.states below r.order,
          );
          given = (
            (
              m.mempool.stack_states,
              at,
              ap (λ x. x.transit_count)
                  (r.kept m.mempool.stack_states below
                    ∙ update_at m.states m.mempool.stack_states _),
            ),
            r.given,
          );
        },
      )
