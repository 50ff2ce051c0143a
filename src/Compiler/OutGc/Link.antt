-- ===== src/Compiler/OutGc/Link.antt =====
-- The calls that fill in the transitions in the code from src/bin/estate_cc_out_gc.c.
pub mod Transitions
use estate.Base.{
  All, ℕ, suc, ◌+◌, ◌^◌, ◌≡◌, ◌<◌, ◌≤◌, refl, sym, subst, ap, ◌∙◌, Bool, true, Option, none, some,
  List, [], ◌∷◌, Text, length, arith,
}
use estate.Eina.{Eina}
use estate.Compiler.Data.{Cb}
use estate.Compiler.OutGc.{Statement, init_transition}
use estate.Compiler.OutGc.Exec.{Program, step, add_transition, checked, Runs}
use estate.Compiler.OutGc.Alloc.{IsBuilt, Ascending, update_at, update_below}
use estate.Compiler.OutGc.Fill.{FitsKey, CallsBack, ctor_of, ctor-fits, share-fits}
use estate.Runtime.Types.{
  CbWrapper, Wrapper, transition_cb, transition_enterer, transition_exiter, Transition, Machine,
  update, update_wrapper, cb_ok,
}
use estate.Runtime.Mempool.{Sizes}
use estate.Runtime.Build.{machine_transition_add, u32}
use estate.Runtime.Init.{
  transition_init, wrap_transition_cb, wrap_transition_enterer, wrap_transition_exiter, exiter_key,
}
use estate.Runtime.Outcome.{returns}

-- A transition of a machine as the generator describes it.
pub record TransitionPlan : Type 0 where
  pub name : Text
  pub from : Text
  pub to : Text
  pub cb : Cb
  pub enterer : Cb
  pub exiter : Cb

abbrev pub init_transitions : List TransitionPlan → List Statement
init_transitions [] = []
init_transitions (x ∷ xs) =
    init_transition x.name (some x.from) (some x.to) x.cb x.enterer x.exiter ∷ init_transitions xs

abbrev pub transition_names : List TransitionPlan → List Text
transition_names [] = []
transition_names (x ∷ xs) = x.name ∷ transition_names xs

-- In the memory `tr`, each transition is as the plan gives it, for the variables of states and of
-- transitions.
abbrev pub TransitionsHold :
    (Text → ℕ)
    → (Text → Option ℕ)
    → (Text → Option ℕ)
    → (ℕ → Transition)
    → (Wrapper → CbWrapper)
    → List TransitionPlan
    → Type 0
TransitionsHold function s t tr wr xs =
    All
      (λ x.
        (a : ℕ) × (f : ℕ) × (u : ℕ) × (t x.name ≡ some a)
        × (s x.from ≡ some f)
        × (s x.to ≡ some u)
        × (tr a ≡ record { name = some x.name; from = some f; to = some u })
        × CallsBack function (wr (transition_cb a)) x.cb
        × CallsBack function (wr (transition_enterer a)) x.enterer
        × CallsBack function (wr (transition_exiter a)) x.exiter)
      xs

module _ (function : Text → ℕ) where
  abbrev relinked : CbWrapper → Cb → CbWrapper
  relinked w cb = record w { func = (ctor_of function cb).func; key = cb.value }

  wrap-cb :
      (w : CbWrapper) (cb : Cb)
      → wrap_transition_cb w (some (ctor_of function cb)) ≡ returns (relinked w cb)
  unfolding wrap_transition_cb
  wrap-cb w cb = ground (arith, share-fits cb.value)

  wrap-enterer :
      (w : CbWrapper) (cb : Cb)
      → wrap_transition_enterer w (some (ctor_of function cb))
        ≡ returns (record (relinked w cb) { result = cb_ok })
  unfolding wrap_transition_enterer
  wrap-enterer w cb = ground (arith, share-fits cb.value)

  wrap-exiter :
      (w : CbWrapper) (e cb : Cb)
      → cb.value ≡ none
      → wrap_transition_exiter w (some (ctor_of function e)) (some (ctor_of function cb))
        ≡ returns (record w { func = (ctor_of function cb).func; key = none; result = cb_ok })
  unfolding wrap_transition_exiter exiter_key
  wrap-exiter w e cb keyless = ground (arith, keyless)

module _ {H : Type 0} (function : Text → ℕ) where
  -- The machine after estate_transition_init and estate_machine_transition_add.
  abbrev pub linked : Machine H → ℕ → TransitionPlan → ℕ → ℕ → Machine H
  linked m a x f t = record m {
    mempool = record (m.mempool) { transit_reg = u32 (m.mempool.transit_reg + 1) };
    transits = update m.transits a (record { name = some x.name; from = some f; to = some t });
    wrappers =
        update_wrapper
          (update_wrapper
            (update_wrapper m.wrappers (transition_cb a)
              (relinked function (m.wrappers (transition_cb a)) x.cb))
            (transition_enterer a)
            (record (relinked function (m.wrappers (transition_enterer a)) x.enterer) {
              result = cb_ok;
            }))
          (transition_exiter a)
          (record (m.wrappers (transition_exiter a)) {
            func = (ctor_of function x.exiter).func;
            key = none;
            result = cb_ok;
          });
  }

  abbrev initialised : Machine H → ℕ → TransitionPlan → ℕ → ℕ → Machine H
  initialised m a x f t = record (linked m a x f t) { mempool = m.mempool }

  pub transition_init-linked :
      (m : Machine H) (a : ℕ) (x : TransitionPlan) (f t : ℕ)
      → x.exiter.value ≡ none
      → transition_init m
          (some a)
          (some x.name)
          (some f)
          (some t)
          (some (ctor_of function x.cb))
          (some (ctor_of function x.enterer))
          (some (ctor_of function x.exiter))
        ≡ returns (initialised m a x f t, true)
  unfolding transition_init
  transition_init-linked m a x f t keyless =
      rw (wrap-cb function (m.wrappers (transition_cb a)) x.cb, transition_init)
        (rw (wrap-enterer function (m.wrappers (transition_enterer a)) x.enterer, transition_init)
          (rw (
            wrap-exiter function (m.wrappers (transition_exiter a)) x.enterer x.exiter keyless,
            transition_init,
          )))

  pub transition_add-linked :
      (z : Sizes) (s n k l i j : ℕ) (m : Machine H) (a : ℕ) (x : TransitionPlan) (f t : ℕ)
      → IsBuilt z s n k l i j m
      → j < n
      → n < 2 ^ 32
      → (machine_transition_add (initialised m a x f t) (some a) ≡ (linked m a x f t, true))
        × IsBuilt z s n k l i (suc j) (linked m a x f t)
  unfolding machine_transition_add
  transition_add-linked z s n k l i j m a x f t b lt le = (
    ground (arith, b.unlocked, b.transit_reg, b.transit_count),
    record {
      pool = record {
        states_at = b.pool.states_at;
        transits_at = b.pool.transits_at;
        end_at = b.pool.end_at;
      };
      states_reg = b.states_reg;
      transit_reg = ground (arith, b.transit_reg);
      states_count = b.states_count;
      transit_count = b.transit_count;
      unlocked = b.unlocked;
    },
  )
