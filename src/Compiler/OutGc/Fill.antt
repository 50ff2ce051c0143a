-- ===== src/Compiler/OutGc/Fill.antt =====
-- The calls that fill in the states and transitions in the code from src/bin/estate_cc_out_gc.c.
pub mod States
use estate.Base.{
  All, take-length, ℕ, suc, ◌+◌, ◌^◌, ◌≡◌, ◌<◌, ◌≤◌, ◌⊎◌, inl, inr, refl, sym, subst, ap, ◌∙◌, Bool,
  true, Option, none, some, List, [], ◌∷◌, Text, length, ==_self, arith,
}
use estate.Eina.{Eina}
use estate.Compiler.Data.{Cb}
use estate.Compiler.OutGc.{Statement, init_state}
use estate.Compiler.OutGc.Exec.{
  Program, addresses, array_of, function_of, ctor, step, add_state, checked, Runs,
}
use estate.Compiler.OutGc.Alloc.{IsBuilt, Ascending, update_at, update_below}
use estate.Runtime.Types.{
  CbCtor, CbWrapper, Wrapper, state_enterer, state_exiter, State, Machine, update, update_wrapper,
  cb_ok,
}
use estate.Runtime.Mempool.{Sizes}
use estate.Runtime.Build.{share, machine_state_add, u32}
use estate.Runtime.Init.{state_init, copy_transitions, wrap_state}
use estate.Runtime.Outcome.{returns}

-- The key of a callback fits the buffer of the generator.
abbrev pub FitsKey : Option Text → Type 0
FitsKey none = Unit
FitsKey (some t) = length t ≤ 125

abbrev key_length : Option Text → ℕ
key_length none = 0
key_length (some t) = length t

abbrev pub ctor_of : (Text → ℕ) → Cb → CbCtor
ctor_of function cb = record {
  func = function_of function cb.func;
  key = cb.value;
  key_len = key_length cb.value;
}

pub ctor-fits :
    (function : Text → ℕ) (cb : Cb)
    → FitsKey cb.value
    → ctor function cb ≡ returns (ctor_of function cb)
ctor-fits function cb h = ground (arith, h)

pub share-fits : (key : Option Text) → share key (key_length key) ≡ returns key
share-fits none = refl
share-fits (some t) = ground (arith, take-length t)

pub length-addresses : (f : Text → Option ℕ) (ns : List Text) → length (addresses f ns) ≡ length ns
length-addresses f [] = refl
length-addresses f (n ∷ ns) = ap suc (length-addresses f ns)

-- The array of a state after the copy.
abbrev copied : List (Option ℕ) → List (Option ℕ) → List (Option ℕ)
copied old [] = old
copied old (a ∷ as') = a ∷ as'

copy-copied :
    (old new : List (Option ℕ))
    → copy_transitions old (array_of new) (length new) ≡ returns (copied old new)
unfolding copy_transitions
copy-copied old [] = refl
copy-copied old (a ∷ new) = ground (arith, take-length (a ∷ new))

pub copied-addresses :
    (f : Text → Option ℕ) (old : List (Option ℕ)) (ns : List Text)
    → (copied old (addresses f ns) ≡ addresses f ns) ⊎ (ns ≡ [])
copied-addresses f old [] = inr refl
copied-addresses f old (n ∷ ns) = inl refl

-- A wrapper that a constructor has filled in.
abbrev pub wrapper_of : CbCtor → CbWrapper
wrapper_of c = record { func = c.func; user_data = none; key = c.key; result = cb_ok }

wrap-fits :
    (function : Text → ℕ) (w : CbWrapper) (cb : Cb)
    → wrap_state w (some (ctor_of function cb)) ≡ returns (wrapper_of (ctor_of function cb))
unfolding wrap_state
wrap-fits function w cb = ground (arith, share-fits cb.value)

-- A state of a machine as the generator describes it.
pub record StatePlan : Type 0 where
  pub name : Text
  pub trs : List Text
  pub enterer : Cb
  pub exiter : Cb

abbrev pub init_states : List StatePlan → List Statement
init_states [] = []
init_states (x ∷ xs) = init_state x.name x.trs x.enterer x.exiter ∷ init_states xs

abbrev pub state_names : List StatePlan → List Text
state_names [] = []
state_names (x ∷ xs) = x.name ∷ state_names xs

-- A wrapper has the function and the key of a callback.
abbrev pub CallsBack : (Text → ℕ) → CbWrapper → Cb → Type 0
CallsBack function w cb = (w.func ≡ function_of function cb.func) × (w.key ≡ cb.value)

-- In the memory `st` with the wrappers `wr`, each state is as the plan gives it, for the variables of
-- states and of transitions.
abbrev pub StatesHold :
    (Text → ℕ)
    → (Text → Option ℕ)
    → (Text → Option ℕ)
    → (ℕ → State)
    → (Wrapper → CbWrapper)
    → List StatePlan
    → Type 0
StatesHold function s t st wr xs =
    All
      (λ x.
        (a : ℕ) × (s x.name ≡ some a)
        × ((st a).name ≡ some x.name)
        × (((st a).transit ≡ addresses t x.trs) ⊎ (x.trs ≡ []))
        × CallsBack function (wr (state_enterer a)) x.enterer
        × CallsBack function (wr (state_exiter a)) x.exiter)
      xs

module _ {H : Type 0} (function : Text → ℕ) where
  -- The machine after estate_state_init and estate_machine_state_add.
  abbrev pub filled : Machine H → ℕ → StatePlan → List (Option ℕ) → Machine H
  filled m a x new = record m {
    mempool = record (m.mempool) { states_reg = u32 (m.mempool.states_reg + 1) };
    states =
        update m.states a
          (record (m.states a) { name = some x.name; transit = copied (m.states a).transit new });
    wrappers =
        update_wrapper
          (update_wrapper m.wrappers (state_enterer a) (wrapper_of (ctor_of function x.enterer)))
          (state_exiter a) (wrapper_of (ctor_of function x.exiter));
  }

  -- The same without the second of the calls.
  abbrev initialised : Machine H → ℕ → StatePlan → List (Option ℕ) → Machine H
  initialised m a x new = record (filled m a x new) { mempool = m.mempool }

  pub state_init-filled :
      (m : Machine H) (a : ℕ) (x : StatePlan) (new : List (Option ℕ))
      → (m.states a).transit_count ≡ length new
      → state_init m
          (some a)
          (some x.name)
          (array_of new)
          (length new)
          (some (ctor_of function x.enterer))
          (some (ctor_of function x.exiter))
        ≡ returns (initialised m a x new, true)
  unfolding state_init
  state_init-filled m a x new count =
      rw (count, state_init)
        (rw (==_self (length new), state_init)
          (rw (copy-copied (m.states a).transit new, state_init)
            (rw (wrap-fits function (m.wrappers (state_enterer a)) x.enterer, state_init)
              (rw (wrap-fits function (m.wrappers (state_exiter a)) x.exiter, state_init)))))

  pub state_add-filled :
      (z : Sizes) (s t k l i j : ℕ) (m : Machine H) (a : ℕ) (x : StatePlan) (new : List (Option ℕ))
      → IsBuilt z s t k l i j m
      → i < s
      → s < 2 ^ 32
      → (machine_state_add (initialised m a x new) (some a) ≡ (filled m a x new, true))
        × IsBuilt z s t k l (suc i) j (filled m a x new)
  unfolding machine_state_add
  state_add-filled z s t k l i j m a x new b lt le = (
    ground (arith, b.unlocked, b.states_reg, b.states_count),
    record {
      pool = record {
        states_at = b.pool.states_at;
        transits_at = b.pool.transits_at;
        end_at = b.pool.end_at;
      };
      states_reg = ground (arith, b.states_reg);
      transit_reg = b.transit_reg;
      states_count = b.states_count;
      transit_count = b.transit_count;
      unlocked = b.unlocked;
    },
  )
