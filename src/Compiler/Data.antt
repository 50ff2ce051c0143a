-- ===== src/Compiler/Data.antt =====
-- The structures of src/bin/estate_cc.h and their constructors, src/bin/estate_cc_misc.c. Objects
-- stand in memory, which the parser carries as functions from addresses, and calloc takes the next
-- address.
use estate.Base.{Bool, List, [], ℕ, ◌+◌, Option, none, some, Text, ◌==◌, if◌then◌else◌}
use estate.Eina.{Eina}

-- `value` is the field `data`.
pub record Cb : Type 0 where
  pub func : Option Text
  pub value : Option Text

-- `trs` is the array of the code generator, and its length is `trs_count`.
pub record State : Type 0 where
  pub name : Text
  pub enterer : Cb
  pub exiter : Cb
  pub check_from : ℕ
  pub check_to : ℕ
  pub trs : List ℕ

pub record Transit : Type 0 where
  pub name : Text
  pub from : Option Text
  pub to : Option Text
  pub cb : Cb
  pub enterer : Cb
  pub exiter : Cb

pub record Fsm (Hash : Type 0) : Type 0 where
  pub name : Text
  pub transitions : Hash
  pub states : Hash
  pub data_keys : Hash
  pub init : Option Text

-- The memory for each type of object; `next` is the next free address.
pub record Store (Hash : Type 0) : Type 0 where
  pub fsms : ℕ → Fsm Hash
  pub transits : ℕ → Transit
  pub states : ℕ → State
  pub next : ℕ

abbrev pub update {ℓ} : {A : Type ℓ} → (ℕ → A) → ℕ → A → ℕ → A
update f p a q = if p == q then a else f q

abbrev pub no_cb : Cb
no_cb = record { func = none; value = none }

-- What state_new and transit_new write to the memory that calloc gave.
abbrev pub new_state : Text → State
new_state name = record {
  name = name;
  enterer = no_cb;
  exiter = no_cb;
  check_from = 0;
  check_to = 0;
  trs = [];
}

abbrev pub new_transit : Text → Transit
new_transit name = record {
  name = name;
  from = none;
  to = none;
  cb = no_cb;
  enterer = no_cb;
  exiter = no_cb;
}

-- The constructors of src/bin/estate_cc_misc.c. They do not look at what calloc gives: `none` is a write
-- through a NULL pointer.
module _ {Hash : Type 0} (calloc : ℕ → Bool) where
  unfoldable pub state_new : Store Hash → Text → Option (Store Hash × ℕ)
  state_new m name =
      if calloc m.next
      then some
          (record m { states = update m.states m.next (new_state name); next = m.next + 1 }, m.next)
      else none

  unfoldable pub transit_new : Store Hash → Text → Option (Store Hash × ℕ)
  transit_new m name =
      if calloc m.next
      then some (
        record m { transits = update m.transits m.next (new_transit name); next = m.next + 1 },
        m.next,
      )
      else none

  -- `h` is what eina_hash_stringshared_new gives, each time.
  unfoldable pub fsm_new : Hash → Store Hash → Text → Option (Store Hash × ℕ)
  fsm_new h m name =
      let f : Fsm Hash = record {
        name = name;
        transitions = h;
        states = h;
        data_keys = h;
        init = none;
      } in
      if calloc m.next
      then some (record m { fsms = update m.fsms m.next f; next = m.next + 1 }, m.next)
      else none

module _ (E : Eina) where
  -- eina_hash_add, where the result is not looked at
  abbrev pub put : E.Hash → Text → ℕ → E.Hash
  put h k v = elim (E.add h k v) [ none ↦ h | some h' ↦ h' ]
