-- ===== src/Runtime/Types.antt =====
-- The structures of src/lib/estate_private.h and Estate.h. A pointer is its address, `none` is
-- NULL. States, transitions and callback wrappers stand in memory, which the machine carries as
-- functions from addresses; `&st->enterer` and the like are the constructors of `Wrapper`.
use estate.Base.{ℕ, Bool, false, Option, List, Text, ◌==◌, if◌then◌else◌}
use estate.Runtime.Mempool.{Mempool}

-- `negsuc n` is -(n + 1).
pub data ℤ : Type 0 where
  pos : ℕ → ℤ
  negsuc : ℕ → ℤ

abbrev pub int_min : ℤ
int_min = negsuc 2147483647

-- ESTATE_CB_OK
abbrev pub cb_ok : ℤ
cb_ok = pos 0

-- Estate_Cb_Type
pub data CbType : Type 0 where
  enterer exiter transition : CbType

-- The value of the enumeration, which `in_cb` holds.
abbrev pub cb_type_code : CbType → ℕ
cb_type_code enterer = 0
cb_type_code exiter = 1
cb_type_code transition = 2

-- CB_UNLOCKED
abbrev pub cb_unlocked : ℕ
cb_unlocked = 0xff

-- Estate_Error
pub data Error : Type 0 where
  error_none error_transition : Error

-- Estate_Cb_Ctor: `func` names a callback function, `key_len` is the length of the key to use.
pub record CbCtor : Type 0 where
  pub func : Option ℕ
  pub key : Option Text
  pub key_len : ℕ

-- Estate_Cb_Wrapper; `user_data` is its field `data`.
pub record CbWrapper : Type 0 where
  pub func : Option ℕ
  pub user_data : Option ℕ
  pub key : Option Text
  pub result : ℤ

-- The wrappers inside of the state or the transition at an address.
pub data Wrapper : Type 0 where
  state_enterer state_exiter : ℕ → Wrapper
  transition_cb transition_enterer transition_exiter : ℕ → Wrapper

abbrev pub same_wrapper : Wrapper → Wrapper → Bool
same_wrapper (state_enterer a) (state_enterer b) = a == b
same_wrapper (state_exiter a) (state_exiter b) = a == b
same_wrapper (transition_cb a) (transition_cb b) = a == b
same_wrapper (transition_enterer a) (transition_enterer b) = a == b
same_wrapper (transition_exiter a) (transition_exiter b) = a == b
same_wrapper _ _ = false

-- Estate_State without its two wrappers. `transit` is the array, NULL or not.
pub record State : Type 0 where
  pub name : Option Text
  pub transit : List (Option ℕ)
  pub transit_count : ℕ

-- Estate_Transition without its three wrappers; its field `mach` is never used.
pub record Transition : Type 0 where
  pub name : Option Text
  pub from : Option ℕ
  pub to : Option ℕ

-- Estate_Machine, with the memory of its pool. `user_data` is the hash `data`.
pub record Machine (Hash : Type 0) : Type 0 where
  pub mempool : Mempool
  pub states : ℕ → State
  pub transits : ℕ → Transition
  pub wrappers : Wrapper → CbWrapper
  pub current_state : Option ℕ
  pub current_transition : Option ℕ
  pub error_cb : Option ℕ
  pub user_data : Hash
  pub cb_defer : List Text
  pub global_data : Option ℕ
  pub states_count : ℕ
  pub transit_count : ℕ
  pub in_cb : ℕ
  pub locked : Bool

-- A write at an address.
abbrev pub update {ℓ} : {A : Type ℓ} → (ℕ → A) → ℕ → A → ℕ → A
update f p a q = if p == q then a else f q

abbrev pub update_wrapper : (Wrapper → CbWrapper) → Wrapper → CbWrapper → Wrapper → CbWrapper
update_wrapper f p w q = if same_wrapper p q then w else f q
