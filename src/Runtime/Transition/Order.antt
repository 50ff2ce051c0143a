-- ===== src/Runtime/Transition/Order.antt =====
-- In which order, with which data and in which state a transition calls its callbacks.
use estate.Base.{ℕ, ◌≡◌, false, Option, none, some, List, [], ◌∷◌, ◌++◌}
use estate.Eina.{Eina}
use estate.Runtime.Callback.{User}
use estate.Runtime.Types.{pos, CbType, CbWrapper, Wrapper, same_wrapper, Machine}
use estate.Runtime.Transition.{Run}

-- A call of a callback, with the machine's state as the callback sees it.
pub record Visit : Type 0 where
  pub func : ℕ
  pub value : Option ℕ
  pub type : CbType
  pub tr : ℕ
  pub at : Option ℕ

-- Functions that note how they are called and call nothing back.
abbrev pub recorder : (H : Type 0) → User H
recorder H = record {
  World = List Visit;
  call = λ m w func value type tr. (
    w ++ (record { func = func; value = value; type = type; tr = tr; at = m.current_state } ∷ []),
    pos 0,
    [],
  );
  error = λ m w func e source msg. w;
}

module _ (E : Eina) where
  -- The data that the callback of a wrapper is to be given: what it has cached, or else what the
  -- hash holds for its key.
  abbrev pub value_of : E.Hash → CbWrapper → Option ℕ
  value_of h w = elim w.key [
    | none ↦ w.user_data
    | some k ↦ elim w.user_data [ some v ↦ some v | none ↦ E.find h k ]
  ]

  -- The call of a wrapper's callback, if it has one.
  abbrev pub visits : E.Hash → CbWrapper → CbType → ℕ → Option ℕ → List Visit
  visits h w type tr at = elim w.func [
    | none ↦ []
    | some func ↦ record { func = func; value = value_of h w; type = type; tr = tr; at = at } ∷ []
  ]

  -- What a recorded call does: it is noted once, and the data and the other wrappers stay.
  record Recorded (m : Machine E.Hash) (w : List Visit) (wrp : Wrapper) (type : CbType) (tr : ℕ)
      (r : Run E (recorder E.Hash)) : Type 0 where
    world : r.1 ≡ w ++ visits m.user_data (m.wrappers wrp) type tr m.current_state
    user_data : r.0.user_data ≡ m.user_data
    others : (p : Wrapper) → same_wrapper wrp p ≡ false → r.0.wrappers p ≡ m.wrappers p
