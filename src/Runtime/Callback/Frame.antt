-- ===== src/Runtime/Callback/Frame.antt =====
-- What a callback cannot change, whatever it calls.
use estate.Base.{
  All, ℕ, ◌≡◌, ◌≢◌, refl, ◌∙◌, ◌+◌, ◌≤◌, Option, none, some, List, [], ◌∷◌, Text, length,
  length-append, inl, inr, Option-cases, arith,
}
use estate.Eina.{Eina}
use estate.Runtime.Types.{
  ℤ, CbType, Error, cb_type_code, enterer, exiter, transition, cb_unlocked, Wrapper, Machine,
}
use estate.Runtime.Callback.{
  Message, ApiCall, calls_transition_do, calls_data_set, calls_global_data_set, calls_error_cb_set,
  calls_machine_lock, User, api_call, api_calls, cb_cache, cb_invoke, cb_call,
}

-- The structure of the machine, where it stands, and its lock are the same.
pub record Frame {H : Type 0} (m m' : Machine H) : Type 0 where
  pub states : m'.states ≡ m.states
  pub transits : m'.transits ≡ m.transits
  pub current_state : m'.current_state ≡ m.current_state
  pub current_transition : m'.current_transition ≡ m.current_transition
  pub locked : m'.locked ≡ m.locked
  pub mempool : m'.mempool ≡ m.mempool

pub Frame-refl : {H : Type 0} (m : Machine H) → Frame m m
Frame-refl m = record {
  states = refl;
  transits = refl;
  current_state = refl;
  current_transition = refl;
  locked = refl;
  mempool = refl;
}

pub Frame-trans : {H : Type 0} (l m n : Machine H) → Frame l m → Frame m n → Frame l n
Frame-trans l m n f g = record {
  states = g.states ∙ f.states;
  transits = g.transits ∙ f.transits;
  current_state = g.current_state ∙ f.current_state;
  current_transition = g.current_transition ∙ f.current_transition;
  locked = g.locked ∙ f.locked;
  mempool = g.mempool ∙ f.mempool;
}

-- A call of anything but estate_machine_lock.
abbrev pub LeavesLock : ApiCall → Type 0
LeavesLock (calls_machine_lock s) = ⊥
LeavesLock _ = Unit

-- How many transitions the calls ask for.
abbrev pub requests : List ApiCall → ℕ
requests [] = 0
requests (calls_transition_do name ∷ cs) = 1 + requests cs
requests (_ ∷ cs) = requests cs

requests-cons :
    (c : ApiCall) (cs : List ApiCall) → requests (c ∷ cs) ≡ requests (c ∷ []) + requests cs
requests-cons (calls_transition_do name) cs = omega arith
requests-cons _ cs = omega arith

cb_type_code-ne : (type : CbType) → cb_type_code type ≢ cb_unlocked
cb_type_code-ne enterer = omega arith
cb_type_code-ne exiter = omega arith
cb_type_code-ne transition = omega arith

module _ (E : Eina) where
  -- A call from a callback keeps `in_cb`, and asks for one transition at most.
  record Inside (m m' : Machine E.Hash) (n : ℕ) : Type 0 where
    in_cb : m'.in_cb ≡ m.in_cb
    pending : length m'.cb_defer ≤ length m.cb_defer + n

  api_call-Inside :
      (m : Machine E.Hash) (c : ApiCall)
      → m.in_cb ≢ cb_unlocked
      → Inside m (api_call E m c) (requests (c ∷ []))
  unfolding api_call
  api_call-Inside m (calls_transition_do none) h = ground arith
  api_call-Inside m (calls_transition_do (some n)) h =
      ground (arith, length-append m.cb_defer (n ∷ []))
  api_call-Inside m (calls_data_set none value) h = ground arith
  api_call-Inside m (calls_data_set (some k) none) h = ground arith
  api_call-Inside m (calls_data_set (some k) (some v)) h = ground arith
  api_call-Inside m (calls_global_data_set value) h = ground arith
  api_call-Inside m (calls_error_cb_set f) h = ground arith
  api_call-Inside m (calls_machine_lock none) h = ground arith
  api_call-Inside m (calls_machine_lock (some s)) h = ground arith

  -- A call of anything but estate_machine_lock keeps the frame.
  api_call-Frame :
      (m : Machine E.Hash) (c : ApiCall)
      → m.in_cb ≢ cb_unlocked
      → LeavesLock c
      → Frame m (api_call E m c)
  unfolding api_call
  api_call-Frame m (calls_transition_do none) h k = Frame-refl m
  api_call-Frame m (calls_transition_do (some n)) h k = ground (arith, Frame-refl m)
  api_call-Frame m (calls_data_set none value) h k = ground arith
  api_call-Frame m (calls_data_set (some t) none) h k = ground arith
  api_call-Frame m (calls_data_set (some t) (some v)) h k = ground arith
  api_call-Frame m (calls_global_data_set value) h k = ground arith
  api_call-Frame m (calls_error_cb_set f) h k = ground arith
  api_call-Frame m (calls_machine_lock s) h k = elim k [ ]

  api_calls-Inside :
      (m : Machine E.Hash) (cs : List ApiCall)
      → m.in_cb ≢ cb_unlocked
      → Inside m (api_calls E m cs) (requests cs)
  unfolding api_calls
  api_calls-Inside m [] h = ground arith
  api_calls-Inside m (c ∷ cs) h =
      let one = api_call-Inside m c h in
      let rest = api_calls-Inside (api_call E m c) cs (λ e. h (ground (arith, one))) in
      record {
        in_cb = rest.in_cb ∙ one.in_cb;
        pending = omega (arith, one.pending, rest.pending, requests-cons c cs);
      }

  api_calls-Frame :
      (m : Machine E.Hash) (cs : List ApiCall)
      → m.in_cb ≢ cb_unlocked
      → All LeavesLock cs
      → Frame m (api_calls E m cs)
  unfolding api_calls
  api_calls-Frame m [] h k = Frame-refl m
  api_calls-Frame m (c ∷ cs) h (k, ks) =
      let one = api_call-Inside m c h in
      Frame-trans m (api_call E m c) _ (api_call-Frame m c h k)
        (api_calls-Frame (api_call E m c) cs (λ e. h (ground (arith, one))) ks)

  cb_cache-Frame : (m : Machine E.Hash) (wrp : Wrapper) → Frame m (cb_cache E m wrp).0
  unfolding cb_cache
  cb_cache-Frame m wrp = ground arith

  -- `user_data`, `in_cb` and the wrappers aside, the cache changes nothing.
  cb_cache-Inside : (m : Machine E.Hash) (wrp : Wrapper) → Inside m (cb_cache E m wrp).0 0
  unfolding cb_cache
  cb_cache-Inside m wrp = ground arith

  module _ (U : User E.Hash) where
    -- `rank` bounds the transitions that the user's functions still ask for: a callback uses up as
    -- much of it as it asks for, and an error callback raises it not.
    pub record IsBudget (rank : U.World → ℕ) : Type 0 where
      pub on_call :
          (m : Machine E.Hash) (w : U.World) (func : ℕ) (value : Option ℕ) (type : CbType) (tr : ℕ)
          → rank (U.call m w func value type tr).0 + requests (U.call m w func value type tr).2
            ≤ rank w
      pub on_error :
          (m : Machine E.Hash) (w : U.World) (func : ℕ) (e : Error) (source : Text) (msg : Message)
          → rank (U.error m w func e source msg) ≤ rank w

    -- What is pending and what may still be asked for.
    abbrev pub load : (U.World → ℕ) → Machine E.Hash × U.World → ℕ
    load rank (m, w) = rank w + length m.cb_defer

    -- After a callback that began outside of any other, the frame is kept, and no callback runs.
    pub record Called (r r' : Machine E.Hash × U.World) : Type 0 where
      pub frame : Frame r.0 r'.0
      pub in_cb : r'.0.in_cb ≡ cb_unlocked

    -- No callback calls estate_machine_lock.
    abbrev pub LocksNothing : Type 0
    LocksNothing =
        (m : Machine E.Hash) (w : U.World) (func : ℕ) (value : Option ℕ) (type : CbType) (tr : ℕ)
        → All LeavesLock (U.call m w func value type tr).2

    abbrev inside_of : Machine E.Hash → CbType → Machine E.Hash
    inside_of m type = record m { in_cb = cb_type_code type }

    abbrev answer : Machine E.Hash → U.World → Wrapper → CbType → ℕ → ℕ → U.World × ℤ × List ApiCall
    answer m w wrp type tr func =
        U.call (inside_of m type) w func (m.wrappers wrp).user_data type tr

    cb_invoke-load :
        (rank : U.World → ℕ) (m : Machine E.Hash) (w : U.World) (wrp : Wrapper) (type : CbType)
        (tr func : ℕ)
        → IsBudget rank
        → load rank (cb_invoke E U (m, w) wrp type tr func) ≤ load rank (m, w)
    unfolding cb_invoke
    cb_invoke-load rank m w wrp type tr func b =
        let calls = (answer m w wrp type tr func).2 in
        omega (
          arith,
          (api_calls-Inside (inside_of m type) calls (cb_type_code-ne type)).pending,
          b.on_call (inside_of m type) w func (m.wrappers wrp).user_data type tr,
        )

    -- A callback uses the budget for what it leaves pending.
    pub cb_call-load :
        (rank : U.World → ℕ) (m : Machine E.Hash) (w : U.World) (wrp : Wrapper) (type : CbType)
        (tr : ℕ)
        → IsBudget rank
        → load rank (cb_call E U (m, w) wrp type tr) ≤ load rank (m, w)
    unfolding cb_call
    cb_call-load rank m w wrp type tr b = elim (Option-cases (m.wrappers wrp).func) [
      | inl e ↦ rw (e, cb_call) (omega arith)
      | inr (func, e) ↦
          rw (e, cb_call)
            (omega (
              arith,
              cb_invoke-load rank (cb_cache E m wrp).0 w wrp type tr func b,
              (cb_cache-Inside m wrp).pending,
            ))
    ]

module _ (E : Eina) (U : User E.Hash) (calm : LocksNothing E U) where
  cb_invoke-Called :
      (m : Machine E.Hash) (w : U.World) (wrp : Wrapper) (type : CbType) (tr func : ℕ)
      → Called E U (m, w) (cb_invoke E U (m, w) wrp type tr func)
  unfolding cb_invoke
  cb_invoke-Called m w wrp type tr func =
      let calls = (answer E U m w wrp type tr func).2 in
      let f =
        api_calls-Frame E (inside_of E U m type) calls (cb_type_code-ne type)
          (calm (inside_of E U m type) w func (m.wrappers wrp).user_data type tr) in
      record {
        frame = record {
          states = f.states;
          transits = f.transits;
          current_state = f.current_state;
          current_transition = f.current_transition;
          locked = f.locked;
          mempool = f.mempool;
        };
        in_cb = refl;
      }

  pub cb_call-Called :
      (m : Machine E.Hash) (w : U.World) (wrp : Wrapper) (type : CbType) (tr : ℕ)
      → m.in_cb ≡ cb_unlocked
      → Called E U (m, w) (cb_call E U (m, w) wrp type tr)
  unfolding cb_call
  cb_call-Called m w wrp type tr h = elim (Option-cases (m.wrappers wrp).func) [
    | inl e ↦ rw (e, cb_call) (record { frame = Frame-refl m; in_cb = h })
    | inr (func, e) ↦
        let m' = (cb_cache E m wrp).0 in
        let c = cb_invoke-Called m' w wrp type tr func in
        rw (e, cb_call)
          (record { frame = Frame-trans m m' _ (cb_cache-Frame E m wrp) c.frame; in_cb = c.in_cb })
  ]
