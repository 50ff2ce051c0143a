-- ===== src/Runtime/Tests.antt =====
-- A turnstile with the run-time library's theorems applied to it, and runs of the library.
mod Drive
use estate.Base.{
  ℕ, zero, suc, ◌+◌, ◌≤◌, ◌≡◌, ◌⊎◌, refl, subst, inl, inr, Bool, true, false, Option, none, some,
  List, [], ◌∷◌, Text, codes, text_eq, if◌then◌else◌, ◌==◌, arith, length,
}
use estate.Eina.{Eina, EinaLaws}
use estate.Runtime.Build.{zero_wrapper}
use estate.Runtime.Callback.{
  User, calls_transition_do, transition_enter, cb_call, cb_cache, cb_invoke, api_calls, api_call,
  state_cb_call,
}
use estate.Runtime.Callback.Frame.{LocksNothing, IsBudget, requests}
use estate.Runtime.Outcome.{Outcome, returns}
use estate.Runtime.Search.{
  found, missing, find_transition, search_loop, bsearch, compare_cb, compare_ptr,
}
use estate.Runtime.Search.Complete.{
  IsTable, IsNear, AreShared, linear_find, find_transition-linear_find,
}
use estate.Runtime.Types.{
  pos, CbType, cb_unlocked, transition_cb, State, Transition, Machine, same_wrapper,
}
use estate.Runtime.Transition.{Run, cross, drain, jump, settle, attempt, carry, transition_do}
use estate.Runtime.Transition.Walk.{Walk, IsIdle}
use estate.Runtime.Transition.Total.{IsWired, IsLinked, Ends, transition_do-Ends}
use estate.Runtime.Transition.Reach.{IsListed, IsReady, Serves, transition_do-reaches}
use estate.Runtime.Transition.Walk.{here, step, edge}
use estate.Base.{Bool-cases, inl, inr}
use estate.Runtime.Build.{zero_transition}
use estate.Runtime.Transition.Decides.{transition_do-follows, transition_do-not_found}

abbrev pub coin : Text
coin = codes "coin"

abbrev pub push : Text
push = codes "push"

-- An Eina of association lists that shares two texts, 128 bytes apart.
abbrev lookup : List (Text × ℕ) → Text → Option ℕ
lookup [] k = none
lookup ((j, v) ∷ h) k = if text_eq j k then some v else lookup h k

abbrev pub small : Eina
small = record {
  calloc = λ n. true;
  Hash = List (Text × ℕ);
  hash_new = some [];
  find = lookup;
  add = λ h k v. some ((k, v) ∷ h);
  IsShared = λ t. (t ≡ coin) ⊎ (t ≡ push);
  addr = λ t. if text_eq t coin then 4096 else 4224;
}

addr_coin : (t : Text) → t ≡ coin → small.addr t ≡ 4096
unfolding text_eq
addr_coin t e = rw e

addr_push : (t : Text) → t ≡ push → small.addr t ≡ 4224
unfolding text_eq
addr_push t e = rw e

addr_known : (t : Text) → small.IsShared t → (small.addr t ≡ 4096) ⊎ (small.addr t ≡ 4224)
addr_known t (inl e) = inl (addr_coin t e)
addr_known t (inr e) = inr (addr_push t e)

small_injective :
    (a b : Text) → small.IsShared a → small.IsShared b → small.addr a ≡ small.addr b → a ≡ b
small_injective a b (inl p) (inl q) e = cc
small_injective a b (inr p) (inr q) e = cc
small_injective a b (inl p) (inr q) e = absurd (omega (arith, addr_coin a p, addr_push b q, e))
small_injective a b (inr p) (inl q) e = absurd (omega (arith, addr_push a p, addr_coin b q, e))

pub small_laws : EinaLaws small
small_laws = record {
  find_new = λ h k e. let q : [] ≡ h = cc in subst (λ x. lookup x k ≡ none) q refl;
  find_add = λ h h' k j v e miss.
      let q : (k, v) ∷ h ≡ h' = cc in
      subst (λ x. lookup x j ≡ (if text_eq k j then some v else lookup h j)) q refl;
  addr_injective = small_injective;
  addr_range = λ a h. omega (arith, addr_known a h);
}

pub small_near : IsNear small
small_near a b p q = omega (arith, addr_known a p, addr_known b q)

-- The closed state is at 100, the open one at 200; `coin` is at 300, `push` at 310.
abbrev pub closed : State
closed = record { name = some (codes "closed"); transit = some 300 ∷ []; transit_count = 1 }

abbrev pub opened : State
opened = record { name = some (codes "open"); transit = some 310 ∷ []; transit_count = 1 }

abbrev pub pay : Transition
pay = record { name = some coin; from = some 100; to = some 200 }

abbrev pub pass : Transition
pass = record { name = some push; from = some 200; to = some 100 }

abbrev pub gate : Machine (List (Text × ℕ))
gate = record {
  mempool = record {
    base = 0;
    stack_states = 0;
    stack_transits = 0;
    end = 0;
    states_reg = 2;
    transit_reg = 2;
  };
  states = λ p. if p == 100 then closed else opened;
  transits = λ t. if t == 300 then pay else pass;
  wrappers = λ p.
      if same_wrapper p (transition_cb 300)
      then record zero_wrapper { func = some 7 }
      else zero_wrapper;
  current_state = some 100;
  current_transition = none;
  error_cb = none;
  user_data = [];
  cb_defer = [];
  global_data = none;
  states_count = 2;
  transit_count = 2;
  in_cb = cb_unlocked;
  locked = true;
}

-- A user function that asks for `push` as often as its world says.
abbrev pub eager : User (List (Text × ℕ))
eager = record {
  World = ℕ;
  call = λ m w func value type tr. elim w [
    | zero ↦ (0, pos 0, [])
    | suc k ↦ (k, pos 0, calls_transition_do (some push) ∷ [])
  ];
  error = λ m w func e source msg. w;
}

eager_spends :
    (m : Machine (List (Text × ℕ))) (w func : ℕ) (value : Option ℕ) (type : CbType) (tr : ℕ)
    → (eager.call m w func value type tr).0 + requests (eager.call m w func value type tr).2 ≤ w
eager_spends m zero func value type tr = omega arith
eager_spends m (suc w) func value type tr = omega arith

pub eager-LocksNothing : LocksNothing small eager
eager-LocksNothing m zero func value type tr = tt
eager-LocksNothing m (suc w) func value type tr = (tt, tt)

-- The budget of `eager` is its world.
pub eager_budget : IsBudget small eager (λ w. w)
eager_budget = record {
  on_call = λ m w func value type tr. eager_spends m w func value type tr;
  on_error = λ m w func e source msg. omega arith;
}

pub either : {A : Type 0} (P : A → Type 0) (b : Bool) (x y : A) → P x → P y → P (if b then x else y)
either P true x y p q = p
either P false x y p q = q

pub gate-IsWired : IsWired small gate.states gate.transits
gate-IsWired = record {
  table = λ s.
      either (λ st. IsTable small gate.transits st.transit) (s == 100) closed opened
        (coin, refl, tt, tt) (push, refl, tt, tt);
  whole = λ s.
      either (λ (st : State). st.transit_count ≡ length st.transit) (s == 100) closed opened refl
        refl;
  ends = λ t.
      either (λ tr. (n : Text) → tr.name ≡ some n → (u : ℕ) × (tr.to ≡ some u)) (t == 300) pay pass
        (λ n e. (200, refl)) (λ n e. (100, refl));
}

gate_shared : AreShared small gate.transits
gate_shared t =
    either (λ tr. (n : Text) → tr.name ≡ some n → small.IsShared n) (t == 300) pay pass
      (λ n e. inl (cc e)) (λ n e. inr (cc e))

abbrev gate_run : Run small eager
gate_run = (gate, 1)

gate-IsIdle : IsIdle small eager eager-LocksNothing gate_run
gate-IsIdle = record { in_cb = refl; settled = refl }

gate-IsLinked : IsLinked small gate
gate-IsLinked = (gate-IsWired, (100, refl))

abbrev standing : Outcome (Run small eager × Bool) → Option ℕ
standing (returns (r, b)) = r.0.current_state
standing _ = none

-- `coin` leads to 200; its callback asks for `push`, which leads back.
gate_round : standing (transition_do small eager 3 gate_run (some coin)) ≡ some 100
unfolding transition_do carry attempt settle jump drain cross find_transition bsearch search_loop
    compare_cb compare_ptr transition_enter cb_call cb_cache cb_invoke api_calls api_call text_eq
    state_cb_call
gate_round = refl

find_transition-linear_find_example :
    find_transition small gate.transits push closed
    ≡ linear_find small gate.transits push closed.transit
find_transition-linear_find_example =
    find_transition-linear_find small small_laws small_near gate.transits gate_shared push
      (inr refl) closed (coin, refl, tt, tt) refl

transition_do-Ends_example :
    Ends small eager eager-LocksNothing
      (λ w. w)
      eager_budget
      (transition_do small eager 2 gate_run (some coin))
      gate_run
transition_do-Ends_example =
    transition_do-Ends small eager eager-LocksNothing (λ w. w) eager_budget 2 gate_run (some coin)
      gate-IsIdle gate-IsLinked (omega arith)

abbrev Followed : Type 0
Followed =
    (r' : Run small eager) × (transition_do small eager 2 gate_run (some coin) ≡ returns (r', true))
    × ((gate.transits 300).name ≡ some coin)
    × Walk gate.transits (gate.transits 300).to r'.0.current_state

found_coin : linear_find small gate.transits coin closed.transit ≡ found (some 300)
unfolding linear_find text_eq
found_coin = refl

transition_do-follows_example : Followed
transition_do-follows_example =
    transition_do-follows small small_laws small_near eager eager-LocksNothing (λ w. w) eager_budget
      2 gate_run coin 100 300 gate-IsIdle gate-IsWired gate_shared (inl refl) refl refl
      (omega arith) found_coin refl

missing_push : linear_find small gate.transits push closed.transit ≡ missing
unfolding linear_find text_eq
missing_push = refl

transition_do-not_found_example :
    transition_do small eager 1 gate_run (some push) ≡ returns (gate_run, false)
transition_do-not_found_example =
    transition_do-not_found small small_laws small_near eager eager-LocksNothing (λ w. w)
      eager_budget 0 gate_run push 100 gate-IsIdle gate-IsWired gate_shared (inr refl) refl refl
      missing_push
