-- ===== src/Runtime/Tests/Drive.antt =====
-- A gate that is driven to a state.
use estate.Base.{codes, text_eq, [], ◌∷◌}
use estate.Runtime.Types.{State}
use estate.Runtime.Search.{find_transition, sort_transitions_cb, compare_ptr}
use estate.Runtime.Search.Sort.{IsOrdered, ordered-linear_find}
use estate.Base.{
  ℕ, ◌≡◌, refl, subst, inl, inr, false, some, List, Text, text_eq, if◌then◌else◌, ◌==◌, arith,
}
use estate.Runtime.Search.{found}
use estate.Runtime.Search.Complete.{IsTable, AreShared, linear_find}
use estate.Runtime.Types.{Machine}
use estate.Runtime.Transition.{Run}
use estate.Runtime.Transition.Total.{IsWired}
use estate.Runtime.Transition.Reach.{IsListed, IsReady, Serves, transition_do-reaches}
use estate.Runtime.Transition.Walk.{here, step, edge}
use estate.Base.{Bool-cases, inl, inr}
use estate.Runtime.Build.{zero_transition}
use estate.Runtime.Tests.{
  coin, push, small, small_laws, small_near, closed, opened, pay, pass, gate, eager,
  eager-LocksNothing, eager_budget, either, gate-IsWired,
}

-- The gate with nothing behind its two transitions, whose user asks for nothing more.
abbrev calm : Machine (List (Text × ℕ))
calm = record gate {
  transits = λ t. if t == 300 then pay else if t == 310 then pass else zero_transition;
}

abbrev calm_run : Run small eager
calm_run = (calm, 0)

calm-IsWired : IsWired small calm.states calm.transits
calm-IsWired = record {
  table = λ s.
      either (λ st. IsTable small calm.transits st.transit) (s == 100) closed opened
        (coin, refl, tt, tt) (push, refl, tt, tt);
  whole = gate-IsWired.whole;
  ends = λ t.
      either (λ tr. (n : Text) → tr.name ≡ some n → (u : ℕ) × (tr.to ≡ some u)) (t == 300) pay
        (if t == 310 then pass else zero_transition) (λ n e. (200, refl))
        (either (λ tr. (n : Text) → tr.name ≡ some n → (u : ℕ) × (tr.to ≡ some u)) (t == 310) pass
          zero_transition (λ n e. (100, refl)) (λ n e. cc));
}

calm_shared : AreShared small calm.transits
calm_shared t =
    either (λ tr. (n : Text) → tr.name ≡ some n → small.IsShared n) (t == 300) pay
      (if t == 310 then pass else zero_transition) (λ n e. inl (cc e))
      (either (λ tr. (n : Text) → tr.name ≡ some n → small.IsShared n) (t == 310) pass
        zero_transition (λ n e. inr (cc e)) (λ n e. cc))

-- What the list of the calm gate says of the transition at `t`.
abbrev Listed : ℕ → ℕ → Type 0
Listed t s =
    (calm.transits t).from ≡ some s
    → (n : Text) × small.IsShared n
      × (linear_find small calm.transits n (calm.states s).transit ≡ found (some t))
      × ((u : ℕ) × ((calm.transits t).to ≡ some u))

pay-Listed : (s : ℕ) → Listed 300 s
unfolding linear_find text_eq
pay-Listed s e =
    let p : 100 ≡ s = cc e in
    subst
      (λ x.
        (n : Text) × small.IsShared n
        × (linear_find small calm.transits n (calm.states x).transit ≡ found (some 300))
        × ((u : ℕ) × (some 200 ≡ some u)))
      p (coin, inl refl, refl, (200, refl))

pass-Listed : (s : ℕ) → Listed 310 s
unfolding linear_find text_eq
pass-Listed s e =
    let p : 200 ≡ s = cc e in
    subst
      (λ x.
        (n : Text) × small.IsShared n
        × (linear_find small calm.transits n (calm.states x).transit ≡ found (some 310))
        × ((u : ℕ) × (some 100 ≡ some u)))
      p (push, inr refl, refl, (100, refl))

no_edge : (t s : ℕ) → (t == 300) ≡ false → (t == 310) ≡ false → (calm.transits t).from ≡ some s → ⊥
no_edge t s p q e = ground (arith, p, q, e)

calm-IsListed : IsListed small calm.states calm.transits
calm-IsListed t s = elim (Bool-cases (t == 300)) [
  | inl p ↦ subst (λ x. Listed x s) (ground (arith, p)) (pay-Listed s)
  | inr p ↦ elim (Bool-cases (t == 310)) [
    | inl q ↦ subst (λ x. Listed x s) (ground (arith, q)) (pass-Listed s)
    | inr q ↦ λ e. absurd (no_edge t s p q e)
  ]
]

calm-IsReady :
    IsReady small small_laws small_near eager eager-LocksNothing
      (λ w. w)
      eager_budget
      calm.states
      calm.transits
      (some 100)
      calm_run
calm-IsReady = record {
  idle = record { in_cb = refl; settled = refl };
  states = refl;
  transits = refl;
  locked = refl;
  at = (100, refl, refl);
  quiet = refl;
}

transition_do-reaches_example :
    (names : List Text) × (q : Run small eager) × Serves small small_laws small_near eager
      eager-LocksNothing
      (λ w. w)
      eager_budget
      1
      calm_run
      names
      q
    × IsReady small small_laws small_near eager eager-LocksNothing
        (λ w. w)
        eager_budget
        calm.states
        calm.transits
        (some 200)
        q
transition_do-reaches_example =
    transition_do-reaches small small_laws small_near eager eager-LocksNothing (λ w. w) eager_budget
      0 calm.states calm.transits (some 100) (some 200) calm_run calm-IsWired calm_shared
      calm-IsListed calm-IsReady (step here (edge 300 refl refl))

-- A state with both transitions.
abbrev both : State
both = record { name = some (codes "both"); transit = some 300 ∷ some 310 ∷ []; transit_count = 2 }

both-IsOrdered : IsOrdered small calm.transits both.transit
unfolding sort_transitions_cb compare_ptr text_eq
both-IsOrdered = ((coin, refl), refl, (push, refl))

ordered-linear_find_example :
    find_transition small calm.transits push both
    ≡ linear_find small calm.transits push both.transit
ordered-linear_find_example =
    ordered-linear_find small small_laws small_near calm.transits calm_shared push (inr refl) both
      both-IsOrdered refl
