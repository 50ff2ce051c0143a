-- ===== src/Runtime/Search.antt =====
-- The search for a transition by name: `_compare_cb` of src/lib/estate_machine.c and the C
-- library's bsearch over the transition pointers of a state.
pub mod Loop
pub mod Complete
pub mod Sort
use Prim.Native.Nat.{Ordering}
use estate.Base.{
  ℕ, zero, suc, ◌+◌, ◌-◌, ◌/◌, ◌%◌, ◌^◌, Bool, true, false, Option, none, some, List, [], ◌∷◌, Text,
  length, get_elem?, ltb, ◌==◌, if◌then◌else◌, text_eq,
}
use estate.Eina.{Eina}
use estate.Runtime.Types.{State, Transition}

-- The sign of `(int)(a - b)` for addresses: the difference of 64 bits keeps its low 32.
unfoldable pub compare_ptr : ℕ → ℕ → Ordering
compare_ptr a b =
    let d = (a + 2 ^ 64 - b) % 2 ^ 32 in
    if d == 0 then Ordering.eq else if ltb d (2 ^ 31) then Ordering.gt else Ordering.lt

-- `fault` is the use of a NULL pointer.
pub data Search (A : Type 0) : Type 0 where
  missing fault : Search A
  found : A → Search A

module _ {A : Type 0} (cmp : A → Option Ordering) where
  -- while (l < u), on the elements from l up to u
  unfoldable pub search_loop : List A → ℕ → ℕ → ℕ → Search A
  search_loop xs zero l u = missing
  search_loop xs (suc fuel) l u = elim (ltb l u) [
    | false ↦ missing
    | true ↦ elim (get_elem? xs ((l + u) / 2)) [
      | none ↦ fault
      | some a ↦ elim (cmp a) [
        | none ↦ fault
        | some Ordering.lt ↦ search_loop xs fuel l ((l + u) / 2)
        | some Ordering.gt ↦ search_loop xs fuel ((l + u) / 2 + 1) u
        | some Ordering.eq ↦ found a
      ]
    ]
  ]

  -- bsearch (key, xs, n, size, cmp)
  unfoldable pub bsearch : List A → ℕ → Search A
  unfolding search_loop
  bsearch xs n = search_loop xs n 0 n

module _ (E : Eina) where
  abbrev pub name_addr : Option Text → ℕ
  name_addr none = 0
  name_addr (some n) = E.addr n

  -- `_compare_cb` on the element that holds the pointer `t`
  unfoldable pub compare_cb : (ℕ → Transition) → Text → Option ℕ → Option Ordering
  unfolding compare_ptr
  compare_cb transits shr none = none
  compare_cb transits shr (some t) = some (compare_ptr (E.addr shr) (name_addr (transits t).name))

  -- estate_state_sort_transitions_cb on the elements that hold two pointers
  unfoldable pub sort_transitions_cb : (ℕ → Transition) → Option ℕ → Option ℕ → Option Ordering
  unfolding compare_ptr
  sort_transitions_cb transits none t2 = none
  sort_transitions_cb transits (some t1) none = none
  sort_transitions_cb transits (some t1) (some t2) =
      some (compare_ptr (name_addr (transits t1).name) (name_addr (transits t2).name))

  -- The search of estate_machine_transition_do in the state `s`.
  unfoldable pub find_transition : (ℕ → Transition) → Text → State → Search (Option ℕ)
  unfolding compare_cb bsearch
  find_transition transits shr s = bsearch (compare_cb transits shr) s.transit s.transit_count
