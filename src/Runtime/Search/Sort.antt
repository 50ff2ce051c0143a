-- ===== src/Runtime/Search/Sort.antt =====
-- A table in the order of estate_state_sort_transitions_cb of src/lib/estate_state.c can be searched.
use Prim.Native.Nat.{Ordering}
use estate.Base.{
  ℕ, ◌≡◌, ◌<◌, sym, subst, Option, none, some, List, [], ◌∷◌, Text, length, All, arith,
}
use estate.Eina.{Eina, EinaLaws}
use estate.Runtime.Types.{State, Transition}
use estate.Runtime.Search.{name_addr, sort_transitions_cb, find_transition}
use estate.Runtime.Search.Complete.{
  compare_ptr_near, entry_addr, IsTable, IsNear, AreShared, linear_find,
  find_transition-linear_find,
}

module _ (E : Eina) where
  -- Each entry is a transition with a name, and the comparison of each with the next is negative.
  abbrev pub IsOrdered : (ℕ → Transition) → List (Option ℕ) → Type 0
  IsOrdered tr [] = Unit
  IsOrdered tr (none ∷ xs) = ⊥
  IsOrdered tr (some t ∷ []) = (n : Text) × ((tr t).name ≡ some n)
  IsOrdered tr (some t ∷ x ∷ xs) =
      ((n : Text) × ((tr t).name ≡ some n))
      × (sort_transitions_cb E tr (some t) x ≡ some Ordering.lt)
      × IsOrdered tr (x ∷ xs)

  module _ (laws : EinaLaws E) (near : IsNear E) (tr : ℕ → Transition)
      (shared : AreShared E tr) where
    below :
        (t u : ℕ) (n m : Text)
        → (tr t).name ≡ some n
        → (tr u).name ≡ some m
        → sort_transitions_cb E tr (some t) (some u) ≡ some Ordering.lt
        → E.addr n < E.addr m
    unfolding sort_transitions_cb
    below t u n m e f lt =
        let p = shared t n e in
        let q = shared u m f in
        let c =
          compare_ptr_near (E.addr n) (E.addr m) (near n m p q) (near m n q p) (laws.addr_range n p)
            (laws.addr_range m q) in
        ground (arith, e, f, lt, c)

    named_head :
        (u : ℕ) (xs : List (Option ℕ))
        → IsOrdered tr (some u ∷ xs)
        → (m : Text) × ((tr u).name ≡ some m)
    named_head u [] o = o
    named_head u (x ∷ xs) o = o.0

    lower :
        (n m : Text) (xs : List (Option ℕ))
        → E.addr n < E.addr m
        → All (λ o. E.addr m < entry_addr E tr o) xs
        → All (λ o. E.addr n < entry_addr E tr o) xs
    lower n m [] lt a = tt
    lower n m (x ∷ xs) lt (e, a) = (omega (arith, lt, e), lower n m xs lt a)

    above_each :
        (xs : List (Option ℕ)) (t : ℕ) (n : Text)
        → (tr t).name ≡ some n
        → IsOrdered tr (some t ∷ xs)
        → All (λ o. E.addr n < entry_addr E tr o) xs
    above_each [] t n e o = tt
    above_each (none ∷ xs) t n e o = absurd o.2
    above_each (some u ∷ xs) t n e (_, lt, o) =
        let (m, f) = named_head u xs o in
        let first = below t u n m e f lt in
        (
          subst (λ a. E.addr n < name_addr E a) (sym f) first,
          lower n m xs first (above_each xs u m f o),
        )

    ordered-IsTable : (xs : List (Option ℕ)) → IsOrdered tr xs → IsTable E tr xs
    ordered-IsTable [] o = tt
    ordered-IsTable (none ∷ xs) o = o
    ordered-IsTable (some t ∷ []) (n, e) = (n, e, tt, tt)
    ordered-IsTable (some t ∷ x ∷ xs) o =
        let (n, e) = o.0 in (n, e, above_each (x ∷ xs) t n e o, ordered-IsTable (x ∷ xs) o.2)

    -- Where shared strings are less than 2 ^ 31 apart: if the comparison of
    -- estate_state_sort_transitions_cb puts each transition of a whole table before the next, the
    -- search of estate_machine_transition_do finds in the table, for each shared name, what a linear
    -- search by that name finds.
    pub ordered-linear_find :
        (shr : Text)
        → E.IsShared shr
        → (s : State) → IsOrdered tr s.transit
        → s.transit_count ≡ length s.transit
        → find_transition E tr shr s ≡ linear_find E tr shr s.transit
    ordered-linear_find shr mine s o whole =
        find_transition-linear_find E laws near tr shared shr mine s (ordered-IsTable s.transit o)
          whole
