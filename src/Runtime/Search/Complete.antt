-- ===== src/Runtime/Search/Complete.antt =====
-- The binary search finds what a linear search finds.
use Prim.Native.Nat.{Ordering, compare}
use estate.Base.{
  ℕ, zero, suc, ◌+◌, ◌^◌, ◌<◌, ◌≡◌, ◌≢◌, refl, sym, ap, ◌∙◌, inl, inr, ◌⊎◌, Bool, true, false,
  Option, none, some, List, [], ◌∷◌, Text, length, get_elem?, All, All-get, text_eq, text_eq_iff,
  if◌then◌else◌, arith, Bool-cases,
}
use estate.Eina.{Eina, EinaLaws}
use estate.Runtime.Types.{State, Transition}
use estate.Runtime.Search.{
  Search, missing, found, fault, compare_ptr, name_addr, compare_cb, find_transition,
}
use estate.Runtime.Search.Loop.{search_loop_found, search_loop_missing, search_loop-IsEntry}

-- Addresses less than 2 ^ 31 apart are compared as numbers.
pub compare_ptr_near :
    (a b : ℕ)
    → a < b + 2 ^ 31
    → b < a + 2 ^ 31
    → a < 2 ^ 64
    → b < 2 ^ 64
    → compare_ptr a b ≡ compare a b
unfolding compare_ptr
compare_ptr_near a b h k ha hb = ground arith

-- Addresses that are 2 ^ 32 apart are taken for one.
pub compare_ptr_far : (a : ℕ) → compare_ptr (a + 2 ^ 32) a ≡ Ordering.eq
unfolding compare_ptr
compare_ptr_far a = ground arith

module _ (E : Eina) where
  -- The address by which a table entry is ordered.
  abbrev pub entry_addr : (ℕ → Transition) → Option ℕ → ℕ
  entry_addr tr none = 0
  entry_addr tr (some t) = name_addr E (tr t).name

  -- A table has no NULL, names each transition, and is ordered by the addresses of the names.
  abbrev pub IsTable : (ℕ → Transition) → List (Option ℕ) → Type 0
  IsTable tr [] = Unit
  IsTable tr (none ∷ xs) = ⊥
  IsTable tr (some t ∷ xs) =
      (n : Text) × ((tr t).name ≡ some n) × All (λ o. E.addr n < entry_addr tr o) xs × IsTable tr xs

  -- All shared strings lie less than 2 ^ 31 bytes apart.
  abbrev pub IsNear : Type 0
  IsNear = (a b : Text) → E.IsShared a → E.IsShared b → E.addr a < E.addr b + 2 ^ 31

  -- The first entry whose transition has the name `shr`.
  abbrev pub has_name : Text → Option Text → Bool
  has_name shr none = false
  has_name shr (some n) = text_eq n shr

  unfoldable pub linear_find : (ℕ → Transition) → Text → List (Option ℕ) → Search (Option ℕ)
  linear_find tr shr [] = missing
  linear_find tr shr (none ∷ xs) = fault
  linear_find tr shr (some t ∷ xs) =
      if has_name shr (tr t).name then found (some t) else linear_find tr shr xs

  has_name-true : (shr : Text) (o : Option Text) → has_name shr o ≡ true → o ≡ some shr
  has_name-true shr none h = cc
  has_name-true shr (some n) h = ap some ((text_eq_iff n shr).0 h)

  has_name-false : (shr : Text) (o : Option Text) → has_name shr o ≡ false → o ≢ some shr
  has_name-false shr none h e = cc
  has_name-false shr (some n) h e = ground (arith, text_eq_iff n shr)

  -- No entry has the name.
  abbrev IsUnnamed : (ℕ → Transition) → Text → List (Option ℕ) → Type 0
  IsUnnamed tr shr xs = (i t : ℕ) → get_elem? xs i ≡ some (some t) → (tr t).name ≢ some shr

  IsUnnamed-cons :
      (tr : ℕ → Transition) (shr : Text) (t : ℕ) (xs : List (Option ℕ))
      → (tr t).name ≢ some shr
      → IsUnnamed tr shr xs
      → IsUnnamed tr shr (some t ∷ xs)
  IsUnnamed-cons tr shr t xs h rest zero t' e = ground (arith, h)
  IsUnnamed-cons tr shr t xs h rest (suc i) t' e = rest i t' e

  IsTable-get :
      (tr : ℕ → Transition) (xs : List (Option ℕ)) (i : ℕ) (b : Option ℕ)
      → IsTable tr xs
      → get_elem? xs i ≡ some b
      → (t : ℕ) × (n : Text) × (b ≡ some t) × ((tr t).name ≡ some n)
  IsTable-get tr [] i b h e = cc
  IsTable-get tr (none ∷ xs) i b h e = absurd h
  IsTable-get tr (some t ∷ xs) zero b h e = (t, h.0, cc, h.1)
  IsTable-get tr (some t ∷ xs) (suc i) b h e = IsTable-get tr xs i b h.3 e

  IsTable-order :
      (tr : ℕ → Transition) (xs : List (Option ℕ)) (i j : ℕ) (b c : Option ℕ)
      → IsTable tr xs
      → i < j
      → get_elem? xs i ≡ some b
      → get_elem? xs j ≡ some c
      → entry_addr tr b < entry_addr tr c
  IsTable-order tr [] i j b c h lt e f = cc
  IsTable-order tr (none ∷ xs) i j b c h lt e f = absurd h
  IsTable-order tr (some t ∷ xs) zero zero b c h lt e f = absurd (omega arith)
  IsTable-order tr (some t ∷ xs) zero (suc j) b c h lt e f =
      ground (arith, h.1, All-get (λ o. E.addr h.0 < entry_addr tr o) xs j c h.2 f)
  IsTable-order tr (some t ∷ xs) (suc i) zero b c h lt e f = absurd (omega arith)
  IsTable-order tr (some t ∷ xs) (suc i) (suc j) b c h lt e f =
      IsTable-order tr xs i j b c h.3 (omega arith) e f

  -- What the linear search finds in a table has the name that was sought.
  pub linear_find-named :
      (tr : ℕ → Transition) (n : Text) (xs : List (Option ℕ))
      → IsTable tr xs
      → (linear_find tr n xs ≡ missing)
        ⊎ ((t : ℕ) × (linear_find tr n xs ≡ found (some t)) × ((tr t).name ≡ some n))
  unfolding linear_find
  linear_find-named tr n [] h = inl refl
  linear_find-named tr n (none ∷ xs) h = absurd h
  linear_find-named tr n (some t ∷ xs) h = elim (Bool-cases (has_name n (tr t).name)) [
    | inl hit ↦ inr (t, rw hit refl, has_name-true n _ hit)
    | inr miss ↦ rw miss (linear_find-named tr n xs h.3)
  ]

  compare_cb-table :
      (tr : ℕ → Transition) (shr : Text) (xs : List (Option ℕ)) (i : ℕ) (b : Option ℕ)
      → IsTable tr xs
      → get_elem? xs i ≡ some b
      → (o : Ordering) × (compare_cb E tr shr b ≡ some o)
  unfolding compare_cb
  compare_cb-table tr shr xs i b h e =
      let (t, n, eb, en) = IsTable-get tr xs i b h e in
      (compare_ptr (E.addr shr) (name_addr E (tr t).name), ap (compare_cb E tr shr) eb)

  -- The names of the transitions are shared strings.
  abbrev pub AreShared : (ℕ → Transition) → Type 0
  AreShared tr = (t : ℕ) (n : Text) → (tr t).name ≡ some n → E.IsShared n

  -- The binary search in a whole table uses no NULL pointer, and gives a transition of the table
  -- or none.
  pub find_transition-entry :
      (tr : ℕ → Transition) (shr : Text) (s : State)
      → IsTable tr s.transit
      → s.transit_count ≡ length s.transit
      → (find_transition E tr shr s ≡ missing)
        ⊎ ((t : ℕ) × (n : Text) × (find_transition E tr shr s ≡ found (some t))
            × ((tr t).name ≡ some n))
  unfolding find_transition
  find_transition-entry tr shr s h whole =
      elim (search_loop-IsEntry (compare_cb E tr shr) s.transit s.transit_count 0 s.transit_count
        (λ i b. compare_cb-table tr shr s.transit i b h) (omega arith)) [
          | inl e ↦ inl e
          | inr (i, b, at, e) ↦
              let (t, n, eb, en) = IsTable-get tr s.transit i b h at in
              inr (t, n, e ∙ ap found eb, en)
        ]

  module _ (laws : EinaLaws E) (near : IsNear) (tr : ℕ → Transition) (shared : AreShared tr)
      (shr : Text) (mine : E.IsShared shr) where
    compare_cb_entry :
        (t : ℕ) (n : Text)
        → (tr t).name ≡ some n
        → compare_cb E tr shr (some t) ≡ some (compare (E.addr shr) (E.addr n))
    unfolding compare_cb
    compare_cb_entry t n e =
        let yours = shared t n e in
        rw e (
          ap some (
            compare_ptr_near (E.addr shr) (E.addr n) (near shr n mine yours) (near n shr yours mine)
              (laws.addr_range shr mine) (laws.addr_range n yours)))

    abbrev Finds : List (Option ℕ) → ℕ → ℕ → Type 0
    Finds xs p t =
        (linear_find tr shr xs ≡ found (some t))
        × (get_elem? xs p ≡ some (some t))
        × ((tr t).name ≡ some shr)
        × (p < length xs)

    -- The linear search finds an entry of that name at some place, or no entry has it.
    linear_find-cases :
        (xs : List (Option ℕ))
        → IsTable tr xs
        → ((linear_find tr shr xs ≡ missing) × IsUnnamed tr shr xs)
          ⊎ ((p : ℕ) × (t : ℕ) × Finds xs p t)
    unfolding linear_find
    linear_find-cases [] h = inl (refl, λ i t e. cc)
    linear_find-cases (none ∷ xs) h = absurd h
    linear_find-cases (some t ∷ xs) h = elim (Bool-cases (has_name shr (tr t).name)) [
      | inl hit ↦ inr (0, t, (rw hit refl, refl, has_name-true shr _ hit, omega arith))
      | inr miss ↦ elim (linear_find-cases xs h.3) [
        | inl (e, rest) ↦
            inl (rw miss e, IsUnnamed-cons tr shr t xs (has_name-false shr _ miss) rest)
        | inr (p, t', f) ↦ inr (suc p, t', (rw miss f.0, f.1, f.2, omega arith))
      ]
    ]

    module _ (s : State) (table : IsTable tr s.transit)
        (whole : s.transit_count ≡ length s.transit) where
      entry-gt :
          (p t i : ℕ) (b : Option ℕ)
          → get_elem? s.transit p ≡ some (some t)
          → (tr t).name ≡ some shr
          → i < p
          → get_elem? s.transit i ≡ some b
          → compare_cb E tr shr b ≡ some Ordering.gt
      entry-gt p t i b e named lt f =
          let (t', n, eb, en) = IsTable-get tr s.transit i b table f in
          let order = IsTable-order tr s.transit i p b (some t) table lt f e in
          let below : E.addr n < E.addr shr = ground (arith, order, eb, en, named) in
          rw eb (compare_cb_entry t' n en ∙ ground (arith, below))

      entry-lt :
          (p t i : ℕ) (b : Option ℕ)
          → get_elem? s.transit p ≡ some (some t)
          → (tr t).name ≡ some shr
          → p < i
          → get_elem? s.transit i ≡ some b
          → compare_cb E tr shr b ≡ some Ordering.lt
      entry-lt p t i b e named lt f =
          let (t', n, eb, en) = IsTable-get tr s.transit i b table f in
          let order = IsTable-order tr s.transit p i (some t) b table lt e f in
          let above : E.addr shr < E.addr n = ground (arith, order, eb, en, named) in
          rw eb (compare_cb_entry t' n en ∙ ground (arith, above))

      entry-apart :
          IsUnnamed tr shr s.transit
          → (i : ℕ) (b : Option ℕ) → get_elem? s.transit i ≡ some b
          → (compare_cb E tr shr b ≡ some Ordering.lt) ⊎ (compare_cb E tr shr b ≡ some Ordering.gt)
      entry-apart unnamed i b f =
          let (t, n, eb, en) = IsTable-get tr s.transit i b table f in
          let differ : E.addr shr ≢ E.addr n = λ q.
            unnamed i t (f ∙ ap some eb)
              (en ∙ ap some (sym (laws.addr_injective shr n mine (shared t n en) q))) in
          rw eb (ground (arith, compare_cb_entry t n en, differ))

      -- In a well-formed table with near addresses, the binary search of
      -- estate_machine_transition_do returns what a linear search by name returns.
      pub find_transition-linear_find : find_transition E tr shr s ≡ linear_find tr shr s.transit
      unfolding find_transition
      find_transition-linear_find = elim (linear_find-cases s.transit table) [
        | inl (e, unnamed) ↦
            rw (e, whole)
              (search_loop_missing _ s.transit (length s.transit) 0 (length s.transit)
                (entry-apart unnamed) (omega arith))
        | inr (p, t, (e, at, named, lt)) ↦
            rw (e, whole)
              (search_loop_found _ s.transit p (some t) (length s.transit) 0 (length s.transit) at
                (compare_cb_entry t shr named ∙ ground arith) (λ i b. entry-gt p t i b at named)
                (λ i b. entry-lt p t i b at named) (omega arith) lt (omega arith) (omega arith))
      ]
