-- ===== src/Runtime/Search/Loop.antt =====
-- The binary search by bsearch, for any comparison, as src/lib/estate_machine.c uses it.
use Prim.Native.Nat.{Ordering}
use estate.Base.{
  ℕ, zero, suc, ◌+◌, ◌/◌, ◌≤◌, ◌<◌, ◌≡◌, refl, sym, subst, inl, inr, ◌⊎◌, true, Option, some, List,
  length, get_elem?, get_elem?_lt, ltb, arith, Bool-cases,
}
use estate.Runtime.Search.{Search, missing, found, search_loop}

module _ {A : Type 0} (cmp : A → Option Ordering) (xs : List A) where
  -- An element at place `p` that compares equal is found, if those before it compare below and
  -- those behind it above.
  pub search_loop_found :
      (p : ℕ) (a : A) (fuel l u : ℕ)
      → get_elem? xs p ≡ some a
      → cmp a ≡ some Ordering.eq
      → ((i : ℕ) (b : A) → i < p → get_elem? xs i ≡ some b → cmp b ≡ some Ordering.gt)
      → ((i : ℕ) (b : A) → p < i → get_elem? xs i ≡ some b → cmp b ≡ some Ordering.lt)
      → l ≤ p
      → p < u
      → u ≤ length xs
      → u ≤ l + fuel
      → search_loop cmp xs fuel l u ≡ found a
  unfolding search_loop
  search_loop_found p a zero l u e c below above hl hu hn hf = absurd (omega arith)
  search_loop_found p a (suc fuel) l u e c below above hl hu hn hf =
      let (b, eb) = get_elem?_lt xs ((l + u) / 2) (omega arith) in
      ground (
        arith,
        eb,
        below ((l + u) / 2) b,
        above ((l + u) / 2) b,
        search_loop_found p a fuel l ((l + u) / 2) e c below above,
        search_loop_found p a fuel ((l + u) / 2 + 1) u e c below above,
      )

  -- If no element compares equal, nothing is found.
  pub search_loop_missing :
      (fuel l u : ℕ)
      → ((i : ℕ) (b : A)
          → get_elem? xs i ≡ some b
          → (cmp b ≡ some Ordering.lt) ⊎ (cmp b ≡ some Ordering.gt))
      → u ≤ length xs
      → search_loop cmp xs fuel l u ≡ missing
  unfolding search_loop
  search_loop_missing zero l u apart hn = refl
  search_loop_missing (suc fuel) l u apart hn = elim (Bool-cases (ltb l u)) [
    | inl more ↦
        let (b, eb) = get_elem?_lt xs ((l + u) / 2) (ground arith) in
        ground (
          arith,
          eb,
          apart ((l + u) / 2) b,
          search_loop_missing fuel l ((l + u) / 2) apart,
          search_loop_missing fuel ((l + u) / 2 + 1) u apart,
        )
    | inr done ↦ ground arith
  ]

  -- The search gives an element of the list or none.
  abbrev IsEntry : Search A → Type 0
  IsEntry x = (x ≡ missing) ⊎ ((i : ℕ) × (b : A) × (get_elem? xs i ≡ some b) × (x ≡ found b))

  pub search_loop_turn :
      (fuel l u : ℕ) (b : A) (o : Ordering)
      → ltb l u ≡ true
      → get_elem? xs ((l + u) / 2) ≡ some b
      → cmp b ≡ some o
      → IsEntry (search_loop cmp xs fuel l ((l + u) / 2))
      → IsEntry (search_loop cmp xs fuel ((l + u) / 2 + 1) u)
      → IsEntry (search_loop cmp xs (suc fuel) l u)
  unfolding search_loop
  search_loop_turn fuel l u b Ordering.lt more eb ec low high =
      let e : search_loop cmp xs (suc fuel) l u ≡ search_loop cmp xs fuel l ((l + u) / 2) =
        ground (arith, more, eb, ec) in
      subst IsEntry (sym e) low
  search_loop_turn fuel l u b Ordering.gt more eb ec low high =
      let e : search_loop cmp xs (suc fuel) l u ≡ search_loop cmp xs fuel ((l + u) / 2 + 1) u =
        ground (arith, more, eb, ec) in
      subst IsEntry (sym e) high
  search_loop_turn fuel l u b Ordering.eq more eb ec low high =
      inr ((l + u) / 2, b, eb, ground (arith, more, eb, ec))

  -- If every element can be compared, the search uses no NULL pointer.
  pub search_loop-IsEntry :
      (fuel l u : ℕ)
      → ((i : ℕ) (b : A) → get_elem? xs i ≡ some b → (o : Ordering) × (cmp b ≡ some o))
      → u ≤ length xs
      → IsEntry (search_loop cmp xs fuel l u)
  unfolding search_loop
  search_loop-IsEntry zero l u good hn = inl refl
  search_loop-IsEntry (suc fuel) l u good hn = elim (Bool-cases (ltb l u)) [
    | inr done ↦ inl (ground arith)
    | inl more ↦
        let (b, eb) = get_elem?_lt xs ((l + u) / 2) (ground arith) in
        let (o, ec) = good ((l + u) / 2) b eb in
        search_loop_turn fuel l u b o more eb ec
          (search_loop-IsEntry fuel l ((l + u) / 2) good (ground arith))
          (search_loop-IsEntry fuel ((l + u) / 2 + 1) u good hn)
  ]
