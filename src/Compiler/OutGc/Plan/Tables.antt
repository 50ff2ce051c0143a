-- ===== src/Compiler/OutGc/Plan/Tables.antt =====
-- The tables of states that src/bin/estate_cc_out_gc.c fills, and the allocations that it prints for them.
use estate.Base.{
  AreDistinct, All, ℕ, ◌≡◌, ◌≢◌, refl, sym, ap, ◌∙◌, List, [], ◌∷◌, ◌++◌, length, arith, ◌-◌, ltb,
  if◌then◌else◌,
}
use mathlib.Core.List.{Perm}
use estate.Eina.{Eina}
use estate.Runtime.Types.{ℤ, pos, negsuc}
use estate.Compiler.Data.{Store, update}
use estate.Compiler.OutGc.{
  Statement, new_state, set_trs, from_cache_all, names_of, sort_cb, states_alloc,
}
use estate.Compiler.OutGc.Alloc.{allocs}
use estate.Compiler.OutGc.Builds.{counts}
use estate.Compiler.OutGc.Plan.{leaving, length-names_of, state_plans}
use estate.Compiler.OutGc.Plan.Collect.{from_cache_all-Collected}

-- The difference of two numbers.
abbrev pub difference : ℕ → ℕ → ℤ
difference x y = if ltb x y then negsuc (y - x - 1) else pos (x - y)

update_other {ℓ} : {A : Type ℓ} (g : ℕ → A) (s a : ℕ) (v : A) → a ≢ s → update g s v a ≡ g a
update_other g s a v d = ground (arith, d)

update_same {ℓ} : {A : Type ℓ} (g : ℕ → A) (s : ℕ) (v : A) → update g s v s ≡ v
update_same g s v = ground arith

module _ (E : Eina) (qsort : (ℕ → ℕ → ℤ) → List ℕ → List ℕ) (each : E.Hash → List ℕ)
    (permutes : (c : ℕ → ℕ → ℤ) (xs : List ℕ) → Perm (qsort c xs) xs) where
  -- The table of a state: the transitions that leave it, sorted.
  abbrev pub sorted : Store E.Hash → List ℕ → ℕ → List ℕ
  sorted m ts s = qsort (sort_cb E qsort each m) (leaving m.transits (m.states s).name ts)

  -- The tables of the states `ss` have been filled.
  pub record Tables (m m' : Store E.Hash) (ts ss : List ℕ) (out : List Statement) : Type 0 where
    pub transits : m'.transits ≡ m.transits
    pub fsms : m'.fsms ≡ m.fsms
    pub others : (a : ℕ) → All (λ x. a ≢ x) ss → m'.states a ≡ m.states a
    pub names : (a : ℕ) → (m'.states a).name ≡ (m.states a).name
    pub enterers : (a : ℕ) → (m'.states a).enterer ≡ (m.states a).enterer
    pub exiters : (a : ℕ) → (m'.states a).exiter ≡ (m.states a).exiter
    pub prints : out ≡ allocs (counts (state_plans m' ss))
    pub tables : All (λ s. (m'.states s).trs ≡ sorted m ts s) ss

  -- One state.
  abbrev tabled : Store E.Hash → ℕ → List ℕ → Store E.Hash
  tabled m s ts =
      let m1 = from_cache_all m s ts in
      set_trs m1 s (qsort (sort_cb E qsort each m1) (m1.states s).trs)

  record Tabled (m m' : Store E.Hash) (s : ℕ) (ts : List ℕ) : Type 0 where
    transits : m'.transits ≡ m.transits
    fsms : m'.fsms ≡ m.fsms
    others : (a : ℕ) → a ≢ s → m'.states a ≡ m.states a
    names : (a : ℕ) → (m'.states a).name ≡ (m.states a).name
    enterers : (a : ℕ) → (m'.states a).enterer ≡ (m.states a).enterer
    exiters : (a : ℕ) → (m'.states a).exiter ≡ (m.states a).exiter
    table : (m'.states s).trs ≡ sorted m ts s

  sort_cb_same :
      (m m' : Store E.Hash)
      → m'.transits ≡ m.transits
      → sort_cb E qsort each m' ≡ sort_cb E qsort each m
  unfolding sort_cb
  sort_cb_same m m' e = λ i t u. sort_cb E qsort each (record m { transits = e i }) t u

  tabled-Tabled :
      (m : Store E.Hash) (s : ℕ) (ts : List ℕ)
      → (m.states s).trs ≡ []
      → Tabled m (tabled m s ts) s ts
  tabled-Tabled m s ts e =
      let c = from_cache_all-Collected ts m s m.transits (m.states s).name refl refl in
      let m1 = from_cache_all m s ts in
      let new = qsort (sort_cb E qsort each m1) (m1.states s).trs in
      let all : (m1.states s).trs ≡ leaving m.transits (m.states s).name ts =
        c.trs ∙ ap (λ x. x ++ leaving m.transits (m.states s).name ts) e in
      record {
        transits = c.transits;
        fsms = c.fsms;
        others = λ a d. update_other m1.states s a _ d ∙ c.others a d;
        names = λ a. ground (arith, c.name, c.others a);
        enterers = λ a. ground (arith, c.enterer, c.others a);
        exiters = λ a. ground (arith, c.exiter, c.others a);
        table =
            ap (λ x. x.trs) (update_same m1.states s _)
            ∙ ap (qsort (sort_cb E qsort each m1)) all
            ∙ ap (λ c. qsort c (leaving m.transits (m.states s).name ts))
                (sort_cb_same m m1 c.transits);
      }

  -- The rest of the memory for a state that is not among `ss`.
  counts_cons :
      (m m' : Store E.Hash) (s : ℕ) (ss : List ℕ)
      → m'.states s ≡ m.states s
      → new_state (m.states s).name (length (m.states s).trs) ∷ allocs (counts (state_plans m' ss))
        ≡ allocs (counts (state_plans m' (s ∷ ss)))
  counts_cons m m' s ss e =
      let named = ap (λ x. x.name) e in
      let sized : length (names_of m' (m'.states s).trs) ≡ length (m.states s).trs =
        length-names_of m' (m'.states s).trs ∙ ap (λ x. length x.trs) e in
      ground (arith, named, sized)

  still_empty :
      (m m' : Store E.Hash) (s : ℕ) (ts ss : List ℕ)
      → Tabled m m' s ts
      → All (λ x. s ≢ x) ss
      → All (λ x. (m.states x).trs ≡ []) ss
      → All (λ x. (m'.states x).trs ≡ []) ss
  still_empty m m' s ts [] a d e = tt
  still_empty m m' s ts (x ∷ ss) a (d, ds) (e, es) =
      (ap (λ y. y.trs) (a.others x (λ q. d (sym q))) ∙ e, still_empty m m' s ts ss a ds es)

  retable :
      (m m1 m2 : Store E.Hash) (ts ss : List ℕ)
      → m1.transits ≡ m.transits
      → ((a : ℕ) → (m1.states a).name ≡ (m.states a).name)
      → All (λ s. (m2.states s).trs ≡ sorted m1 ts s) ss
      → All (λ s. (m2.states s).trs ≡ sorted m ts s) ss
  retable m m1 m2 ts [] e n a = tt
  retable m m1 m2 ts (s ∷ ss) e n (a, as') = (
    a ∙ (λ i. qsort (sort_cb_same m m1 e i) (leaving (e i) (n s i) ts)),
    retable m m1 m2 ts ss e n as',
  )

  pub states_alloc-Tables :
      (ss : List ℕ) (m : Store E.Hash) (ts : List ℕ)
      → AreDistinct ss
      → All (λ s. (m.states s).trs ≡ []) ss
      → let (m', out) = states_alloc E qsort each m ts ss in Tables m m' ts ss out
  unfolding states_alloc
  states_alloc-Tables [] m ts d e = record {
    transits = refl;
    fsms = refl;
    others = λ a h. refl;
    names = λ a. refl;
    enterers = λ a. refl;
    exiters = λ a. refl;
    prints = refl;
    tables = tt;
  }
  states_alloc-Tables (s ∷ ss) m ts (d, ds) (e, es) =
      let a = tabled-Tabled m s ts e in
      let m2 = tabled m s ts in
      let r = states_alloc-Tables ss m2 ts ds (still_empty m m2 s ts ss a d es) in
      let m' = (states_alloc E qsort each m2 ts ss).0 in
      let kept : m'.states s ≡ m2.states s = r.others s d in
      record {
        transits = r.transits ∙ a.transits;
        fsms = r.fsms ∙ a.fsms;
        others = λ x h. r.others x h.1 ∙ a.others x h.0;
        names = λ x. r.names x ∙ a.names x;
        enterers = λ x. r.enterers x ∙ a.enterers x;
        exiters = λ x. r.exiters x ∙ a.exiters x;
        prints =
            ap (◌∷◌ (new_state (m2.states s).name (length (m2.states s).trs))) r.prints
            ∙ counts_cons m2 m' s ss kept;
        tables =
            (ap (λ x. x.trs) kept ∙ a.table, retable m m2 m' ts ss a.transits a.names r.tables);
      }
