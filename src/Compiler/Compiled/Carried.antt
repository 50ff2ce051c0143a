-- ===== src/Compiler/Compiled/Carried.antt =====
-- The transitions of a description in the machine that the code from src/bin/estate_cc_out_gc.c builds.
use estate.Base.{
  All, AreDistinct, IsIn, ℕ, ◌≡◌, ◌≢◌, inl, inr, refl, sym, subst, ap, ◌∙◌, true, Option, some,
  List, [], ◌∷◌, Text, text_eq_self, Bool-cases, map,
}
use mathlib.Core.List.Perm
use mathlib.Core.List.{Perm, Mem, mem-cons_self, mem-cons_of_mem, mem-map_of_mem, not-mem-nil}
use estate.Eina.{Eina, EinaLaws}
use estate.Compiler.Data.{Store, Transit}
use estate.Compiler.Check.Deduce.{Deduced}
use estate.Compiler.Check.Foreach.{Listed, IsForeach}
use estate.Compiler.Check.Table.{HasRoom}
use estate.Compiler.Compiled.Accepts.{pair_of}
use estate.Compiler.Compiled.Table.{All-IsIn, IsTaken}
use estate.Compiler.OutGc.{names_of, same_name}
use estate.Compiler.OutGc.Exec.{Program, addresses}
use estate.Compiler.OutGc.Mirror.{Mirrors, StateMirrored, TransitionMirrored}
use estate.Compiler.OutGc.Plan.{leaving}
use estate.Compiler.OutGc.Plan.Tables.{sorted}
use estate.Compiler.Parser.Clauses.{Clause, clause_names}
use estate.Compiler.Parser.Listed.{transit_of, IsMachine}
use estate.Runtime.Types.{ℤ, Machine}

-- The transition of a clause stands at run time with its name and its two ends, and in the table of
-- the state that it leaves.
abbrev pub IsCarried : {H : Type 0} → Program H → Machine H → Clause → Type 0
IsCarried q built (n, a, b) =
    (t : ℕ) × (u : ℕ) × (v : ℕ) × (q.transits n ≡ some t)
    × (q.states a ≡ some u)
    × (q.states b ≡ some v)
    × (built.transits t ≡ record { name = some n; from = some u; to = some v })
    × Mem (some t) (built.states u).transit

All-of {κ} : {A : Type 0} (P : A → Type κ) (xs : List A) → ((x : A) → IsIn x xs → P x) → All P xs
All-of P [] h = tt
All-of P (x ∷ xs) h = (h x (inl refl), All-of P xs (λ y i. h y (inr i)))

leaving-Mem :
    (tr : ℕ → Transit) (n : Text) (t : ℕ) (ts : List ℕ)
    → (tr t).from ≡ some n
    → IsIn t ts
    → Mem t (leaving tr n ts)
leaving-Mem tr n t [] e i = elim i [ ]
leaving-Mem tr n t (x ∷ ts) e (inl q) =
    let yes : same_name (tr x).from n ≡ true =
      ap (λ y. same_name (tr y).from n) q ∙ ap (λ o. same_name o n) e ∙ text_eq_self n in
    rw yes (subst (λ y. Mem t (y ∷ leaving tr n ts)) (sym q) mem-cons_self)
leaving-Mem tr n t (x ∷ ts) e (inr i) = elim (Bool-cases (same_name (tr x).from n)) [
  | inl q ↦ rw q (mem-cons_of_mem x (leaving-Mem tr n t ts e i))
  | inr q ↦ rw q (leaving-Mem tr n t ts e i)
]

-- The array that an initialiser of a state is given.
map_addresses :
    {H : Type 0} (m : Store H) (f : Text → Option ℕ) (ts : List ℕ) (t : ℕ)
    → Mem t ts
    → Mem (f (m.transits t).name) (addresses f (names_of m ts))
map_addresses m f [] t i = absurd (not-mem-nil i)
map_addresses m f (x ∷ ts) t i =
    subst (λ xs. Mem (f (m.transits t).name) xs) (same (x ∷ ts))
      (mem-map_of_mem (λ y. f (m.transits y).name) i)
  where
    same : (xs : List ℕ) → map (λ y. f (m.transits y).name) xs ≡ addresses f (names_of m xs)
    same [] = refl
    same (y ∷ xs) = ap (◌∷◌ (f (m.transits y).name)) (same xs)

names_of-some : {H : Type 0} (m : Store H) (ts : List ℕ) (t : ℕ) → Mem t ts → names_of m ts ≢ []
names_of-some m [] t i e = not-mem-nil i
names_of-some m (x ∷ ts) t i e = cc

module _ (E : Eina) where
  Listed-IsIn :
      (h : E.Hash) (n : Text) (t : ℕ) (ks : List Text) (vs : List ℕ)
      → Listed E h ks vs
      → E.find h n ≡ some t
      → IsIn n ks
      → IsIn t vs
  Listed-IsIn h n t [] vs l e i = elim i [ ]
  Listed-IsIn h n t (k ∷ ks) [] l e i = elim l [ ]
  Listed-IsIn h n t (k ∷ ks) (v ∷ vs) (g, l) e (inl q) = inl (let s = ap (E.find h) q in cc)
  Listed-IsIn h n t (k ∷ ks) (v ∷ vs) (g, l) e (inr i) = inr (Listed-IsIn h n t ks vs l e i)

module _ (E : Eina) (laws : EinaLaws E) (room : HasRoom E) (each : E.Hash → List ℕ)
    (every : IsForeach E each) (qsort : (ℕ → ℕ → ℤ) → List ℕ → List ℕ)
    (permutes : (c : ℕ → ℕ → ℤ) (xs : List ℕ) → Perm (qsort c xs) xs) (function : Text → ℕ) where
  find-IsIn : (h : E.Hash) (n : Text) (t : ℕ) → E.find h n ≡ some t → IsIn t (each h)
  find-IsIn h n t e =
      Listed-IsIn E h n t (every.keys h) (each h) (every.visits h) e (every.covers h n t e)

  -- A transition is in the table of the state that it leaves.
  in_table :
      (m : Store E.Hash) (q : Program E.Hash) (built : Machine E.Hash) (ts : List ℕ) (s t u v : ℕ)
      → (m.transits t).from ≡ some (m.states s).name
      → IsIn t ts
      → q.states (m.states s).name ≡ some u
      → q.transits (m.transits t).name ≡ some v
      → StateMirrored E qsort each permutes function m ts q built s
      → Mem (some v) (built.states u).transit
  in_table m q built ts s t u v from i at t_at (a, a_at, _, table, _, _) =
      let c = sorted E qsort each permutes m ts s in
      let inside : Mem t c =
        (Perm.mem_iff (permutes _ _)).1 (leaving-Mem m.transits _ t ts from i) in
      let same : a ≡ u = cc in
      elim table [
        | inl e ↦
            subst (λ x. Mem (some v) (built.states x).transit) same
              (subst (λ x. Mem (some v) x) (sym e)
                (subst (λ x. Mem x (addresses q.transits (names_of m c))) t_at
                  (map_addresses m q.transits c t inside)))
        | inr e ↦ absurd (names_of-some m c t inside e)
      ]

  module _ (m0 m m1 g : Store E.Hash) (f : ℕ) (name : Text) (cs : List Clause)
      (ps : List (Text × Text)) (init : Text) (is : IsMachine E laws room m0 m f name cs)
      (t : IsTaken E laws room each every m f cs ps) (ds : AreDistinct (clause_names cs))
      (d : Deduced E laws room m m1 f ps (λ n. 0)) (i : Option Text) (q : Program E.Hash)
      (built : Machine E.Hash) (states : g.states ≡ m1.states) (transits : g.transits ≡ m1.transits)
      (fsm : g.fsms f ≡ record (m1.fsms f) { init = i })
      (mirrors : Mirrors E qsort each permutes function g f init q built) where
    carried : (c : Clause) → IsIn c cs → IsCarried q built c
    carried (n, a, b) j =
        let (x, at, row) = is.transitions.found n a b j in
        let tr : g.transits x ≡ transit_of (n, a, b) =
          ap (λ y. y x) (transits ∙ d.transits) ∙ row in
        let same : (g.fsms f).transitions ≡ (m.fsms f).transitions =
          ap (λ y. y.transitions) fsm ∙ d.transitions in
        let x_in : IsIn x (each (g.fsms f).transitions) =
          subst (λ h. IsIn x (each h)) (sym same) (find-IsIn (m.fsms f).transitions n x at) in
        let ((s, s_at), _) =
          All-IsIn
            (λ (y, z).
              ((w : ℕ) × (E.find (m1.fsms f).states y ≡ some w))
              × ((w : ℕ) × (E.find (m1.fsms f).states z ≡ some w)))
            ps (a, b) d.ends
            (pair_of E laws room each every m0 m m1 f name cs ps is t ds d n a b j) in
        let s_in : IsIn s (each (g.fsms f).states) =
          subst (λ h. IsIn s (each h)) (sym (ap (λ y. y.states) fsm))
            (find-IsIn (m1.fsms f).states a s s_at) in
        let called : (g.states s).name ≡ a =
          ap (λ y. (y s).name) states ∙ d.counted.named a s s_at in
        let (from, to, from_at, to_at, v, u, w, v_at, u_at, w_at, image, _, _, _) =
          All-IsIn (TransitionMirrored E qsort each permutes function g q built) _ x
            mirrors.transits x_in in
        let mirrored =
          All-IsIn
            (StateMirrored E qsort each permutes function g (each (g.fsms f).transitions) q built) _
            s mirrors.states s_in in
        let named : (g.transits x).name ≡ n = ap (λ y. y.name) tr in
        let from_a : from ≡ a = let e = ap (λ y. y.from) tr in cc in
        let to_b : to ≡ b = let e = ap (λ y. y.to) tr in cc in
        let leaves : (g.transits x).from ≡ some (g.states s).name =
          ap (λ y. y.from) tr ∙ ap some (sym called) in
        let u_here : q.states a ≡ some u = ap q.states (sym from_a) ∙ u_at in
        (
          v,
          u,
          w,
          ap q.transits (sym named) ∙ v_at,
          u_here,
          ap q.states (sym to_b) ∙ w_at,
          image ∙ ap (λ y. record { name = some y; from = some u; to = some w }) named,
          in_table g q built (each (g.fsms f).transitions) s x u v leaves x_in
              (ap q.states called ∙ u_here) v_at mirrored,
        )

    pub All-IsCarried : All (IsCarried q built) cs
    All-IsCarried = All-of (IsCarried q built) cs carried
