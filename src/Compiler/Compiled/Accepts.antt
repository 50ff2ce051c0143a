-- ===== src/Compiler/Compiled/Accepts.antt =====
-- The checker, src/bin/estate_cc_check.c, on the machine of a description with one state that no transition
-- leads to.
use estate.Base.{
  AreDistinct, IsIn, ℕ, ◌<◌, ◌≡◌, ◌≢◌, inl, inr, ap, ◌∙◌, true, some, List, [], ◌∷◌, Text,
}
use estate.Eina.{Eina, EinaLaws}
use estate.Compiler.Data.{Store}
use estate.Compiler.Check.Deduce.{ends_of, incoming, Deduced}
use estate.Compiler.Check.Foreach.{names, names-find, IsForeach, IsForeach-AreStates}
use estate.Compiler.Check.Machine.{chosen, unreached}
use estate.Compiler.Check.Size.{IsIn-cases}
use estate.Compiler.Check.Sources.{choose}
use estate.Compiler.Check.Table.{HasRoom}
use estate.Compiler.Parser.Clauses.{Clause, clause_names}
use estate.Compiler.Parser.Listed.{IsMachine}
use estate.Compiler.Compiled.Rooted.{
  IsUnambiguous, IsRooted, Rows-AreDistinct, Rows-clause, clause-IsIn, ends_of-IsIn, incoming_some,
  incoming_none, unreached_one,
}
use estate.Compiler.Compiled.Table.{All-IsIn, IsTaken}

module _ (E : Eina) (laws : EinaLaws E) (room : HasRoom E) (each : E.Hash → List ℕ)
    (every : IsForeach E each) where
  pub IsTaken-AreDistinct :
      (m : Store E.Hash) (f : ℕ) (cs : List Clause) (ps : List (Text × Text))
      → IsUnambiguous cs
      → IsTaken E laws room each every m f cs ps
      → AreDistinct ps
  IsTaken-AreDistinct m f cs ps u t =
      let h = (m.fsms f).transitions in
      Rows-AreDistinct cs (every.keys h) ps u (every.once h) t.rows

  module _ (m0 m m' : Store E.Hash) (f : ℕ) (name : Text) (cs : List Clause)
      (ps : List (Text × Text)) (is : IsMachine E laws room m0 m f name cs)
      (t : IsTaken E laws room each every m f cs ps) (ds : AreDistinct (clause_names cs))
      (d : Deduced E laws room m m' f ps (λ n. 0)) where
    pub pair_of : (n a b : Text) → IsIn (n, a, b) cs → IsIn (a, b) ps
    pair_of n a b i =
        clause-IsIn cs n a b (every.keys (m.fsms f).transitions) ps ds t.rows (t.keyed n a b i) i

  module _ (m0 m m' : Store E.Hash) (f : ℕ) (name : Text) (cs : List Clause)
      (ps : List (Text × Text)) (s : Text) (is : IsMachine E laws room m0 m f name cs)
      (t : IsTaken E laws room each every m f cs ps) (ds : AreDistinct (clause_names cs))
      (rooted : IsRooted cs s) (d : Deduced E laws room m m' f ps (λ n. 0)) where
    abbrev states_named : List Text
    states_named = names E m' (each (m'.fsms f).states)

    clause_of : (a b : Text) → IsIn (a, b) ps → (n : Text) × IsIn (n, a, b) cs
    clause_of a b i = Rows-clause cs a b (every.keys (m.fsms f).transitions) ps t.rows i

    root_named : IsIn s states_named
    root_named =
        let (n, b, i) = rooted.leaves in
        let table = IsForeach-AreStates E each m' (m'.fsms f).states every d.counted.named in
        let ((v, e), _) =
          All-IsIn
            (λ (a, b).
              ((s : ℕ) × (E.find (m'.fsms f).states a ≡ some s))
              × ((s : ℕ) × (E.find (m'.fsms f).states b ≡ some s)))
            ps (s, b) d.ends (pair_of m0 m m' f name cs ps is t ds d n s b i) in
        table.all s v e

    root_unreached : incoming ps (λ n. 0) s ≡ 0
    root_unreached =
        incoming_none ps (λ n. 0) s (λ a i. let (n, j) = clause_of a s i in rooted.unentered n a j)

    -- Each other state is reached.
    others_reached : (x : Text) → IsIn x states_named → x ≢ s → 0 < incoming ps (λ n. 0) x
    others_reached x i apart =
        let h = (m'.fsms f).states in
        let (v, e) =
          names-find E m' h x (every.keys h) (each h) d.counted.named (every.visits h) i in
        elim (IsIn-cases x (ends_of ps)) [
          | inr a ↦ let q = d.only x a (is.no_states x) in cc
          | inl j ↦ elim (ends_of-IsIn x ps j) [
            | inl (y, p) ↦
                let (n, k) = clause_of x y p in
                let (l, c, q) = rooted.entered n x y k apart in
                incoming_some ps (λ n. 0) c x (pair_of m0 m m' f name cs ps is t ds d l c x q)
            | inr (y, p) ↦ incoming_some ps (λ n. 0) y x p
          ]
        ]

    pub chosen-root : chosen E laws room each every m m' f ps ≡ (some s, true)
    chosen-root =
        let table = IsForeach-AreStates E each m' (m'.fsms f).states every d.counted.named in
        let one : unreached (incoming ps (λ n. 0)) states_named ≡ s ∷ [] =
          unreached_one (incoming ps (λ n. 0)) s states_named table.distinct root_named
            root_unreached others_reached in
        ap (λ x. choose x (m.fsms f).init) one ∙ ap (choose (s ∷ [])) is.no_init
