-- ===== src/Compiler/Check/Machine.antt =====
-- One turn of the loop of estate_cc_check_states, src/bin/estate_cc_check.c: the deduction of states
-- and the choice of the initial state together.
use estate.Base.{
  AreDistinct, ◌*◌, All, length, ℕ, ◌+◌, ◌^◌, ◌≡◌, ◌<◌, ◌≤◌, ◌↔◌, refl, sym, ap, ◌∙◌, inl, inr,
  Bool, true, false, Option, some, List, [], ◌∷◌, Text, ◌==◌, arith, if◌then◌else◌, Bool-cases,
}
use estate.Eina.{Eina, EinaLaws}
use estate.Compiler.Data.{Store, update}
use estate.Compiler.Check.{Cache, state_deduction, foreach, check_init, check_machine}
use estate.Compiler.Check.Table.{bump, HasRoom, Counted}
use estate.Compiler.Check.Deduce.{incoming, Joins, Deduced}
use estate.Compiler.Check.Apart.{AreNames, state_deduction-AreDistinct}
use estate.Compiler.Check.Foreach.{names, IsForeach, IsForeach-Visits}
use estate.Compiler.Check.Size.{Deduced-length}
use estate.Compiler.Check.Sources.{sources, choose, check_init-choose}
use estate.Runtime.Outcome.{returns}

pub update_self {ℓ} : {A : Type ℓ} (g : ℕ → A) (f : ℕ) (a : A) → update g f a f ≡ a
update_self g f a = ground arith

-- The names that no transition leads to.
abbrev pub unreached : (Text → ℕ) → List Text → List Text
unreached c [] = []
unreached c (n ∷ ns) = let rest = unreached c ns in if c n == 0 then n ∷ rest else rest

module _ (E : Eina) where
  sources-unreached :
      (m : Store E.Hash) (f : ℕ) (c : Text → ℕ) (ss : List ℕ)
      → Counted E m f c
      → ((n : Text) → c n < 2 ^ 32)
      → All (λ s. (n : Text) × (E.find (m.fsms f).states n ≡ some s)) ss
      → sources m ss ≡ unreached c (names E m ss)
  sources-unreached m f c [] w le a = refl
  sources-unreached m f c (s ∷ ss) w le ((n, e), a) =
      let ih = sources-unreached m f c ss w le a in
      ground (arith, ih, w.named n s e, w.counts n s e, le n)

  incoming_bound :
      (ps : List (Text × Text)) (c : Text → ℕ) (n : Text) → incoming ps c n ≤ c n + length ps
  incoming_bound [] c n = omega arith
  incoming_bound (p ∷ ps) c n = ground (arith, incoming_bound ps (bump p.1 c) n)

  module _ (laws : EinaLaws E) (room : HasRoom E) (each : E.Hash → List ℕ)
      (every : IsForeach E each) where
    -- The initial state for the memory `m'` that the deduction leaves.
    abbrev pub chosen : Store E.Hash → Store E.Hash → ℕ → List (Text × Text) → Option Text × Bool
    chosen m m' f ps =
        choose (unreached (incoming ps (λ n. 0)) (names E m' (each (m'.fsms f).states)))
          (m.fsms f).init

    -- The initial state of a machine is set.
    abbrev pub initialised : Store E.Hash → ℕ → Option Text → Store E.Hash
    initialised m f i = record m { fsms = update m.fsms f (record (m.fsms f) { init = i }) }

    check_machine_stops :
        (m m' : Store E.Hash) (k k' : Cache E.Hash) (f : ℕ)
        → foreach
            (state_deduction E)
            (m, record k { states = f; ok = true })
            (each (m.fsms f).transitions)
          ≡ returns (m', k')
        → k'.ok ≡ false
        → check_machine E each m k f ≡ returns (m', k')
    unfolding check_machine
    check_machine_stops m m' k k' f e o = rw (e, check_machine) (rw o)

    check_machine_goes :
        (m m' : Store E.Hash) (k k' : Cache E.Hash) (f : ℕ)
        → foreach
            (state_deduction E)
            (m, record k { states = f; ok = true })
            (each (m.fsms f).transitions)
          ≡ returns (m', k')
        → k'.ok ≡ true
        → check_machine E each m k f ≡ check_init E each m' k' f
    unfolding check_machine
    check_machine_goes m m' k k' f e o = rw (e, check_machine) (rw o)

    -- A machine whose states count no transition yet, with an empty table of pairs, whose
    -- transitions join names that fit the buffer, and where its states and the two ends of each
    -- transition are less than 2 ^ 32, and where memory is found: its check ends without a fault. It is accepted if and only if
    -- no two transitions join the same pair and the choice of an initial state among the states that
    -- no transition leads to succeeds. If no two join the same pair, the memory `m'` in which the
    -- choice is made has the ends of each transition as states, with the right counts (`Deduced`).
    -- An accepted machine has the initial state chosen, and nothing else of `m'` has changed.
    pub check_machine-chosen :
        (m : Store E.Hash) (k : Cache E.Hash) (f : ℕ) (ps : List (Text × Text))
        → E.hash_new ≡ some k.hash
        → Counted E m f (λ n. 0)
        → Joins m.transits (each (m.fsms f).transitions) ps
        → AreNames ps
        → length (each (m.fsms f).states) + 2 * length ps < 2 ^ 32
        → (m' : Store E.Hash) × (r : Store E.Hash × Cache E.Hash) × (check_machine E each m k f
            ≡ returns r)
          × (r.1.ok ≡ true ↔ (AreDistinct ps × ((chosen m m' f ps).1 ≡ true)))
          × (AreDistinct ps → Deduced E laws room m m' f ps (λ n. 0))
          × (r.1.ok ≡ true
              → ((r.0.fsms f).init ≡ (chosen m m' f ps).0)
                × (r.0 ≡ initialised m' f (chosen m m' f ps).0))
    check_machine-chosen m k f ps made w j hs few =
        let k0 = record k { states = f; ok = true } in
        let (m', k', runs, apart, d) =
          state_deduction-AreDistinct E laws room m k0 (each (m.fsms f).transitions) ps (λ n. 0)
            made refl w j hs in
        elim (Bool-cases k'.ok) [
          | inl o ↦
              let all = d o in
              let size = Deduced-length E laws room each every m m' f ps (λ n. 0) all in
              let (k1, inits, good) = check_init-choose E each m' k' f (omega (arith, size)) in
              let same : sources m' (each (m'.fsms f).states)
                  ≡ unreached (incoming ps (λ n. 0)) (names E m' (each (m'.fsms f).states)) =
                sources-unreached m' f (incoming ps (λ n. 0)) (each (m'.fsms f).states) all.counted
                  (λ n. omega (arith, incoming_bound ps (λ n. 0) n))
                  (IsForeach-Visits E each every (m'.fsms f).states) in
              let choice : choose (sources m' (each (m'.fsms f).states)) (m'.fsms f).init
                  ≡ chosen m m' f ps =
                ap (λ x. choose x (m'.fsms f).init) same ∙ ap (choose _) all.init in
              (
                m',
                (_, k1),
                check_machine_goes m m' k k' f runs o ∙ inits,
                (
                  λ e. (apart.0 o, ap (λ x. x.1) (sym choice) ∙ sym good ∙ e),
                  λ q. good ∙ ap (λ x. x.1) choice ∙ q.1,
                ),
                λ e. all,
                λ e. (
                  ap (λ x. x.init) (update_self m'.fsms f _) ∙ ap (λ x. x.0) choice,
                  ap (λ x. initialised m' f x.0) choice,
                ),
              )
          | inr o ↦ (
            m',
            (m', k'),
            check_machine_stops m m' k k' f runs o,
            (λ e. cc, λ q. let e = apart.1 q.0 in cc),
            λ e. d (apart.1 e),
            λ e. cc,
          )
        ]
