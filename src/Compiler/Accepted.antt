-- ===== src/Compiler/Accepted.antt =====
-- From estate_cc_check_states in src/bin/estate_cc_check.c to estate_cc_out_gc in
-- src/bin/estate_cc_out_gc.c: what is printed for a machine that the checker accepts.
pub mod Separate
pub mod Plan
use estate.Base.{
  ◌+◌, ◌*◌, AreDistinct, IsIn, All, length, ℕ, ◌<◌, ◌^◌, ◌≡◌, ◌⊎◌, inl, inr, refl, sym, subst, ap,
  ◌∙◌, Bool, true, Option, none, some, List, [], ◌∷◌, Text, text_eq, ◌==◌, if◌then◌else◌, arith,
}
use mathlib.Core.List.{Perm}
use estate.Eina.{Eina, EinaLaws}
use estate.Runtime.Types.{ℤ, Machine}
use estate.Runtime.Mempool.{Sizes, mem_size}
use estate.Runtime.Mempool.Layout.{IsSmall}
use estate.Runtime.Outcome.{returns}
use estate.Compiler.Data.{Store}
use estate.Compiler.Check.{Cache, check_machine}
use estate.Compiler.Check.Apart.{AreNames}
use estate.Compiler.Check.Deduce.{Joins, ends_of, incoming, Deduced}
use estate.Compiler.Check.Machine.{
  unreached, chosen, initialised, update_self, check_machine-chosen,
}
use estate.Compiler.Check.Size.{Deduced-length}
use estate.Compiler.Check.Sources.{choose}
use estate.Compiler.Check.Table.{Alike, Counted, HasRoom}
use estate.Compiler.OutGc.{Statement, machine_text}
use estate.Compiler.OutGc.Exec.{Program, run}
use estate.Compiler.OutGc.Builds.{Builds}
use estate.Compiler.OutGc.Mirror.{Mirrors}
use estate.Compiler.OutGc.Plan.{state_plans, transition_plans}
use estate.Compiler.OutGc.Machine.{machine_text-building, machine_text-Builds}
use estate.Compiler.Check.Foreach.{
  names, AreStates, IsForeach, IsForeach-Visits, IsForeach-AreStates,
}
use estate.Compiler.Accepted.Plan.{
  IsPlain, IsPlain-Alike, AreUsable, HaveNames, IsChecked, IsChecked-IsPrintable, IsChecked-IsPlan,
  Joins-length,
}

returns_injective {ℓ} : {A : Type ℓ} (a b : A) → returns a ≡ returns b → a ≡ b
returns_injective a b e = cc

-- A choice that succeeds is one of the sources, or the state given.
choose-IsIn :
    (ds : List Text) (init : Option Text)
    → (choose ds init).1 ≡ true
    → (i : Text) × ((choose ds init).0 ≡ some i) × (IsIn i ds ⊎ (init ≡ some i))
choose-IsIn [] none e = cc
choose-IsIn [] (some i) e = (i, refl, inr refl)
choose-IsIn (d ∷ []) none e = (d, refl, inl (inl refl))
choose-IsIn (d ∷ []) (some i) e = (d, ground (arith, e), inl (inl refl))
choose-IsIn (d ∷ e ∷ ds) init q = cc

unreached-IsIn : (c : Text → ℕ) (i : Text) (ns : List Text) → IsIn i (unreached c ns) → IsIn i ns
unreached-IsIn c i [] h = elim h [ ]
unreached-IsIn c i (n ∷ ns) h = ground (arith, h, unreached-IsIn c i ns)

ends-IsIn :
    (i : Text) (ps : List (Text × Text)) (ns : List Text)
    → HaveNames ns ps
    → IsIn i (ends_of ps)
    → IsIn i ns
ends-IsIn i [] ns h e = elim e [ ]
ends-IsIn i ((a, b) ∷ ps) ns h (inl e) = subst (λ x. IsIn x ns) e h.0.0
ends-IsIn i ((a, b) ∷ ps) ns h (inr (inl e)) = subst (λ x. IsIn x ns) e h.0.1
ends-IsIn i ((a, b) ∷ ps) ns h (inr (inr e)) = ends-IsIn i ps ns h.1 e

module _ (E : Eina) (each : E.Hash → List ℕ) where
  -- A machine as the parser leaves it.
  pub record IsReady (m : Store E.Hash) (f : ℕ) (ps : List (Text × Text)) : Type 0 where
    pub counted : Counted E m f (λ n. 0)
    pub plain : (p : ℕ) → IsPlain (m.states p)
    pub joins : Joins m.transits (each (m.fsms f).transitions) ps
    pub usable : AreUsable m.transits (each (m.fsms f).transitions)
    pub no_colons : AreNames ps
    pub starts : (i : Text) → (m.fsms f).init ≡ some i → IsIn i (ends_of ps)
    pub some_transitions : 0 < length ps

  module _ (laws : EinaLaws E) (room : HasRoom E) (every : IsForeach E each) where
    Deduced-HaveNames :
        (m : Store E.Hash) (h : E.Hash) (ss : List ℕ) (ps : List (Text × Text))
        → AreStates E m h ss
        → All (λ (a, b). ((s : ℕ) × (E.find h a ≡ some s)) × ((s : ℕ) × (E.find h b ≡ some s))) ps
        → HaveNames (names E m ss) ps
    Deduced-HaveNames m h ss [] a e = tt
    Deduced-HaveNames m h ss ((x, y) ∷ ps) a (((s, p), (t, q)), e) =
        ((a.all x s p, a.all y t q), Deduced-HaveNames m h ss ps a e)

    -- The initial state that is chosen is a state of the machine.
    chosen-IsIn :
        (m : Store E.Hash) (f : ℕ) (ps : List (Text × Text)) (c : Text → ℕ) (ns : List Text)
        → IsReady m f ps
        → HaveNames ns ps
        → (choose (unreached c ns) (m.fsms f).init).1 ≡ true
        → (i : Text) × ((choose (unreached c ns) (m.fsms f).init).0 ≡ some i) × IsIn i ns
    chosen-IsIn m f ps c ns ready have e =
        let (i, q, at) = choose-IsIn (unreached c ns) (m.fsms f).init e in
        (
          i,
          q,
          elim at [
            | inl h ↦ unreached-IsIn c i ns h
            | inr h ↦ ends-IsIn i ps ns have (ready.starts i h)
          ],
        )

    names_same :
        (m m' : Store E.Hash) (ss : List ℕ) → m'.states ≡ m.states → names E m' ss ≡ names E m ss
    names_same m m' [] e = refl
    names_same m m' (s ∷ ss) e =
        ap (λ st. (st s).name ∷ names E m' ss) e ∙ ap (◌∷◌ (m.states s).name) (names_same m m' ss e)

    -- What the check of a machine leaves, for the memory `m'` after the deduction and the initial
    -- state `i`.
    Deduced-IsChecked :
        (m m' g : Store E.Hash) (f : ℕ) (ps : List (Text × Text)) (i : Text)
        → IsReady m f ps
        → Deduced E laws room m m' f ps (λ n. 0)
        → g.states ≡ m'.states
        → g.transits ≡ m'.transits
        → g.fsms f ≡ record (m'.fsms f) { init = some i }
        → IsIn i (names E m' (each (m'.fsms f).states))
        → length (each (m.fsms f).states) + 2 * length ps < 2 ^ 32
        → IsChecked E each g f i ps
    Deduced-IsChecked m m' g f ps i ready d states transits e at few =
        let most = Deduced-length E laws room each every m m' f ps (λ n. 0) d in
        let size : length (each (m'.fsms f).states) < 2 ^ 32 = omega arith in
        let ts = each (m.fsms f).transitions in
        let h = (m'.fsms f).states in
        let same_states : (g.fsms f).states ≡ h = ap (λ x. x.states) e in
        let same : each (g.fsms f).transitions ≡ ts =
          ap (λ x. each x.transitions) e ∙ ap each d.transitions in
        let tr : g.transits ≡ m.transits = transits ∙ d.transits in
        let named : (n : Text) (s : ℕ) → E.find h n ≡ some s → (g.states s).name ≡ n =
          λ n s q. ap (λ st. (st s).name) states ∙ d.counted.named n s q in
        let table : AreStates E g h (each h) = IsForeach-AreStates E each g h every named in
        record {
          starts = ap (λ x. x.init) e;
          start =
              subst (λ x. IsIn i (names E g (each x))) (sym same_states)
                (subst (IsIn i) (sym (names_same m' g (each h) states)) at);
          plain = λ p.
              IsPlain-Alike (m.states p) (g.states p) (ready.plain p)
                (subst (λ st. Alike (m.states p) (st p)) (sym states) (d.alike p));
          states = subst (λ x. AreStates E g x (each x)) (sym same_states) table;
          joins =
              subst (λ x. Joins x (each (g.fsms f).transitions) ps) (sym tr)
                (subst (λ x. Joins m.transits x ps) (sym same) ready.joins);
          usable =
              subst (λ x. AreUsable x (each (g.fsms f).transitions)) (sym tr)
                (subst (λ x. AreUsable m.transits x) (sym same) ready.usable);
          ends =
              subst (λ x. HaveNames (names E g (each x)) ps) (sym same_states)
                (Deduced-HaveNames g h (each h) ps table d.ends);
          some_transitions = ready.some_transitions;
          few_transitions = omega arith;
          few_states = subst (λ x. length (each x) < 2 ^ 32) (sym same_states) size;
        }

    -- An accepted machine has an initial state, and is as the generator wants it.
    check_machine-IsChecked :
        (m : Store E.Hash) (k : Cache E.Hash) (f : ℕ) (ps : List (Text × Text))
        (r : Store E.Hash × Cache E.Hash)
        → E.hash_new ≡ some k.hash
        → IsReady m f ps
        → length (each (m.fsms f).states) + 2 * length ps < 2 ^ 32
        → check_machine E each m k f ≡ returns r
        → r.1.ok ≡ true
        → (i : Text) × IsChecked E each r.0 f i ps
    check_machine-IsChecked m k f ps r made ready few runs ok =
        let (m', r', runs', good, deduces, accepted) =
          check_machine-chosen E laws room each every m k f ps made ready.counted ready.joins
            ready.no_colons few in
        let same : r' ≡ r = returns_injective r' r (sym runs' ∙ runs) in
        let ok' : r'.1.ok ≡ true = ap (λ x. x.1.ok) same ∙ ok in
        let d = deduces (good.0 ok').0 in
        let (_, g) = accepted ok' in
        let h = (m'.fsms f).states in
        let names_h = names E m' (each h) in
        let table = IsForeach-AreStates E each m' h every d.counted.named in
        let have = Deduced-HaveNames m' h (each h) ps table d.ends in
        let (i, e, at) =
          chosen-IsIn m f ps (incoming ps (λ n. 0)) names_h ready have (good.0 ok').1 in
        let all : r.0 ≡ initialised E laws room each every m' f (some i) =
          ap (λ x. x.0) (sym same) ∙ g ∙ ap (initialised E laws room each every m' f) e in
        (
          i,
          Deduced-IsChecked m m' r.0 f ps i ready d (ap (λ x. x.states) all)
              (ap (λ x. x.transits) all) (ap (λ x. x.fsms f) all ∙ update_self m'.fsms f _) at few,
        )

    module _ (qsort : (ℕ → ℕ → ℤ) → List ℕ → List ℕ)
        (permutes : (c : ℕ → ℕ → ℤ) (xs : List ℕ) → Perm (qsort c xs) xs) (z : Sizes)
        (small : IsSmall z) (state_size : 0 < z.state) (transition_size : 0 < z.transition)
        (malloc : ℕ → Option ℕ) (room_left : (n : ℕ) → (base : ℕ) × (malloc n ≡ some base))
        (calloc : ℕ → Bool) (memory : (n : ℕ) → calloc n ≡ true) (function : Text → ℕ) where
      -- What comes out when the code that is printed for the machine `f` runs.
      abbrev pub Works : Store E.Hash → ℕ → Program E.Hash → Type 0
      Works m f p =
          (init : Text) × (q : Program E.Hash) × (built : Machine E.Hash) × ((m.fsms f).init
            ≡ some init)
          × (run z E malloc calloc function p (machine_text E qsort each m f).1 ≡ returns (some q))
          × Mirrors E qsort each permutes function m f init q built

      IsChecked-Works :
          (m : Store E.Hash) (h : E.Hash) (f : ℕ) (i : Text) (ps : List (Text × Text))
          (p : Program E.Hash)
          → E.hash_new ≡ some h
          → IsChecked E each m f i ps
          → Works m f p
      IsChecked-Works m h f i ps p made c =
          let ss = each (m.fsms f).states in
          let ts = each (m.fsms f).transitions in
          let printable = IsChecked-IsPrintable E qsort each permutes m f i ps c in
          let (tables, _) = machine_text-building E qsort each permutes m f i printable in
          let plan =
            IsChecked-IsPlan E qsort each permutes z malloc calloc function m
              (machine_text E qsort each m f).0 f i ps _ c tables in
          let (base, found) = room_left (mem_size z (length ss) (length ts)) in
          let (q, built, runs, builds) =
            machine_text-Builds E qsort each permutes z small state_size transition_size h made
              malloc calloc memory function m f i p base printable plan found in
          (i, q, built, c.starts, runs, builds)

      pub check_machine-Works :
          (m : Store E.Hash) (k : Cache E.Hash) (f : ℕ) (ps : List (Text × Text))
          (p : Program E.Hash) (r : Store E.Hash × Cache E.Hash)
          → E.hash_new ≡ some k.hash
          → IsReady m f ps
          → length (each (m.fsms f).states) + 2 * length ps < 2 ^ 32
          → check_machine E each m k f ≡ returns r
          → r.1.ok ≡ true
          → Works r.0 f p
      check_machine-Works m k f ps p r made ready few runs ok =
          let (i, c) = check_machine-IsChecked m k f ps r made ready few runs ok in
          IsChecked-Works r.0 k.hash f i ps p made c
