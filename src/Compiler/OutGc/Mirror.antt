-- ===== src/Compiler/OutGc/Mirror.antt =====
-- What the code from src/bin/estate_cc_out_gc.c builds, against the machine of the compiler that it is
-- printed for.
use estate.Base.{
  All, ℕ, ◌≡◌, ◌⊎◌, refl, subst, ap, ◌∙◌, Bool, true, Option, some, List, [], ◌∷◌, Text,
}
use mathlib.Core.List.{Perm}
use estate.Eina.{Eina}
use estate.Compiler.Data.{Store}
use estate.Compiler.OutGc.{Statement, names_of}
use estate.Compiler.OutGc.Exec.{Program, addresses}
use estate.Compiler.OutGc.Builds.{Builds}
use estate.Compiler.OutGc.Fill.{CallsBack, StatesHold}
use estate.Compiler.OutGc.Link.{TransitionsHold}
use estate.Compiler.OutGc.Plan.{HasEnds, state_plans, transition_plans, text_of}
use estate.Compiler.OutGc.Plan.Tables.{Tables, sorted}
use estate.Runtime.Types.{
  ℤ, state_enterer, state_exiter, transition_cb, transition_enterer, transition_exiter, Machine,
}
use estate.Runtime.Build.{current_state_get}
use estate.Runtime.Mempool.{Sizes}

names_of_same :
    {H : Type 0} (m m' : Store H) (ts : List ℕ)
    → m'.transits ≡ m.transits
    → names_of m' ts ≡ names_of m ts
names_of_same m m' [] e = refl
names_of_same m m' (t ∷ ts) e =
    ap (λ tr. (tr t).name ∷ names_of m' ts) e
    ∙ ap (◌∷◌ (m.transits t).name) (names_of_same m m' ts e)

module _ (E : Eina) (qsort : (ℕ → ℕ → ℤ) → List ℕ → List ℕ) (each : E.Hash → List ℕ)
    (permutes : (c : ℕ → ℕ → ℤ) (xs : List ℕ) → Perm (qsort c xs) xs) (function : Text → ℕ) where
  -- The state `s` of the compiler, of whose machine the transitions are `ts`, stands at run time
  -- with its name, its two callbacks, and the table of the transitions that leave it, sorted.
  abbrev pub StateMirrored : Store E.Hash → List ℕ → Program E.Hash → Machine E.Hash → ℕ → Type 0
  StateMirrored m ts q built s =
      (a : ℕ) × (q.states (m.states s).name ≡ some a)
      × ((built.states a).name ≡ some (m.states s).name)
      × (((built.states a).transit
            ≡ addresses q.transits (names_of m (sorted E qsort each permutes m ts s)))
          ⊎ (names_of m (sorted E qsort each permutes m ts s) ≡ []))
      × CallsBack function (built.wrappers (state_enterer a)) (m.states s).enterer
      × CallsBack function (built.wrappers (state_exiter a)) (m.states s).exiter

  -- The transition `t` of the compiler stands at run time with its name, its two ends and its three
  -- callbacks.
  abbrev pub TransitionMirrored : Store E.Hash → Program E.Hash → Machine E.Hash → ℕ → Type 0
  TransitionMirrored m q built t =
      (from : Text) × (to : Text) × ((m.transits t).from ≡ some from)
      × ((m.transits t).to ≡ some to)
      × (a : ℕ) × (f : ℕ) × (u : ℕ) × (q.transits (m.transits t).name ≡ some a)
      × (q.states from ≡ some f)
      × (q.states to ≡ some u)
      × (built.transits a ≡ record { name = some (m.transits t).name; from = some f; to = some u })
      × CallsBack function (built.wrappers (transition_cb a)) (m.transits t).cb
      × CallsBack function (built.wrappers (transition_enterer a)) (m.transits t).enterer
      × CallsBack function (built.wrappers (transition_exiter a)) (m.transits t).exiter

  -- The machine at run time is locked at its initial state, and it has the states and the transitions
  -- of the machine `f` of the compiler.
  pub record Mirrors (m : Store E.Hash) (f : ℕ) (init : Text) (q : Program E.Hash)
      (built : Machine E.Hash) : Type 0 where
    pub fsm : q.fsm ≡ some built
    pub locked : built.locked ≡ true
    pub start : (i : ℕ) × (q.states init ≡ some i) × (current_state_get built ≡ some i)
    pub states :
        All (StateMirrored m (each (m.fsms f).transitions) q built) (each (m.fsms f).states)
    pub transits : All (TransitionMirrored m q built) (each (m.fsms f).transitions)

  states_mirrored :
      (m m' : Store E.Hash) (ts ss' ss : List ℕ) (out : List Statement) (q : Program E.Hash)
      (built : Machine E.Hash)
      → Tables E qsort each permutes m m' ts ss' out
      → All (λ s. (m'.states s).trs ≡ sorted E qsort each permutes m ts s) ss
      → StatesHold function q.states q.transits built.states built.wrappers (state_plans m' ss)
      → All (StateMirrored m ts q built) ss
  states_mirrored m m' ts ss' [] out q built t e h = tt
  states_mirrored m m' ts ss' (s ∷ ss) out q built t (e, es) ((a, at, named, tab, en, ex), h) = (
    (
      a,
      subst (λ n. q.states n ≡ some a) (t.names s) at,
      subst (λ n. (built.states a).name ≡ some n) (t.names s) named,
      subst (λ ns. ((built.states a).transit ≡ addresses q.transits ns) ⊎ (ns ≡ []))
          (names_of_same m m' (m'.states s).trs t.transits ∙ ap (names_of m) e) tab,
      subst (CallsBack function (built.wrappers (state_enterer a))) (t.enterers s) en,
      subst (CallsBack function (built.wrappers (state_exiter a))) (t.exiters s) ex,
    ),
    states_mirrored m m' ts ss' ss out q built t es h,
  )

  transitions_mirrored :
      (m m' : Store E.Hash) (ts : List ℕ) (q : Program E.Hash) (built : Machine E.Hash)
      → m'.transits ≡ m.transits
      → All (λ t. HasEnds (m.transits t)) ts
      → TransitionsHold function q.states q.transits built.transits built.wrappers
          (transition_plans m' ts)
      → All (TransitionMirrored m q built) ts
  transitions_mirrored m m' [] q built e ends h = tt
  transitions_mirrored m m' (t ∷ ts) q built e ((x, y, from, to), ends)
        ((a, f, u, at, f_at, u_at, is, c, en, ex), h) =
      let same : m'.transits t ≡ m.transits t = ap (λ tr. tr t) e in
      (
        (
          x,
          y,
          from,
          to,
          a,
          f,
          u,
          subst (λ r. q.transits r.name ≡ some a) same at,
          subst (λ o. q.states (text_of o) ≡ some f) (ap (λ r. r.from) same ∙ from) f_at,
          subst (λ o. q.states (text_of o) ≡ some u) (ap (λ r. r.to) same ∙ to) u_at,
          subst (λ r. built.transits a ≡ record { name = some r.name; from = some f; to = some u })
              same is,
          subst (λ r. CallsBack function (built.wrappers (transition_cb a)) r.cb) same c,
          subst (λ r. CallsBack function (built.wrappers (transition_enterer a)) r.enterer) same en,
          subst (λ r. CallsBack function (built.wrappers (transition_exiter a)) r.exiter) same ex,
        ),
        transitions_mirrored m m' ts q built e ends h,
      )

  pub Builds-Mirrors :
      (z : Sizes) (malloc : ℕ → Option ℕ) (calloc : ℕ → Bool) (m m' : Store E.Hash) (f : ℕ)
      (init : Text) (out : List Statement) (q : Program E.Hash) (built : Machine E.Hash)
      → let ss = each (m.fsms f).states in
        let ts = each (m.fsms f).transitions in
        Tables E qsort each permutes m m' ts ss out
        → All (λ t. HasEnds (m.transits t)) ts
        → Builds z E malloc calloc function q init
            (state_plans m' ss)
            (transition_plans m' ts)
            built
        → Mirrors m f init q built
  Builds-Mirrors z malloc calloc m m' f init out q built t ends b =
      let ss = each (m.fsms f).states in
      let ts = each (m.fsms f).transitions in
      record {
        fsm = b.fsm;
        locked = b.locked;
        start = b.start;
        states = states_mirrored m m' ts ss ss out q built t t.tables b.states;
        transits = transitions_mirrored m m' ts q built t.transits ends b.transits;
      }
