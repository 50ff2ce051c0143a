-- ===== src/Compiler/OutGc.antt =====
-- The generator of C code, src/bin/estate_cc_out_gc.c. What it prints for a machine is a list of
-- statements, one for each call of fprintf or for each callback of a table.
pub mod Print
pub mod Exec
pub mod Alloc
pub mod Fill
pub mod Link
pub mod Builds
pub mod Plan
pub mod Mirror
pub mod Machine
use estate.Base.{
  ℕ, ◌+◌, ◌-◌, ◌%◌, ◌^◌, Bool, true, false, Option, none, some, List, [], ◌∷◌, ◌++◌, Text, codes,
  length, text_eq, ltb, if◌then◌else◌,
}
use estate.Eina.{Eina}
use estate.Runtime.Types.{ℤ, pos, negsuc}
use estate.Compiler.Data.{Cb, State, Transit, Fsm, Store, update}

pub data Statement : Type 0 where
  prototype : Text → Statement
  end_prototypes : Statement
  begin : Text → Statement
  declare_state declare_transition : Text → Statement
  blank : Statement
  new_machine : ℕ → ℕ → Statement
  new_state : Text → ℕ → Statement
  new_transition : Text → Statement
  init_state : Text → List Text → Cb → Cb → Statement
  init_transition : Text → Option Text → Option Text → Cb → Cb → Cb → Statement
  finish : Option Text → Text → Statement

-- `_proto_func_common`
unfoldable pub prototypes : List (Option Text) → List Statement
prototypes [] = []
prototypes (none ∷ fs) = prototypes fs
prototypes (some f ∷ fs) = prototype f ∷ prototypes fs

abbrev pub same_name : Option Text → Text → Bool
same_name none n = false
same_name (some t) n = text_eq t n

abbrev pub s32 : ℕ → ℤ
s32 n = if ltb n (2 ^ 31) then pos n else negsuc (2 ^ 32 - 1 - n)

module _ {Hash : Type 0} where
  abbrev pub set_trs : Store Hash → ℕ → List ℕ → Store Hash
  set_trs m s ts = record m { states = update m.states s (record (m.states s) { trs = ts }) }

  -- `_each_transitions_gc_from_cache_cb` for the state `s`
  unfoldable pub from_cache : Store Hash → ℕ → ℕ → Store Hash
  from_cache m s t =
      if same_name (m.transits t).from (m.states s).name
      then set_trs m s ((m.states s).trs ++ t ∷ [])
      else m

  unfoldable pub from_cache_all : Store Hash → ℕ → List ℕ → Store Hash
  from_cache_all m s [] = m
  from_cache_all m s (t ∷ ts) = from_cache_all (from_cache m s t) s ts

  -- The callbacks for the text before the allocations.
  unfoldable pub states_proto : Store Hash → List ℕ → List Statement
  states_proto m [] = []
  states_proto m (s ∷ ss) =
      prototypes ((m.states s).enterer.func ∷ (m.states s).exiter.func ∷ []) ++ states_proto m ss

  unfoldable pub transitions_proto : Store Hash → List ℕ → List Statement
  transitions_proto m [] = []
  transitions_proto m (t ∷ ts) = prototypes ((m.transits t).cb.func ∷ []) ++ transitions_proto m ts

  unfoldable pub states_declare : Store Hash → List ℕ → List Statement
  states_declare m [] = []
  states_declare m (s ∷ ss) = declare_state (m.states s).name ∷ states_declare m ss

  unfoldable pub transitions_declare : Store Hash → List ℕ → List Statement
  transitions_declare m [] = []
  transitions_declare m (t ∷ ts) = declare_transition (m.transits t).name ∷ transitions_declare m ts

  unfoldable pub transitions_alloc : Store Hash → List ℕ → List Statement
  transitions_alloc m [] = []
  transitions_alloc m (t ∷ ts) = new_transition (m.transits t).name ∷ transitions_alloc m ts

  abbrev pub names_of : Store Hash → List ℕ → List Text
  names_of m [] = []
  names_of m (t ∷ ts) = (m.transits t).name ∷ names_of m ts

  -- `_each_states_gc_init_cb`
  unfoldable pub state_init_text : Store Hash → ℕ → Statement
  state_init_text m s =
      let st = m.states s in init_state st.name (names_of m st.trs) st.enterer st.exiter

  unfoldable pub states_init : Store Hash → List ℕ → List Statement
  states_init m [] = []
  states_init m (s ∷ ss) = state_init_text m s ∷ states_init m ss

  -- `_each_transitions_gc_init_cb`
  unfoldable pub transition_init_text : Store Hash → ℕ → Statement
  transition_init_text m t =
      let tr = m.transits t in init_transition tr.name tr.from tr.to tr.cb tr.enterer tr.exiter

  unfoldable pub transitions_init : Store Hash → List ℕ → List Statement
  transitions_init m [] = []
  transitions_init m (t ∷ ts) = transition_init_text m t ∷ transitions_init m ts

module _ (E : Eina) (qsort : (ℕ → ℕ → ℤ) → List ℕ → List ℕ) (each : E.Hash → List ℕ) where
  -- `_sort_cb`: the difference of two addresses as an int
  unfoldable pub sort_cb : Store E.Hash → ℕ → ℕ → ℤ
  sort_cb m t1 t2 =
      s32 ((E.addr (m.transits t1).name + 2 ^ 64 - E.addr (m.transits t2).name) % 2 ^ 32)

  -- `_each_states_gc_alloc_cb` for each state
  unfoldable pub states_alloc : Store E.Hash → List ℕ → List ℕ → Store E.Hash × List Statement
  unfolding from_cache_all from_cache
  states_alloc m ts [] = (m, [])
  states_alloc m ts (s ∷ ss) =
      let m1 = from_cache_all m s ts in
      let m2 = set_trs m1 s (qsort (sort_cb m1) (m1.states s).trs) in
      let (m3, rest) = states_alloc m2 ts ss in
      (m3, new_state (m2.states s).name (length (m2.states s).trs) ∷ rest)

  -- The declarations, up to the call of estate_machine_new.
  unfoldable pub prologue : Store E.Hash → Text → List ℕ → List ℕ → List Statement
  prologue m name ss ts =
      let variables = states_declare m ss ++ (transitions_declare m ts ++ blank ∷ []) in
      states_proto m ss ++ (transitions_proto m ts ++ end_prototypes ∷ begin name ∷ variables)

  -- The turn of the loop in estate_cc_out_gc for the machine `f`.
  unfoldable pub machine_text : Store E.Hash → ℕ → Store E.Hash × List Statement
  machine_text m f =
      let fsm = m.fsms f in
      let ss = each fsm.states in
      let ts = each fsm.transitions in
      let (m', allocs) = states_alloc m ts ss in
      let inits =
        states_init m' ss ++ (transitions_init m' ts ++ blank ∷ finish fsm.init fsm.name ∷ []) in
      let build =
        new_machine (length ss) (length ts)
        ∷ (allocs ++ (transitions_alloc m' ts ++ blank ∷ inits)) in
      (m', prologue m fsm.name ss ts ++ build)

  unfoldable pub machines_text : Store E.Hash → List ℕ → Store E.Hash × List Statement
  machines_text m [] = (m, [])
  machines_text m (f ∷ fs) =
      let (m1, a) = machine_text m f in let (m2, b) = machines_text m1 fs in (m2, a ++ b)
