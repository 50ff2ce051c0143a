-- ===== src/Compiler/OutGc/Exec.antt =====
-- What the statements that src/bin/estate_cc_out_gc.c prints do when they run: calls of the library,
-- with the variables of the generated function. Names are taken to be C identifiers, and keys to hold
-- nothing that C would read otherwise.
use estate.Base.{
  ℕ, ◌≡◌, sym, subst, ap, Bool, true, false, Option, none, some, List, [], ◌∷◌, ◌++◌, Text, length,
  text_eq, ltb, if◌then◌else◌,
}
use estate.Eina.{Eina}
use estate.Compiler.Data.{Cb}
use estate.Compiler.OutGc.{
  Statement, prototype, end_prototypes, begin, declare_state, declare_transition, blank,
  new_machine, new_state, new_transition, init_state, init_transition, finish,
}
use estate.Runtime.Types.{CbCtor, Machine}
use estate.Runtime.Mempool.{Sizes}
use estate.Runtime.Build.{
  machine_new, machine_state_add, machine_transition_add, machine_lock, state_new, transition_new,
}
use estate.Runtime.Init.{state_init, transition_init}
use estate.Runtime.Outcome.{Outcome, returns, faults, ◌>>=◌, deref}

-- The variables `s_...`, `t_...` and `fsm`.
pub record Program (Hash : Type 0) : Type 0 where
  pub states : Text → Option ℕ
  pub transits : Text → Option ℕ
  pub fsm : Option (Machine Hash)

abbrev pub assign : (Text → Option ℕ) → Text → Option ℕ → Text → Option ℕ
assign f n v x = if text_eq n x then v else f x

-- The array of the transitions of a state.
abbrev pub addresses : (Text → Option ℕ) → List Text → List (Option ℕ)
addresses f [] = []
addresses f (n ∷ ns) = f n ∷ addresses f ns

abbrev pub array_of : List (Option ℕ) → Option (List (Option ℕ))
array_of [] = none
array_of (a ∷ as') = some (a ∷ as')

-- `function` gives the function of a name. A key of more than 125 characters has lost its closing
-- quote, so that it is no C.
abbrev pub function_of : (Text → ℕ) → Option Text → Option ℕ
function_of function none = none
function_of function (some n) = some (function n)

abbrev ctor_key : Option ℕ → Option Text → Outcome CbCtor
ctor_key func none = returns (record { func = func; key = none; key_len = 0 })
ctor_key func (some t) =
    if ltb 125 (length t)
    then faults
    else returns (record { func = func; key = some t; key_len = length t })

abbrev pub ctor : (Text → ℕ) → Cb → Outcome CbCtor
ctor function cb = ctor_key (function_of function cb.func) cb.value

module _ (z : Sizes) (E : Eina) (malloc : ℕ → Option ℕ) (calloc : ℕ → Bool)
    (function : Text → ℕ) where
  abbrev Step : Type 0
  Step = Outcome (Option (Program E.Hash))

  -- `if (EINA_UNLIKELY(s == NULL)) goto fsm_fail;`
  unfoldable pub new_state_step : Program E.Hash → Text → Machine E.Hash × Option ℕ → Step
  new_state_step p n (m, none) = returns none
  new_state_step p n (m, some s) =
      returns (some (record p { states = assign p.states n (some s); fsm = some m }))

  unfoldable pub new_transition_step : Program E.Hash → Text → Machine E.Hash × Option ℕ → Step
  new_transition_step p n (m, none) = returns none
  new_transition_step p n (m, some t) =
      returns (some (record p { transits = assign p.transits n (some t); fsm = some m }))

  -- `if (EINA_UNLIKELY(!chk)) goto fsm_fail;`
  unfoldable pub checked : Program E.Hash → Machine E.Hash × Bool → Step
  checked p (m, false) = returns none
  checked p (m, true) = returns (some (record p { fsm = some m }))

  unfoldable pub add_state : Program E.Hash → Text → Machine E.Hash × Bool → Step
  unfolding checked
  add_state p n (m, false) = returns none
  add_state p n (m, true) = checked p (machine_state_add m (p.states n))

  unfoldable pub add_transition : Program E.Hash → Text → Machine E.Hash × Bool → Step
  unfolding checked
  add_transition p n (m, false) = returns none
  add_transition p n (m, true) = checked p (machine_transition_add m (p.transits n))

  -- `none` is a jump to fsm_fail.
  unfoldable pub step : Program E.Hash → Statement → Step
  step p (prototype f) = returns (some p)
  step p end_prototypes = returns (some p)
  step p (begin n) = returns (some p)
  step p blank = returns (some p)
  step p (declare_state n) = returns (some (record p { states = assign p.states n none }))
  step p (declare_transition n) = returns (some (record p { transits = assign p.transits n none }))
  step p (new_machine s t) = returns (some (record p { fsm = machine_new z E malloc s t }))
  step p (new_state n count) = do
    m ← deref p.fsm
    r ← state_new z calloc m count
    new_state_step p n r
  step p (new_transition n) = do m ← deref p.fsm; new_transition_step p n (transition_new z m)
  step p (init_state n trs enterer exiter) = do
    m ← deref p.fsm
    e ← ctor function enterer
    x ← ctor function exiter
    r ←
        state_init m (p.states n) (some n) (array_of (addresses p.transits trs)) (length trs)
          (some e) (some x)
    add_state p n r
  step p (init_transition n from to cb enterer exiter) = do
    m ← deref p.fsm
    a ← deref from
    b ← deref to
    c ← ctor function cb
    e ← ctor function enterer
    x ← ctor function exiter
    r ←
        transition_init m (p.transits n) (some n) (p.states a) (p.states b) (some c) (some e)
          (some x)
    add_transition p n r
  step p (finish init n) = do
    m ← deref p.fsm
    i ← deref init
    returns (some (record p { fsm = some (machine_lock m (p.states i)) }))

  unfoldable pub run : Program E.Hash → List Statement → Step
  run p [] = returns (some p)
  run p (s ∷ ss) = do r ← step p s; elim r [ none ↦ returns none | some q ↦ run q ss ]

  -- The statements run from one program to the other, with no jump to fsm_fail.
  abbrev pub Runs : Program E.Hash → List Statement → Program E.Hash → Type 0
  Runs p [] r = p ≡ r
  Runs p (s ∷ ss) r = (q : Program E.Hash) × (step p s ≡ returns (some q)) × Runs q ss r

  pub Runs-append :
      (p q r : Program E.Hash) (a b : List Statement) → Runs p a q → Runs q b r → Runs p (a ++ b) r
  Runs-append p q r [] b e y = subst (λ x. Runs x b r) (sym e) y
  Runs-append p q r (s ∷ a) b (p', e, x) y = (p', e, Runs-append p' q r a b x y)

  pub run-Runs :
      (p q : Program E.Hash) (a : List Statement) → Runs p a q → run p a ≡ returns (some q)
  unfolding run
  run-Runs p q [] e = ap (λ x. returns (some x)) e
  run-Runs p q (s ∷ a) (p', e, x) = rw (e, run) (run-Runs p' q a x)
