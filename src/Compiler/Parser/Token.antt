-- ===== src/Compiler/Parser/Token.antt =====
-- What estate_cc_parser_parse does with a token, by the state that the parser is in.
use Prim.Native.String.{String}
use estate.Base.{
  ℕ, Bool, true, false, Option, none, some, [], ◌∷◌, ◌++◌, Text, codes, text_eq, ◌==◌,
  if◌then◌else◌,
}
use estate.Eina.{Eina}
use estate.Compiler.Data.{Cb, Transit, Fsm, Store, update, state_new, transit_new, fsm_new, put}
use estate.Compiler.Parser.{
  Sm, sm_none, sm_fsm, sm_transitions, sm_transition_start, sm_transition_from, sm_transition_to,
  sm_transition, sm_transition_cb, sm_transition_cb_func_prop, sm_transition_cb_data_prop,
  sm_states, sm_state, sm_state_eob, sm_state_cb, sm_state_cb_func_prop, sm_state_cb_data_prop,
  sm_state_attribute, sm_data, sm_data_global_prop, Parser, Parse, ok, ◌>>=◌, parse_error, need,
}

-- `&s->enterer` or `&s->exiter`
pub data CbPtr : Type 0 where
  enterer_of exiter_of : ℕ → CbPtr

-- The local variables of estate_cc_parser_parse, with the memory. `buf` holds the first `k` bytes
-- of the buffer.
pub record Loop (Hash : Type 0) : Type 0 where
  pub p : Parser
  pub buf : Text
  pub f : Option ℕ
  pub t : Option ℕ
  pub s : Option ℕ
  pub cb : Option CbPtr
  pub leave_block : Bool
  pub store : Store Hash

abbrev pub is : Text → String → Bool
is buf word = text_eq buf (codes word)

abbrev pub is_set : Option Text → Bool
is_set none = false
is_set (some t) = true

abbrev pub is_empty : Text → Bool
is_empty [] = true
is_empty (c ∷ cs) = false

module _ {Hash : Type 0} where
  abbrev pub to_sm : Loop Hash → Sm → Loop Hash
  to_sm l sm = record l { p = record (l.p) { sm = sm } }

  abbrev get_cb : Store Hash → CbPtr → Cb
  get_cb m (enterer_of s) = (m.states s).enterer
  get_cb m (exiter_of s) = (m.states s).exiter

  abbrev set_cb : Store Hash → CbPtr → Cb → Store Hash
  set_cb m (enterer_of s) c = record m {
    states = update m.states s (record (m.states s) { enterer = c });
  }
  set_cb m (exiter_of s) c = record m {
    states = update m.states s (record (m.states s) { exiter = c });
  }

  -- case SM_STATE
  token_state : Loop Hash → Parse (Loop Hash)
  token_state l =
      if is l.buf "enterer"
      then (do s ← need l.s; ok (to_sm (record l { cb = some (enterer_of s) }) sm_state_cb))
      else if is l.buf "exiter"
      then (do s ← need l.s; ok (to_sm (record l { cb = some (exiter_of s) }) sm_state_cb))
      else parse_error l.p

  -- case SM_STATE_ATTRIBUTE; `c` is the character that ended the token
  token_attribute : Loop Hash → ℕ → Parse (Loop Hash)
  token_attribute l c =
      if is l.buf "init"
      then (do
        f ← need l.f
        if is_set (l.store.fsms f).init then parse_error l.p else (do
          s ← need l.s
          let named = record (l.store.fsms f) { init = some (l.store.states s).name }
          let m = record (l.store) { fsms = update l.store.fsms f named }
          ok (to_sm (record l { store = m }) (if c == b';' then sm_states else sm_state))))
      else parse_error l.p

  -- case SM_STATE_CB
  token_state_cb : Loop Hash → Parse (Loop Hash)
  token_state_cb l =
      if is l.buf "func"
      then (do
        cb ← need l.cb
        if is_set (get_cb l.store cb).func
            then parse_error l.p
            else ok (to_sm l sm_state_cb_func_prop))
      else if is l.buf "data"
      then (do
        cb ← need l.cb
        if is_set (get_cb l.store cb).value
            then parse_error l.p
            else ok (to_sm l sm_state_cb_data_prop))
      else parse_error l.p

  -- case SM_STATE_CB_FUNC_PROP
  token_state_func : Loop Hash → Parse (Loop Hash)
  token_state_func l = if is_empty l.buf then parse_error l.p else (do
    cb ← need l.cb
    ok (record l { store = set_cb l.store cb (record (get_cb l.store cb) { func = some l.buf }) }))

  -- case SM_STATE_CB_DATA_PROP
  token_state_data : Loop Hash → Parse (Loop Hash)
  token_state_data l = if is_empty l.buf then parse_error l.p else (do
    cb ← need l.cb
    ok (record l { store = set_cb l.store cb (record (get_cb l.store cb) { value = some l.buf }) }))

  abbrev set_transit : Loop Hash → ℕ → Transit → Loop Hash
  set_transit l t new = record l {
    store = record (l.store) { transits = update l.store.transits t new };
  }

  -- case SM_TRANSITION
  token_transition : Loop Hash → Parse (Loop Hash)
  token_transition l = if is l.buf "cb" then ok (to_sm l sm_transition_cb) else parse_error l.p

  -- case SM_TRANSITION_CB
  token_transition_cb : Loop Hash → Parse (Loop Hash)
  token_transition_cb l =
      if is l.buf "func"
      then (do
        t ← need l.t
        if is_set (l.store.transits t).cb.func
            then parse_error l.p
            else ok (to_sm l sm_transition_cb_func_prop))
      else if is l.buf "data"
      then (do
        t ← need l.t
        if is_set (l.store.transits t).cb.value
            then parse_error l.p
            else ok (to_sm l sm_transition_cb_data_prop))
      else parse_error l.p

  -- case SM_TRANSITION_CB_FUNC_PROP
  token_transition_func : Loop Hash → Parse (Loop Hash)
  token_transition_func l = if is_empty l.buf then parse_error l.p else (do
    t ← need l.t
    let old = l.store.transits t
    ok (set_transit l t (record old { cb = record (old.cb) { func = some l.buf } })))

  -- case SM_TRANSITION_CB_DATA_PROP
  token_transition_data : Loop Hash → Parse (Loop Hash)
  token_transition_data l = if is_empty l.buf then parse_error l.p else (do
    t ← need l.t
    let old = l.store.transits t
    ok (set_transit l t (record old { cb = record (old.cb) { value = some l.buf } })))

  -- case SM_TRANSITION_FROM
  token_from : Loop Hash → Parse (Loop Hash)
  token_from l = if is_empty l.buf then parse_error l.p else (do
    t ← need l.t
    ok (
        to_sm (set_transit l t (record (l.store.transits t) { from = some l.buf }))
          sm_transition_to))

  -- case SM_TRANSITION_TO
  token_to : Loop Hash → Parse (Loop Hash)
  token_to l = if is_empty l.buf then parse_error l.p else (do
    t ← need l.t
    let written = set_transit l t (record (l.store.transits t) { to = some l.buf })
    ok (to_sm (record written { t = none }) sm_transition_start))

  -- case SM_FSM
  token_fsm : Loop Hash → Parse (Loop Hash)
  token_fsm l =
      if is l.buf "data"
      then ok (to_sm l sm_data)
      else if is l.buf "transitions"
      then ok (to_sm l sm_transitions)
      else if is l.buf "states"
      then ok (to_sm l sm_states)
      else parse_error l.p

module _ (E : Eina) where
  abbrev set_fsm : Loop E.Hash → ℕ → Fsm E.Hash → Loop E.Hash
  set_fsm l f new = record l { store = record (l.store) { fsms = update l.store.fsms f new } }

  -- case SM_NONE
  token_none : Loop E.Hash → Parse (Loop E.Hash)
  unfolding fsm_new
  token_none l = do
    h ← need E.hash_new
    (m, f) ← need (fsm_new E.calloc h l.store l.buf)
    ok (record l {
      p = record (l.p) { parse = l.p.parse ++ f ∷ []; sm = sm_fsm };
      f = some f;
      store = m;
    })

  -- case SM_DATA_GLOBAL_PROP; the value of a key is its shared string
  token_global : Loop E.Hash → Parse (Loop E.Hash)
  token_global l = do
    f ← need l.f
    let fsm = l.store.fsms f
    elim (E.find fsm.data_keys l.buf) [
      | some old ↦ parse_error l.p
      | none ↦
          ok (set_fsm l f (record fsm { data_keys = put E fsm.data_keys l.buf (E.addr l.buf) }))
    ]

  -- case SM_STATES; `c` is the character that ended the token
  token_states : Loop E.Hash → ℕ → Parse (Loop E.Hash)
  unfolding state_new
  token_states l c = do
    (m, s) ← need (state_new E.calloc l.store l.buf)
    f ← need l.f
    let fsm = m.fsms f
    elim (E.find fsm.states l.buf) [
      | some old ↦ parse_error l.p
      | none ↦ ok (
          to_sm
            (set_fsm (record l { store = m; s = some s }) f
              (record fsm { states = put E fsm.states l.buf s }))
            (if c == b'@' then sm_state_attribute else sm_state))
    ]

  -- case SM_TRANSITIONS
  token_transitions : Loop E.Hash → Parse (Loop E.Hash)
  token_transitions l = if is l.buf "model" then ok (to_sm l sm_transition_start) else (do
    f ← need l.f
    elim (E.find (l.store.fsms f).transitions l.buf) [
      | none ↦ parse_error l.p
      | some t ↦ ok (to_sm (record l { t = some t }) sm_transition)
    ])

  -- case SM_TRANSITION_START
  token_start : Loop E.Hash → Parse (Loop E.Hash)
  unfolding transit_new
  token_start l = if is_empty l.buf then parse_error l.p else (do
    (m, t) ← need (transit_new E.calloc l.store l.buf)
    f ← need l.f
    let fsm = m.fsms f
    elim (E.find fsm.transitions l.buf) [
      | some old ↦ parse_error l.p
      | none ↦ ok (
          to_sm
            (set_fsm (record l { store = m; t = some t }) f
              (record fsm { transitions = put E fsm.transitions l.buf t }))
            sm_transition_from)
    ])

  -- The switch on the state.
  unfoldable pub token : Sm → Loop E.Hash → ℕ → Parse (Loop E.Hash)
  unfolding token_state token_attribute token_state_cb token_state_func token_state_data
      token_transition token_transition_cb token_transition_func token_transition_data token_from
      token_to token_fsm token_none token_global token_states token_transitions token_start
  token sm_none l c = token_none l
  token sm_fsm l c = token_fsm l
  token sm_data l c = ok (if is l.buf "global" then to_sm l sm_data_global_prop else l)
  token sm_data_global_prop l c = token_global l
  token sm_states l c = token_states l c
  token sm_state l c = token_state l
  token sm_state_attribute l c = token_attribute l c
  token sm_state_cb l c = token_state_cb l
  token sm_state_cb_func_prop l c = token_state_func l
  token sm_state_cb_data_prop l c = token_state_data l
  token sm_transitions l c = token_transitions l
  token sm_transition l c = token_transition l
  token sm_transition_cb l c = token_transition_cb l
  token sm_transition_cb_func_prop l c = token_transition_func l
  token sm_transition_cb_data_prop l c = token_transition_data l
  token sm_transition_start l c = token_start l
  token sm_transition_from l c = token_from l
  token sm_transition_to l c = token_to l
  token sm_state_eob l c = ok l
