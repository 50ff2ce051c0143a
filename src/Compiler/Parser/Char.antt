-- ===== src/Compiler/Parser/Char.antt =====
-- The loop of estate_cc_parser_parse over the characters.
use estate.Base.{
  ℕ, zero, suc, ◌+◌, ◌/◌, ◌%◌, Bool, true, false, not, ◌&&◌, ◌||◌, Option, none, some, [], ◌∷◌,
  ◌++◌, Text, codes, leb, ltb, ◌==◌, if◌then◌else◌, length,
}
use estate.Eina.{Eina}
use estate.Compiler.Data.{Store, transit_new}
use estate.Compiler.Parser.{
  Comment, comment_none, comment_single_line, comment_multiple_lines, Sm, sm_none,
  sm_transition_start, sm_transition_from, sm_transition_to, sm_transition_cb,
  sm_transition_cb_func_prop, sm_transition_cb_data_prop, sm_states, sm_state_cb,
  sm_state_cb_func_prop, sm_state_cb_data_prop, sm_state_attribute, sm_data, sm_data_global_prop,
  Parser, Parse, ok, faults, out_of_fuel, ◌>>=◌, parse_error, need, eof, u32, char_next_get,
  block_enter, block_leave,
}
use estate.Compiler.Parser.Token.{Loop, token}

-- The decimal digits of a number below 2 ^ 32, as printf's %u writes them.
unfoldable pub decimal : ℕ → ℕ → Text
decimal zero n = []
decimal (suc k) n = decimal k (n / 10) ++ (if n == 0 then [] else (48 + n % 10) ∷ [])

abbrev pub unsigned : ℕ → Text
unsigned n = if n == 0 then b'0' ∷ [] else decimal 10 n

abbrev is_block_property : Sm → Bool
is_block_property sm_state_cb = true
is_block_property sm_transition_cb = true
is_block_property sm_data = true
is_block_property _ = false

abbrev is_property : Sm → Bool
is_property sm_state_cb_func_prop = true
is_property sm_state_cb_data_prop = true
is_property sm_transition_cb_func_prop = true
is_property sm_transition_cb_data_prop = true
is_property sm_data_global_prop = true
is_property _ = false

abbrev is_last : Sm → Bool
is_last sm_transition_to = true
is_last sm_state_attribute = true
is_last _ = false

abbrev is_states : Sm → Bool
is_states sm_states = true
is_states _ = false

abbrev is_start : Sm → Bool
is_start sm_transition_start = true
is_start _ = false

abbrev is_from : Sm → Bool
is_from sm_transition_from = true
is_from _ = false

abbrev is_null : Option ℕ → Bool
is_null none = true
is_null (some t) = false

-- sizeof (buf)
abbrev pub buf_size : ℕ
buf_size = 2048

abbrev pub is_space : ℕ → Bool
is_space c = c == b' ' || c == b'\n' || c == b'\r' || c == b'\t'

abbrev pub is_digit : ℕ → Bool
is_digit c = leb b'0' c && leb c b'9'

abbrev pub is_letter : ℕ → Bool
is_letter c = c == b'_' || (leb b'a' c && leb c b'z') || (leb b'A' c && leb c b'Z')

-- estate_cc_parser_new and estate_cc_parser_file_set, on the bytes of the file and the one
-- behind them.
unfoldable pub start : Text → Parser
start bytes = record {
  parse = [];
  rest = bytes;
  line = 1;
  col = 1;
  anonymous = 0;
  blocks = [];
  comments = comment_none;
  sm = sm_none;
  stop_word = false;
  has_token = false;
}

module _ {Hash : Type 0} where
  abbrev pub with_token : Loop Hash → Loop Hash
  with_token l = record l { p = record (l.p) { has_token = true } }

  abbrev pub with_comments : Loop Hash → Comment → Loop Hash
  with_comments l c = record l { p = record (l.p) { comments = c } }

  -- case '/'
  unfoldable pub char_slash : Loop Hash → Parse (Loop Hash × ℕ)
  char_slash l =
      let (p, c) = char_next_get l.p in
      let l' = record l { p = p } in
      if c == b'/'
      then ok (with_comments l' comment_single_line, c)
      else if c == b'*'
      then ok (with_comments l' comment_multiple_lines, c)
      else parse_error p

  -- case '.' and case '{'
  unfoldable pub char_enter : Loop Hash → ℕ → Bool → Parse (Loop Hash × ℕ)
  char_enter l c terminates_parent = elim (block_enter l.p terminates_parent) [
    | none ↦ parse_error l.p
    | some p ↦ ok (record l { p = p }, c)
  ]

  -- case ':'
  unfoldable pub char_colon : Loop Hash → ℕ → Parse (Loop Hash × ℕ)
  char_colon l c =
      if is_block_property l.p.sm
      then char_enter l c false
      else if is_start l.p.sm
      then ok (with_token l, c)
      else parse_error l.p

  -- case ';'
  unfoldable pub char_semicolon : Loop Hash → ℕ → Parse (Loop Hash × ℕ)
  char_semicolon l c =
      if is_property l.p.sm
      then ok (with_token (record l { leave_block = true }), c)
      else if is_last l.p.sm
      then ok (with_token l, c)
      else parse_error l.p

  -- A transition with no name gets one of its own, with the prefix given.
  unfoldable pub anonymous_start : (ℕ → Bool) → Text → Loop Hash → Parse (Loop Hash)
  unfolding transit_new
  anonymous_start calloc prefix l =
      if is_start l.p.sm && is_null l.t
      then (do
        (m, t) ← need (transit_new calloc l.store (prefix ++ unsigned l.p.anonymous))
        ok (record l {
          p = record (l.p) { anonymous = u32 (l.p.anonymous + 1); sm = sm_transition_from };
          t = some t;
          store = m;
        }))
      else ok l

  -- case '-'
  unfoldable pub char_dash : (ℕ → Bool) → Loop Hash → Parse (Loop Hash × ℕ)
  unfolding anonymous_start
  char_dash calloc l = do
    l' ← anonymous_start calloc (codes "TR_") l
    (if not (is_from l'.p.sm)
        then parse_error l'.p
        else (let (p, c) = char_next_get l'.p in
            if c == b'>' then ok (with_token (record l' { p = p }), c) else parse_error p))

  -- case '>'
  unfoldable pub char_greater : (ℕ → Bool) → Loop Hash → ℕ → Parse (Loop Hash × ℕ)
  unfolding anonymous_start
  char_greater calloc l c = do
    l' ← anonymous_start calloc (codes "#TR_") l
    if not (is_from l'.p.sm) then parse_error l'.p else ok (with_token l', c)

  -- case '_', letters, and digits behind the first character
  unfoldable pub char_word : Loop Hash → ℕ → Parse (Loop Hash × ℕ)
  char_word l c =
      if l.p.stop_word
      then parse_error l.p
      else if not (ltb (length l.buf) buf_size)
      then faults
      else if leb buf_size (length l.buf + 1)
      then parse_error l.p
      else ok (record l { buf = l.buf ++ c ∷ [] }, c)

  unfoldable pub char_space : Loop Hash → ℕ → Parse (Loop Hash × ℕ)
  char_space l c =
      if length l.buf == 0
      then ok (l, c)
      else ok (record l { p = record (l.p) { stop_word = true } }, c)

  unfoldable pub char_digit : Loop Hash → ℕ → Parse (Loop Hash × ℕ)
  char_digit l c = if length l.buf == 0 then parse_error l.p else char_word l c

  unfoldable pub char_at : Loop Hash → ℕ → Parse (Loop Hash × ℕ)
  char_at l c = if is_states l.p.sm then ok (with_token l, c) else parse_error l.p

  -- The switch on the character; it may have read one more.
  unfoldable pub char : (ℕ → Bool) → Loop Hash → ℕ → Parse (Loop Hash × ℕ)
  char calloc l c =
      if c == b'/'
      then char_slash l
      else if c == b'.'
      then char_enter l c true
      else if c == b'{'
      then char_enter l c false
      else if c == b'@'
      then char_at l c
      else if c == b':'
      then char_colon l c
      else if c == b';'
      then char_semicolon l c
      else if c == b'-'
      then char_dash calloc l
      else if c == b'>'
      then char_greater calloc l c
      else if c == b'}'
      then ok (record l { leave_block = true }, c)
      else if is_space c
      then char_space l c
      else if is_digit c
      then char_digit l c
      else if is_letter c
      then char_word l c
      else parse_error l.p

  -- `if (leave_block)`
  unfoldable pub finish_block : Loop Hash → Parse (Loop Hash)
  finish_block l = if not l.leave_block then ok l else elim (block_leave l.p) [
    | none ↦ parse_error l.p
    | some p ↦ ok (record l { p = p; leave_block = false })
  ]

  abbrev pub token_done : Loop Hash → Loop Hash
  token_done l = record l { p = record (l.p) { has_token = false; stop_word = false }; buf = [] }

module _ (E : Eina) where
  -- `if (p->has_token)`
  unfoldable pub finish_token : Loop E.Hash → ℕ → Parse (Loop E.Hash)
  finish_token l c =
      if not l.p.has_token
      then ok l
      else if not (ltb (length l.buf) buf_size)
      then faults
      else (do l' ← token E l.p.sm l c; ok (token_done l'))

  -- The body of the loop, by what the parser is in.
  unfoldable pub body : Comment → Loop E.Hash → ℕ → Parse (Loop E.Hash)
  body comment_single_line l c = ok (if c == b'\n' then with_comments l comment_none else l)
  body comment_multiple_lines l c =
      if not (c == b'*')
      then ok l
      else let (p, d) = char_next_get l.p in
        let l' = record l { p = p } in ok (if d == b'/' then with_comments l' comment_none else l')
  body comment_none l c = do (l1, d) ← char E.calloc l c; l2 ← finish_token l1 d; finish_block l2

  -- The loop; each round reads a character at least, so the fuel bounds the characters.
  unfoldable pub loop : ℕ → Loop E.Hash → Parse (Loop E.Hash)
  loop zero l = out_of_fuel
  loop (suc fuel) l =
      let (p, c) = char_next_get l.p in
      elim (c == eof) [
        | true ↦ ok (record l { p = p })
        | false ↦ body p.comments (record l { p = p }) c >>= loop fuel
      ]

  -- estate_cc_parser_parse
  unfoldable pub parser_parse : Store E.Hash → Text → Parse (Loop E.Hash)
  unfolding start
  parser_parse m bytes = loop (length bytes + 1) (record {
    p = start bytes;
    buf = [];
    f = none;
    t = none;
    s = none;
    cb = none;
    leave_block = false;
    store = m;
  })
