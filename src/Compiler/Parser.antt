-- ===== src/Compiler/Parser.antt =====
-- The parser of src/bin/estate_cc_parser.c: its state, the reading of characters and the blocks.
-- A `char` is a byte; the byte 255 is -1 as a `char`, and so EOF.
pub mod Token
pub mod Char
pub mod Ready
pub mod Steps
pub mod Safe
pub mod Blocks
pub mod Lines
pub mod Words
pub mod Padded
pub mod Clauses
pub mod Written
pub mod Rounds
pub mod Layout
pub mod Describe
pub mod Listed
use estate.Base.{
  ℕ, ◌+◌, ◌-◌, ◌%◌, ◌^◌, Bool, true, false, ◌&&◌, ◌||◌, Option, none, some, List, [], ◌∷◌, Text,
  ◌==◌, if◌then◌else◌, length,
}
use estate.Eina.{Eina}
use estate.Compiler.Data.{Store}

pub data Comment : Type 0 where
  comment_none comment_single_line comment_multiple_lines : Comment

pub data Sm : Type 0 where
  sm_none sm_fsm sm_transitions sm_transition_start sm_transition_from sm_transition_to : Sm
  sm_transition sm_transition_cb sm_transition_cb_func_prop sm_transition_cb_data_prop : Sm
  sm_states sm_state sm_state_eob sm_state_cb sm_state_cb_func_prop sm_state_cb_data_prop : Sm
  sm_state_attribute sm_data sm_data_global_prop : Sm

-- `rest` holds the bytes from `ptr` up to `end`, the one at `end` included; `blocks` has its last
-- element first.
pub record Parser : Type 0 where
  pub parse : List ℕ
  pub rest : Text
  pub line : ℕ
  pub col : ℕ
  pub anonymous : ℕ
  pub blocks : List Bool
  pub comments : Comment
  pub sm : Sm
  pub stop_word : Bool
  pub has_token : Bool

-- An error carries its line and its column; `faults` is the use of a NULL pointer or of a place
-- outside of the token buffer.
pub data Parse {ℓ} (A : Type ℓ) : Type ℓ where
  ok : A → Parse A
  error : ℕ → ℕ → Parse A
  faults out_of_fuel : Parse A

infixl 5 ◌>>=◌
abbrev pub ◌>>=◌ {ℓ κ} : {A : Type ℓ} {B : Type κ} → Parse A → (A → Parse B) → Parse B
ok a >>= f = f a
error l c >>= f = error l c
faults >>= f = faults
out_of_fuel >>= f = out_of_fuel

-- PARSE_ERROR
abbrev pub parse_error {ℓ} : {A : Type ℓ} → Parser → Parse A
parse_error p = error p.line (p.col - 1)

-- The use of a pointer.
abbrev pub need {ℓ} : {A : Type ℓ} → Option A → Parse A
need none = faults
need (some a) = ok a

abbrev pub eof : ℕ
eof = 255

-- unsigned int arithmetic
abbrev pub u32 : ℕ → ℕ
u32 n = n % 2 ^ 32

abbrev pub end_comment : Comment → Comment
end_comment comment_single_line = comment_none
end_comment c = c

-- `_char_next_get`
read : Parser → Text → Parser × ℕ
read p [] = (p, eof)
read p (c ∷ cs) =
    let q = record p { rest = cs } in
    if c == 0 || c == eof
    then (q, eof)
    else if c == b'\n'
    then (record q { line = u32 (q.line + 1); col = 1; comments = end_comment q.comments }, c)
    else (record q { col = u32 (q.col + 1) }, c)

unfoldable pub char_next_get : Parser → Parser × ℕ
unfolding read
char_next_get p = read p p.rest

-- `_sm_block_is`
unfoldable pub sm_block_is : Sm → Bool
sm_block_is sm_none = true
sm_block_is sm_fsm = true
sm_block_is sm_transitions = true
sm_block_is sm_transition_start = true
sm_block_is sm_transition = true
sm_block_is sm_state = true
sm_block_is sm_states = true
sm_block_is sm_state_cb = true
sm_block_is sm_state_attribute = true
sm_block_is sm_transition_cb = true
sm_block_is sm_data = true
sm_block_is _ = false

-- `_block_enter`; `none` is EINA_FALSE
unfoldable pub block_enter : Parser → Bool → Option Parser
unfolding sm_block_is
block_enter p terminates_parent =
    if sm_block_is p.sm
    then some (record p { blocks = terminates_parent ∷ p.blocks; has_token = true })
    else none

-- The state of the parent block.
unfoldable pub parent : Sm → Sm
parent sm_data = sm_fsm
parent sm_data_global_prop = sm_data
parent sm_state_cb = sm_state
parent sm_state = sm_states
parent sm_states = sm_fsm
parent sm_transitions = sm_fsm
parent sm_transition_start = sm_transitions
parent sm_transition_cb = sm_transition
parent sm_transition = sm_transitions
parent sm_state_cb_func_prop = sm_state_cb
parent sm_state_cb_data_prop = sm_state_cb
parent sm_transition_cb_func_prop = sm_transition_cb
parent sm_transition_cb_data_prop = sm_transition_cb
parent sm_fsm = sm_none
parent sm = sm

-- `_block_leave` on the blocks and the state; `none` is EINA_FALSE
unfoldable pub leave : List Bool → Sm → Option (List Bool × Sm)
unfolding parent
leave [] sm = none
leave (b ∷ []) sm = some ([], parent sm)
leave (b ∷ t ∷ bs) sm = if t then leave (t ∷ bs) (parent sm) else some (t ∷ bs, parent sm)

unfoldable pub block_leave : Parser → Option Parser
block_leave p = elim (leave p.blocks p.sm) [
  | none ↦ none
  | some (bs, sm) ↦ some (record p { blocks = bs; sm = sm })
]
