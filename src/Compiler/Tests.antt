-- ===== src/Compiler/Tests.antt =====
-- Descriptions of machines that are parsed, and the compiler's theorems applied to them.
use estate.Base.{ℕ, ◌≡◌, refl, Bool, none, some, List, [], ◌∷◌, Text, codes, text_eq}
use estate.Compiler.Parser.{Parse, ok, error, char_next_get, block_enter, block_leave, leave}
use estate.Compiler.Parser.Token.{Loop, token}
use estate.Compiler.Parser.Char.{
  char_slash, char_enter, char_colon, char_semicolon, anonymous_start, char_dash, char_greater,
  char_word, char_space, char_digit, char_at, loop, body, char, finish_token, finish_block,
  parser_parse,
}
use estate.Base.{length, true, false, arith}
use estate.Compiler.Parser.{parent, sm_state, sm_state_cb_func_prop, Parser}
use estate.Compiler.Parser.Char.{start}
use estate.Compiler.Parser.Ready.{Sound, Ensures}
use estate.Compiler.Parser.Safe.{parser_parse-Sound}
use estate.Compiler.Parser.Blocks.{leave-without_dots}
use estate.Compiler.Parser.Lines.{IsAfter, after, after-IsAfter, in_comment, behind, loop-behind}
use estate.Compiler.Samples.{plain, blank}

abbrev names : Parse (Loop (List (Text × ℕ))) → List (Text × ℕ)
names (ok l) = (l.store.fsms 1).transitions
names _ = []

abbrev where_at : Parse (Loop (List (Text × ℕ))) → ℕ × ℕ
where_at (error l c) = (l, c)
where_at _ = (0, 0)

abbrev hello : Text
hello =
    codes
      "hello {\n transitions { model { leave : Home > Walk; } }\n states { Home @init { exiter.func:bye; } } }\n"

names-hello : names (parser_parse plain blank hello) ≡ (codes "leave", 2) ∷ []
unfolding parser_parse loop body char char_slash char_enter char_colon char_semicolon
    anonymous_start char_dash char_greater char_word char_space char_digit char_at finish_token
    finish_block token char_next_get block_enter block_leave leave text_eq
names-hello = refl

where_at-stray : where_at (parser_parse plain blank (codes "hello {\n }}")) ≡ (2, 3)
unfolding parser_parse loop body char char_slash char_enter char_colon char_semicolon
    anonymous_start char_dash char_greater char_word char_space char_digit char_at finish_token
    finish_block token char_next_get block_enter block_leave leave text_eq
where_at-stray = refl

-- A transition with no name is parsed, and not registered.
names-unnamed : names (parser_parse plain blank (codes "a{transitions{model{B > C;}}}")) ≡ []
unfolding parser_parse loop body char char_slash char_enter char_colon char_semicolon
    anonymous_start char_dash char_greater char_word char_space char_digit char_at finish_token
    finish_block token char_next_get block_enter block_leave leave text_eq
names-unnamed = refl

parser_parse-Sound_example : Ensures (Sound (length hello)) (parser_parse plain blank hello)
parser_parse-Sound_example = parser_parse-Sound plain [] refl (λ n. refl) blank hello

leave-without_dots_example :
    (leave [] sm_state_cb_func_prop ≡ none)
    × ((b : Bool)
        → leave (b ∷ true ∷ false ∷ []) sm_state_cb_func_prop ≡ some (false ∷ [], sm_state))
unfolding parent
leave-without_dots_example = leave-without_dots (true ∷ false ∷ []) sm_state_cb_func_prop

abbrev hello_start : Parser
hello_start = start hello

after-IsAfter_example :
    IsAfter
      (codes "hello {\n")
      (codes " tr")
      (record hello_start { rest = codes "hello {\n tr" })
      (after 8 (record hello_start { rest = codes "hello {\n tr" }))
unfolding start
after-IsAfter_example =
    after-IsAfter (codes "hello {\n") (codes " tr")
      (record hello_start { rest = codes "hello {\n tr" }) (ground arith) (ground arith) refl

abbrev begin : Loop (List (Text × ℕ))
begin = record {
  p = hello_start;
  buf = [];
  f = none;
  t = none;
  s = none;
  cb = none;
  leave_block = false;
  store = blank;
}

loop-behind_example :
    loop plain 20 (in_comment plain begin (codes "/ a comment\na{}") 1)
    ≡ loop plain 8 (behind plain begin (codes "a{}"))
loop-behind_example =
    loop-behind plain (codes "/ a comment") (codes "a{}") 8 begin 1 (ground arith) refl
