-- ===== src/Compiler/Parser/Steps.antt =====
-- The code for a character of src/bin/estate_cc_parser.c, and the ends of blocks, keep the parser
-- sound.
use estate.Base.{
  ◌≡◌, codes, ℕ, Bool, true, false, Option, none, some, List, [], ◌∷◌, Text, length-append, arith,
}
use estate.Compiler.Data.{transit_new}
use estate.Compiler.Parser.{Sm, sm_none, char_next_get, block_enter, block_leave, leave, parent}
use estate.Compiler.Parser.Token.{Loop}
use estate.Compiler.Parser.Char.{
  with_token, char, char_slash, char_enter, char_colon, char_semicolon, anonymous_start, char_dash,
  char_greater, char_word, char_space, char_digit, char_at, finish_block,
}
use estate.Compiler.Parser.Ready.{Ready, Sound, Ensures, Ensures-bind, char_next_get-IsRead}

module _ {Hash : Type 0} (calloc : ℕ → Bool) (memory : (n : ℕ) → calloc n ≡ true) where
  char_slash-Sound : (n : ℕ) (l : Loop Hash) → Sound n l → Ensures (λ x. Sound n x.0) (char_slash l)
  unfolding char_slash
  char_slash-Sound n l s = ground (arith, char_next_get-IsRead l.p)

  char_enter-Sound :
      (n : ℕ) (l : Loop Hash) (c : ℕ) (b : Bool)
      → Sound n l
      → Ensures (λ x. Sound n x.0) (char_enter l c b)
  unfolding char_enter block_enter
  char_enter-Sound n l c b s = ground arith

  char_colon-Sound :
      (n : ℕ) (l : Loop Hash) (c : ℕ) → Sound n l → Ensures (λ x. Sound n x.0) (char_colon l c)
  unfolding char_colon
  char_colon-Sound n l c s = ground (arith, char_enter-Sound n l c false s)

  char_semicolon-Sound :
      (n : ℕ) (l : Loop Hash) (c : ℕ) → Sound n l → Ensures (λ x. Sound n x.0) (char_semicolon l c)
  unfolding char_semicolon
  char_semicolon-Sound n l c s = ground arith

  char_at-Sound :
      (n : ℕ) (l : Loop Hash) (c : ℕ) → Sound n l → Ensures (λ x. Sound n x.0) (char_at l c)
  unfolding char_at
  char_at-Sound n l c s = ground arith

  char_word-Sound :
      (n : ℕ) (l : Loop Hash) (c : ℕ) → Sound n l → Ensures (λ x. Sound n x.0) (char_word l c)
  unfolding char_word
  char_word-Sound n l c s = ground (arith, length-append l.buf (c ∷ []))

  char_space-Sound :
      (n : ℕ) (l : Loop Hash) (c : ℕ) → Sound n l → Ensures (λ x. Sound n x.0) (char_space l c)
  unfolding char_space
  char_space-Sound n l c s = ground arith

  char_digit-Sound :
      (n : ℕ) (l : Loop Hash) (c : ℕ) → Sound n l → Ensures (λ x. Sound n x.0) (char_digit l c)
  unfolding char_digit
  char_digit-Sound n l c s = ground (arith, char_word-Sound n l c s)

  anonymous_start-Sound :
      (n : ℕ) (prefix : Text) (l : Loop Hash)
      → Sound n l
      → Ensures (Sound n) (anonymous_start calloc prefix l)
  unfolding anonymous_start transit_new
  anonymous_start-Sound n prefix l s = ground (arith, memory l.store.next)

  char_greater-Sound :
      (n : ℕ) (l : Loop Hash) (c : ℕ)
      → Sound n l
      → Ensures (λ x. Sound n x.0) (char_greater calloc l c)
  unfolding char_greater
  char_greater-Sound n l c s =
      Ensures-bind (Sound n) (λ x. Sound n x.0) (anonymous_start calloc (codes "#TR_") l) _
        (anonymous_start-Sound n (codes "#TR_") l s) (λ l' s'. ground arith)

  read-Sound :
      (n : ℕ) (l : Loop Hash)
      → Sound n l
      → Sound n (with_token (record l { p = (char_next_get l.p).0 }))
  read-Sound n l s = ground (arith, char_next_get-IsRead l.p)

  char_dash-Sound :
      (n : ℕ) (l : Loop Hash) → Sound n l → Ensures (λ x. Sound n x.0) (char_dash calloc l)
  unfolding char_dash
  char_dash-Sound n l s =
      Ensures-bind (Sound n) (λ x. Sound n x.0) (anonymous_start calloc (codes "TR_") l) _
        (anonymous_start-Sound n (codes "TR_") l s) (λ l' s'. ground (arith, read-Sound n l' s'))

  parent-Ready : (sm : Sm) (l : Loop Hash) → Ready sm l → Ready (parent sm) l
  unfolding parent
  parent-Ready sm_none l r = r
  parent-Ready _ l r = ground arith

  Kept : Loop Hash → Option (List Bool × Sm) → Type 0
  Kept l none = Unit
  Kept l (some x) = Ready x.1 l

  leave-Kept : (bs : List Bool) (sm : Sm) (l : Loop Hash) → Ready sm l → Kept l (leave bs sm)
  unfolding leave Kept
  leave-Kept [] sm l r = tt
  leave-Kept (b ∷ []) sm l r = parent-Ready sm l r
  leave-Kept (b ∷ true ∷ bs) sm l r = leave-Kept (true ∷ bs) (parent sm) l (parent-Ready sm l r)
  leave-Kept (b ∷ false ∷ bs) sm l r = parent-Ready sm l r

  pub char-Sound :
      (n : ℕ) (l : Loop Hash) (c : ℕ) → Sound n l → Ensures (λ x. Sound n x.0) (char calloc l c)
  unfolding char
  char-Sound n l c s = ground (
    arith,
    char_slash-Sound n l s,
    char_enter-Sound n l c true s,
    char_enter-Sound n l c false s,
    char_at-Sound n l c s,
    char_colon-Sound n l c s,
    char_semicolon-Sound n l c s,
    char_dash-Sound n l s,
    char_greater-Sound n l c s,
    char_space-Sound n l c s,
    char_digit-Sound n l c s,
    char_word-Sound n l c s,
  )

  pub finish_block-Sound : (n : ℕ) (l : Loop Hash) → Sound n l → Ensures (Sound n) (finish_block l)
  unfolding finish_block block_leave Kept
  finish_block-Sound n l s = ground (arith, leave-Kept l.p.blocks l.p.sm l s.ready)
