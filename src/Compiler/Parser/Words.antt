-- ===== src/Compiler/Parser/Words.antt =====
-- The loop of estate_cc_parser_parse, src/bin/estate_cc_parser.c, over a word.
use estate.Base.{
  ℕ, suc, ◌+◌, ◌<◌, ◌≡◌, refl, sym, ap, ◌∙◌, Bool, true, false, ◌||◌, Option, none, List, [], ◌∷◌,
  ◌++◌, Text, length, length-append, ◌==◌, if◌then◌else◌, arith,
}
use mathlib.Core.List.{append_assoc, append-nil}
use estate.Eina.{Eina}
use estate.Compiler.Data.{Store}
use estate.Compiler.Parser.{
  comment_none, Sm, Parser, Parse, ok, ◌>>=◌, eof, u32, char_next_get, read,
}
use estate.Compiler.Parser.Token.{Loop}
use estate.Compiler.Parser.Char.{
  buf_size, is_space, is_digit, is_letter, char, char_word, char_digit, finish_token, finish_block,
  body, loop,
}

module _ {H : Type 0} where
  -- The parser in a place `sm`, outside of comments, with the part `buf` of a
  -- token read.
  abbrev pub reads :
      Sm → List Bool → List ℕ → Option ℕ → Option ℕ → Store H → Text → ℕ → Bool → ℕ → Text → Loop H
  reads sm blocks parse f t m rest ln sw col buf = record {
    p = record {
      parse = parse;
      rest = rest;
      line = ln;
      col = col;
      anonymous = 0;
      blocks = blocks;
      comments = comment_none;
      sm = sm;
      stop_word = sw;
      has_token = false;
    };
    buf = buf;
    f = f;
    t = t;
    s = none;
    cb = none;
    leave_block = false;
    store = m;
  }

-- A letter, or a digit that is not the first character.
abbrev pub IsWordChar : Bool → ℕ → Type 0
IsWordChar first c = (is_letter c || (if first then false else is_digit c)) ≡ true

-- What is left of a word, behind its first character or not.
abbrev pub IsRest : Bool → Text → Type 0
IsRest first [] = Unit
IsRest first (c ∷ w) = IsWordChar first c × IsRest false w

-- A column after some characters.
abbrev pub behind_word : Text → ℕ → ℕ
behind_word [] col = col
behind_word (c ∷ w) col = behind_word w (u32 (col + 1))

-- The tests of the switch that a character of a word fails.
abbrev Fails : ℕ → Type 0
Fails c =
    ((c == b'/') ≡ false)
    × ((c == b'.') ≡ false)
    × ((c == b'{') ≡ false)
    × ((c == b'@') ≡ false)
    × ((c == b':') ≡ false)
    × ((c == b';') ≡ false)
    × ((c == b'-') ≡ false)
    × ((c == b'>') ≡ false)
    × ((c == b'}') ≡ false)
    × (is_space c ≡ false)
    × ((c == 0) ≡ false)
    × ((c == eof) ≡ false)
    × ((c == b'\n') ≡ false)

IsWordChar-Fails : (first : Bool) (c : ℕ) → IsWordChar first c → Fails c
IsWordChar-Fails first c w = (
  ground (arith, w),
  ground (arith, w),
  ground (arith, w),
  ground (arith, w),
  ground (arith, w),
  ground (arith, w),
  ground (arith, w),
  ground (arith, w),
  ground (arith, w),
  ground (arith, w),
  ground (arith, w),
  ground (arith, w),
  ground (arith, w),
)

module _ {Hash : Type 0} where
  -- The switch on a character of a word.
  char-word :
      (calloc : ℕ → Bool) (sm : Sm) (bl : List Bool) (ps : List ℕ) (f t : Option ℕ) (m : Store Hash)
      (ln : ℕ) (rest : Text) (col c : ℕ) (buf : Text) (first : Bool)
      → IsWordChar first c
      → (length buf == 0) ≡ first
      → length buf + 1 < buf_size
      → char calloc (reads sm bl ps f t m rest ln false col buf) c
        ≡ ok (reads sm bl ps f t m rest ln false col (buf ++ c ∷ []), c)
  unfolding char char_word char_digit
  char-word calloc sm bl ps f t m ln rest col c buf first w e lt =
      let (a0, a1, a2, a3, a4, a5, a6, a7, a8, a9, _, _, _) = IsWordChar-Fails first c w in
      rw (a0, a1, a2, a3, a4, a5, a6, a7, a8, a9, char) (ground (arith, w, e))

  next-char :
      (sm : Sm) (bl : List Bool) (ps : List ℕ) (f t : Option ℕ) (m : Store Hash) (ln : ℕ)
      (sw : Bool) (rest : Text) (col c : ℕ) (buf : Text)
      → (c == 0) ≡ false
      → (c == eof) ≡ false
      → (c == b'\n') ≡ false
      → char_next_get (reads sm bl ps f t m (c ∷ rest) ln sw col buf).p
        ≡ ((reads sm bl ps f t m rest ln sw (u32 (col + 1)) buf).p, c)
  unfolding char_next_get read
  next-char sm bl ps f t m ln sw rest col c buf z e nl = rw (z, e, nl, read) refl

module _ (E : Eina) where
  -- What a round of the loop does with the character read.
  abbrev round : ℕ → Loop E.Hash → Parser × ℕ → Parse (Loop E.Hash)
  round n l (p, c) = elim (c == eof) [
    | true ↦ ok (record l { p = p })
    | false ↦ body E p.comments (record l { p = p }) c >>= loop E n
  ]

  loop-round : (n : ℕ) (l : Loop E.Hash) → loop E (suc n) l ≡ round n l (char_next_get l.p)
  unfolding loop
  loop-round n l = refl

  body-step :
      (l0 l1 l2 l3 : Loop E.Hash) (c d : ℕ)
      → char E.calloc l0 c ≡ ok (l1, d)
      → finish_token E l1 d ≡ ok l2
      → finish_block l2 ≡ ok l3
      → body E comment_none l0 c ≡ ok l3
  unfolding body
  body-step l0 l1 l2 l3 c d switch token block =
      rw (switch, body) (rw (token, body) (rw (block, body) refl))

  round-next :
      (n : ℕ) (l l3 : Loop E.Hash) (p : Parser) (c : ℕ)
      → (c == eof) ≡ false
      → body E p.comments (record l { p = p }) c ≡ ok l3
      → round n l (p, c) ≡ loop E n l3
  round-next n l l3 p c e b = rw (e, round) (rw (b, round) refl)

  -- One round of the loop, outside of comments.
  pub loop-step :
      (n : ℕ) (sm : Sm) (bl : List Bool) (ps : List ℕ) (f t : Option ℕ) (m : Store E.Hash) (ln : ℕ)
      (sw : Bool) (rest : Text) (col c : ℕ) (buf : Text) (l1 l2 l3 : Loop E.Hash) (d : ℕ)
      → (c == 0) ≡ false
      → (c == eof) ≡ false
      → (c == b'\n') ≡ false
      → char E.calloc (reads sm bl ps f t m rest ln sw (u32 (col + 1)) buf) c ≡ ok (l1, d)
      → finish_token E l1 d ≡ ok l2
      → finish_block l2 ≡ ok l3
      → loop E (suc n) (reads sm bl ps f t m (c ∷ rest) ln sw col buf) ≡ loop E n l3
  loop-step n sm bl ps f t m ln sw rest col c buf l1 l2 l3 d z e nl switch token block =
      let l = reads sm bl ps f t m (c ∷ rest) ln sw col buf in
      loop-round n l
      ∙ ap (round n l) (next-char sm bl ps f t m ln sw rest col c buf z e nl)
      ∙ round-next n l l3 (reads sm bl ps f t m rest ln sw (u32 (col + 1)) buf).p c e (
          body-step (reads sm bl ps f t m rest ln sw (u32 (col + 1)) buf) l1 l2 l3 c d switch token
            block)

  loop-char :
      (n : ℕ) (sm : Sm) (bl : List Bool) (ps : List ℕ) (f t : Option ℕ) (m : Store E.Hash) (ln : ℕ)
      (rest : Text) (col c : ℕ) (buf : Text) (first : Bool)
      → IsWordChar first c
      → (length buf == 0) ≡ first
      → length buf + 1 < buf_size
      → loop E (suc n) (reads sm bl ps f t m (c ∷ rest) ln false col buf)
        ≡ loop E n (reads sm bl ps f t m rest ln false (u32 (col + 1)) (buf ++ c ∷ []))
  unfolding finish_token finish_block
  loop-char n sm bl ps f t m ln rest col c buf first w e lt =
      let (_, _, _, _, _, _, _, _, _, _, z, eo, nl) = IsWordChar-Fails first c w in
      let new = reads sm bl ps f t m rest ln false (u32 (col + 1)) (buf ++ c ∷ []) in
      loop-step n sm bl ps f t m ln false rest col c buf new new new c z eo nl
        (char-word E.calloc sm bl ps f t m ln rest (u32 (col + 1)) c buf first w e lt) refl refl

  -- The loop reads what is left of a word into ln false the buffer.
  loop-rest :
      (w : Text) (n k : ℕ) (sm : Sm) (bl : List Bool) (ps : List ℕ) (f t : Option ℕ)
      (m : Store E.Hash) (ln : ℕ) (rest : Text) (col : ℕ) (buf : Text) (first : Bool)
      → k ≡ length w + n
      → IsRest first w
      → (length buf == 0) ≡ first
      → length buf + length w < buf_size
      → loop E k (reads sm bl ps f t m (w ++ rest) ln false col buf)
        ≡ loop E n (reads sm bl ps f t m rest ln false (behind_word w col) (buf ++ w))
  loop-rest [] n k sm bl ps f t m ln rest col buf first e w at lt =
      ap (λ x. loop E x (reads sm bl ps f t m rest ln false col buf)) (omega arith)
      ∙ ap (λ x. loop E n (reads sm bl ps f t m rest ln false col x)) (sym (append-nil buf))
  loop-rest (c ∷ w) n k sm bl ps f t m ln rest col buf first e (x, xs) at lt =
      let more : (length (buf ++ c ∷ []) == 0) ≡ false =
        ground (arith, length-append buf (c ∷ [])) in
      ap (λ x. loop E x (reads sm bl ps f t m (c ∷ (w ++ rest)) ln false col buf)) (omega arith)
      ∙ loop-char (length w + n) sm bl ps f t m ln (w ++ rest) col c buf first x at (omega arith)
      ∙ loop-rest w n (length w + n) sm bl ps f t m ln rest (u32 (col + 1)) (buf ++ c ∷ []) false
          refl xs more (omega (arith, length-append buf (c ∷ [])))
      ∙ ap (λ y. loop E n (reads sm bl ps f t m rest ln false (behind_word w (u32 (col + 1))) y))
          (append_assoc buf (c ∷ []) w)

  -- A word at the start of a token goes to the buffer.
  pub loop-word :
      (w : Text) (n : ℕ) (sm : Sm) (bl : List Bool) (ps : List ℕ) (f t : Option ℕ)
      (m : Store E.Hash) (ln : ℕ) (rest : Text) (col : ℕ)
      → IsRest true w
      → length w < buf_size
      → loop E (length w + n) (reads sm bl ps f t m (w ++ rest) ln false col [])
        ≡ loop E n (reads sm bl ps f t m rest ln false (behind_word w col) w)
  loop-word w n sm bl ps f t m ln rest col is_word lt =
      loop-rest w n (length w + n) sm bl ps f t m ln rest col [] true refl is_word refl
        (omega arith)
