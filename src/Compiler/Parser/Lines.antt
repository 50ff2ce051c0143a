-- ===== src/Compiler/Parser/Lines.antt =====
-- The positions that _char_next_get of src/bin/estate_cc_parser.c counts, and the comments that the
-- loop skips.
use estate.Base.{
  ℕ, zero, suc, ◌+◌, ◌^◌, ◌≡◌, ◌<◌, sym, subst, refl, ap, ◌∙◌, false, ◌||◌, [], ◌∷◌, ◌++◌, Text,
  length, ◌==◌, arith, if◌then◌else◌,
}
use estate.Eina.{Eina}
use estate.Compiler.Parser.Token.{Loop}
use estate.Compiler.Parser.Char.{loop, body, char, char_space, finish_token, finish_block}
use estate.Compiler.Parser.{
  comment_none, comment_single_line, Parser, eof, u32, char_next_get, read,
}

-- The parser after so many characters.
abbrev pub after : ℕ → Parser → Parser
after zero p = p
after (suc n) p = after n (char_next_get p).0

-- No byte ends the file early.
abbrev pub IsText : Text → Type 0
IsText [] = Unit
IsText (c ∷ cs) = (c == 0 || c == eof) ≡ false × IsText cs

abbrev pub newlines : Text → ℕ
newlines [] = 0
newlines (c ∷ cs) = if c == b'\n' then suc (newlines cs) else newlines cs

abbrev pub column : Text → ℕ → ℕ
column [] k = k
column (c ∷ cs) k = if c == b'\n' then column cs 1 else column cs (u32 (k + 1))

-- Where reading a text leads to.
abbrev pub IsAfter : Text → Text → Parser → Parser → Type 0
IsAfter w cs p q = (q.rest ≡ cs) × (q.line ≡ u32 (p.line + newlines w)) × (q.col ≡ column w p.col)

read_char :
    (p : Parser) (c : ℕ) (cs : Text)
    → p.line < 2 ^ 32
    → (c == 0 || c == eof) ≡ false
    → IsAfter (c ∷ []) cs p (read p (c ∷ cs)).0 × ((read p (c ∷ cs)).0.line < 2 ^ 32)
unfolding read
read_char p c cs le t = ground arith

next_char :
    (p : Parser) (c : ℕ) (cs : Text)
    → p.line < 2 ^ 32
    → (c == 0 || c == eof) ≡ false
    → p.rest ≡ c ∷ cs
    → IsAfter (c ∷ []) cs p (char_next_get p).0 × ((char_next_get p).0.line < 2 ^ 32)
unfolding char_next_get
next_char p c cs le t e =
    subst (λ r. IsAfter (c ∷ []) cs p (read p r).0 × ((read p r).0.line < 2 ^ 32)) (sym e)
      (read_char p c cs le t)

join :
    (w cs : Text) (c : ℕ) (p q r : Parser)
    → IsAfter (c ∷ []) (w ++ cs) p q
    → IsAfter w cs q r
    → IsAfter (c ∷ w) cs p r
join w cs c p q r a b = ground arith

-- For a text with neither a NUL byte nor the byte 255 that is next in the file, reading its
-- characters leads behind it, counts a line for each newline in it, modulo 2 ^ 32, and counts the
-- column from the last newline.
pub after-IsAfter :
    (w cs : Text) (p : Parser)
    → IsText w
    → p.line < 2 ^ 32
    → p.rest ≡ w ++ cs
    → IsAfter w cs p (after (length w) p)
after-IsAfter [] cs p t le e = ground arith
after-IsAfter (c ∷ w) cs p t le e =
    let (s, small) = next_char p c (w ++ cs) le t.0 e in
    join w cs c p (char_next_get p).0 (after (length w) (char_next_get p).0) s
      (after-IsAfter w cs (char_next_get p).0 t.1 small s.0)

module _ (E : Eina) where
  -- The loop in a comment of a single line, outside of a token.
  abbrev pub in_comment : Loop E.Hash → Text → ℕ → Loop E.Hash
  in_comment l rest col = record l {
    p = record (l.p) { rest = rest; col = col; comments = comment_single_line; has_token = false };
    buf = [];
    leave_block = false;
  }

  -- The loop at the start of the next line, in no comment.
  abbrev pub behind : Loop E.Hash → Text → Loop E.Hash
  behind l rest = record l {
    p = record (l.p) {
      rest = rest;
      line = u32 (l.p.line + 1);
      col = 1;
      comments = comment_none;
      has_token = false;
    };
    buf = [];
    leave_block = false;
  }

  newline_last :
      (cs : Text) (fuel : ℕ) (l : Loop E.Hash) (col : ℕ)
      → loop E (suc fuel) (in_comment l (b'\n' ∷ cs) col) ≡ loop E fuel (behind l cs)
  unfolding loop body char char_space finish_token finish_block char_next_get read
  newline_last cs fuel l col = refl

  comment_char :
      (c : ℕ) (cs : Text) (fuel : ℕ) (l : Loop E.Hash) (col : ℕ)
      → (c == 0) ≡ false
      → (c == eof) ≡ false
      → (c == b'\n') ≡ false
      → loop E (suc fuel) (in_comment l (c ∷ cs) col)
        ≡ loop E fuel (in_comment l cs (u32 (col + 1)))
  unfolding loop body char_next_get read
  comment_char c cs fuel l col z e n = ground (arith, z, e, n)

  skip :
      (w cs : Text) (fuel n : ℕ) (l : Loop E.Hash) (col : ℕ)
      → n ≡ length w + suc fuel
      → IsText w
      → newlines w ≡ 0
      → loop E n (in_comment l (w ++ b'\n' ∷ cs) col) ≡ loop E fuel (behind l cs)
  skip w cs fuel zero l col e t nl = ground arith
  skip [] cs fuel (suc n) l col e t nl =
      ap (λ k. loop E (suc k) (in_comment l (b'\n' ∷ cs) col)) (omega arith)
      ∙ newline_last cs fuel l col
  skip (c ∷ w) cs fuel (suc n) l col e t nl =
      comment_char c (w ++ b'\n' ∷ cs) n l col (ground arith) (ground arith) (ground arith)
      ∙ skip w cs fuel n l (u32 (col + 1)) (omega arith) t.1 (ground arith)

  -- In a comment of a single line, outside of a token, the loop skips a text that ends no line and
  -- no file, and goes on behind the next newline, in no comment and with the rest of its state as
  -- it was.
  pub loop-behind :
      (w cs : Text) (fuel : ℕ) (l : Loop E.Hash) (col : ℕ)
      → IsText w
      → newlines w ≡ 0
      → loop E (length w + suc fuel) (in_comment l (w ++ b'\n' ∷ cs) col)
        ≡ loop E fuel (behind l cs)
  loop-behind w cs fuel l col = skip w cs fuel (length w + suc fuel) l col refl
