-- ===== src/Compiler/Parser/Padded.antt =====
-- The loop of estate_cc_parser_parse, src/bin/estate_cc_parser.c, over a word between blanks.
use estate.Base.{
  All, ℕ, suc, ◌+◌, ◌<◌, ◌≡◌, ◌⊎◌, inl, inr, refl, sym, subst, ap, ◌∙◌, Bool, true, false, Option,
  List, [], ◌∷◌, ◌++◌, Text, length, ◌==◌, if◌then◌else◌, arith, ==_ne,
}
use estate.Eina.{Eina}
use estate.Compiler.Data.{Store}
use estate.Compiler.Parser.{Sm, u32, char_next_get, read}
use estate.Compiler.Parser.Token.{Loop}
use estate.Compiler.Parser.Char.{
  buf_size, is_space, char, char_space, finish_token, finish_block, body, loop,
}
use estate.Compiler.Parser.Words.{reads, IsRest, behind_word, loop-word}

abbrev pub AreBlank : Text → Type 0
AreBlank w = All (λ c. is_space c ≡ true) w

space-cases : (c : ℕ) → is_space c ≡ true → (c ≡ b' ') ⊎ (c ≡ b'\n') ⊎ (c ≡ b'\r') ⊎ (c ≡ b'\t')
space-cases c e = ground (arith, e)

-- A line and a column after a blank, and whether a token has stopped there.
abbrev line_after : ℕ → ℕ → ℕ
line_after c ln = if c == b'\n' then u32 (ln + 1) else ln

abbrev column_after : ℕ → ℕ → ℕ
column_after c col = if c == b'\n' then 1 else u32 (col + 1)

abbrev stops : Text → Bool → Bool
stops buf sw = if length buf == 0 then sw else true

module _ (E : Eina) (sm : Sm) (bl : List Bool) (ps : List ℕ) (f t : Option ℕ)
    (m : Store E.Hash) where
  -- The loop skips the blank `c`.
  abbrev Skips : ℕ → Type 0
  Skips c =
      (n : ℕ) (rest : Text) (ln : ℕ) (sw : Bool) (col : ℕ) (buf : Text)
      → loop E (suc n) (reads sm bl ps f t m (c ∷ rest) ln sw col buf)
        ≡ loop E n
            (reads sm bl ps f t m rest (line_after c ln) (stops buf sw) (column_after c col) buf)

  space-Skips : Skips b' '
  unfolding loop body char_next_get read char char_space finish_token finish_block
  space-Skips n rest ln sw col [] = refl
  space-Skips n rest ln sw col (x ∷ w) = rw (==_ne (suc (length w)) 0 (omega arith), loop) refl

  newline-Skips : Skips b'\n'
  unfolding loop body char_next_get read char char_space finish_token finish_block
  newline-Skips n rest ln sw col [] = refl
  newline-Skips n rest ln sw col (x ∷ w) = rw (==_ne (suc (length w)) 0 (omega arith), loop) refl

  return-Skips : Skips b'\r'
  unfolding loop body char_next_get read char char_space finish_token finish_block
  return-Skips n rest ln sw col [] = refl
  return-Skips n rest ln sw col (x ∷ w) = rw (==_ne (suc (length w)) 0 (omega arith), loop) refl

  tab-Skips : Skips b'\t'
  unfolding loop body char_next_get read char char_space finish_token finish_block
  tab-Skips n rest ln sw col [] = refl
  tab-Skips n rest ln sw col (x ∷ w) = rw (==_ne (suc (length w)) 0 (omega arith), loop) refl

  loop-blank : (c : ℕ) → is_space c ≡ true → Skips c
  loop-blank c e = elim (space-cases c e) [
    | inl q ↦ subst Skips (sym q) space-Skips
    | inr (inl q) ↦ subst Skips (sym q) newline-Skips
    | inr (inr (inl q)) ↦ subst Skips (sym q) return-Skips
    | inr (inr (inr q)) ↦ subst Skips (sym q) tab-Skips
  ]

  -- The loop comes from one place to another, further down by `k - n` rounds.
  abbrev pub Comes : ℕ → Loop E.Hash → ℕ → Text → Text → Type 0
  Comes k l n rest buf =
      (ln : ℕ) × (sw : Bool) × (col : ℕ) × (loop E k l
        ≡ loop E n (reads sm bl ps f t m rest ln sw col buf))

  -- Blanks behind a part of a token, or behind none.
  loop-blanks :
      (ws : Text) (n k : ℕ) (rest : Text) (ln : ℕ) (sw : Bool) (col : ℕ) (buf : Text)
      → k ≡ length ws + n
      → AreBlank ws
      → Comes k (reads sm bl ps f t m (ws ++ rest) ln sw col buf) n rest buf
  loop-blanks [] n k rest ln sw col buf e a =
      (ln, sw, col, ap (λ x. loop E x (reads sm bl ps f t m rest ln sw col buf)) (omega arith))
  loop-blanks (c ∷ ws) n k rest ln sw col buf e (q, a) =
      let (l1, s1, c1, ends) =
        loop-blanks ws n (length ws + n) rest (line_after c ln) (stops buf sw) (column_after c col)
          buf refl a in
      (
        l1,
        s1,
        c1,
        ap (λ x. loop E x (reads sm bl ps f t m (c ∷ (ws ++ rest)) ln sw col buf)) (omega arith)
            ∙ loop-blank c q (length ws + n) (ws ++ rest) ln sw col buf
            ∙ ends,
      )

  -- Blanks between two tokens.
  pub loop-gap :
      (ws : Text) (n : ℕ) (rest : Text) (ln col : ℕ)
      → AreBlank ws
      → (l1 : ℕ) × (c1 : ℕ) × (loop E
            (length ws + n)
            (reads sm bl ps f t m (ws ++ rest) ln false col [])
          ≡ loop E n (reads sm bl ps f t m rest l1 false c1 []))
  loop-gap [] n rest ln col a =
      (ln, col, ap (λ x. loop E x (reads sm bl ps f t m rest ln false col [])) (omega arith))
  loop-gap (c ∷ ws) n rest ln col (q, a) =
      let (l1, c1, ends) = loop-gap ws n rest (line_after c ln) (column_after c col) a in
      (
        l1,
        c1,
        ap (λ x. loop E x (reads sm bl ps f t m (c ∷ (ws ++ rest)) ln false col [])) (omega arith)
            ∙ loop-blank c q (length ws + n) (ws ++ rest) ln false col []
            ∙ ends,
      )

-- A word, with the blanks before it and behind it.
abbrev pub Padded : Type 0
Padded = Text × Text × Text

abbrev pub word_of : Padded → Text
word_of (b, w, a) = w

abbrev pub padded : Padded → Text → Text
padded (b, w, a) rest = b ++ (w ++ (a ++ rest))

abbrev pub padded_size : Padded → ℕ → ℕ
padded_size (b, w, a) n = length b + (length w + (length a + n))

abbrev pub IsPadded : Padded → Type 0
IsPadded (b, w, a) = AreBlank b × IsRest true w × (length w < buf_size) × AreBlank a

module _ (E : Eina) (sm : Sm) (bl : List Bool) (ps : List ℕ) (f t : Option ℕ)
    (m : Store E.Hash) where
  -- The loop reads a word between blanks into the buffer.
  pub loop-padded :
      (b w a : Text) (n : ℕ) (rest : Text) (ln col : ℕ)
      → IsPadded (b, w, a)
      → Comes E sm bl ps f t m
          (padded_size (b, w, a) n)
          (reads sm bl ps f t m (padded (b, w, a) rest) ln false col [])
          n
          rest
          w
  loop-padded b w a n rest ln col (before, is_word, short, behind) =
      let (l1, c1, e1) =
        loop-gap E sm bl ps f t m b (length w + (length a + n)) (w ++ (a ++ rest)) ln col before in
      let c2 = behind_word w c1 in
      let (l3, s3, c3, e3) =
        loop-blanks E sm bl ps f t m a n (length a + n) rest l1 false c2 w refl behind in
      (
        l3,
        s3,
        c3,
        e1 ∙ loop-word E w (length a + n) sm bl ps f t m l1 (a ++ rest) c1 is_word short ∙ e3,
      )
