-- ===== src/Compiler/Parser/Layout.antt =====
-- The description of a machine by its transitions, for src/bin/estate_cc_parser.c: its text in any layout,
-- and how many characters it has.
use estate.Base.{
  All, AreDistinct, ℕ, suc, ◌+◌, ◌≡◌, refl, sym, ap, ◌∙◌, true, List, [], ◌∷◌, ◌++◌, Text, codes,
  length, length-append, arith,
}
use estate.Compiler.Parser.Words.{IsRest}
use estate.Compiler.Parser.Clauses.{Clause, clause_names}
use estate.Compiler.Parser.Padded.{AreBlank, Padded, word_of, padded, padded_size, IsPadded}
use estate.Compiler.Parser.Written.{
  Written, IsWritten, written_text, written_size, clauses_of, clauses_text, clauses_size,
}

-- A machine with its layout: the blanks around the names of the two blocks, and those before the
-- three closing braces and the end.
pub record Description : Type 0 where
  pub name : Padded
  pub outer : Text × Text
  pub inner : Text × Text
  pub clauses : List Written
  pub last : Text × Text × Text × Text

abbrev pub transitions_of : Description → Padded
transitions_of d = (d.outer.0, codes "transitions", d.outer.1)

abbrev pub model_of : Description → Padded
model_of d = (d.inner.0, codes "model", d.inner.1)

abbrev pub closing : Text × Text × Text × Text → Text
closing (a, b, c, d) = a ++ b'}' ∷ (b ++ b'}' ∷ (c ++ b'}' ∷ (d ++ 0 ∷ [])))

-- `name { transitions { model { ... } } }`
abbrev pub description : Description → Text
description d = padded d.name (
    b'{'
    ∷ padded (transitions_of d)
        (b'{' ∷ padded (model_of d) (b'{' ∷ clauses_text d.clauses (closing d.last))))

-- The name of the machine, and its transitions.
abbrev pub title : Description → Text
title d = word_of d.name

abbrev pub content : Description → List Clause
content d = clauses_of d.clauses

-- The names of the transitions are distinct, and every name is a word that fits the buffer.
pub record IsDescription (d : Description) : Type 0 where
  pub name : IsPadded d.name
  pub outer : AreBlank d.outer.0 × AreBlank d.outer.1
  pub inner : AreBlank d.inner.0 × AreBlank d.inner.1
  pub clauses : All IsWritten d.clauses
  pub last : AreBlank d.last.0 × AreBlank d.last.1 × AreBlank d.last.2 × AreBlank d.last.3
  pub distinct : AreDistinct (clause_names (content d))

-- A word between blanks, before the character `c` that ends it.
length-padded :
    (p : Padded) (c : ℕ) (rest : Text) (j : ℕ)
    → padded_size p (suc (length rest + j)) ≡ length (padded p (c ∷ rest)) + j
length-padded (b, w, a) c rest j = omega (
  arith,
  length-append b (w ++ (a ++ c ∷ rest)),
  length-append w (a ++ c ∷ rest),
  length-append a (c ∷ rest),
)

length-written_text :
    (c : Written) (rest : Text) (j : ℕ)
    → written_size c (length rest + j) ≡ length (written_text c rest) + j
length-written_text (n, a, b) rest j =
    ap (λ x. padded_size n (suc (padded_size a (suc x)))) (length-padded b b';' rest j)
    ∙ ap (λ x. padded_size n (suc x)) (length-padded a b'>' (padded b (b';' ∷ rest)) j)
    ∙ length-padded n b':' (padded a (b'>' ∷ padded b (b';' ∷ rest))) j

length-clauses_text :
    (cs : List Written) (rest : Text) (j : ℕ)
    → clauses_size cs (length rest + j) ≡ length (clauses_text cs rest) + j
length-clauses_text [] rest j = refl
length-clauses_text (c ∷ cs) rest j =
    ap (written_size c) (length-clauses_text cs rest j)
    ∙ length-written_text c (clauses_text cs rest) j

abbrev pub closing_size : Text × Text × Text × Text → ℕ
closing_size (a, b, c, d) = length a + suc (length b + suc (length c + suc (length d + 2)))

length-closing : (e : Text × Text × Text × Text) → closing_size e ≡ length (closing e) + 1
length-closing (a, b, c, d) =
    let t3 = d ++ 0 ∷ [] in
    let t2 = c ++ b'}' ∷ t3 in
    let t1 = b ++ b'}' ∷ t2 in
    omega (
      arith,
      length-append a (b'}' ∷ t1),
      length-append b (b'}' ∷ t2),
      length-append c (b'}' ∷ t3),
      length-append d (0 ∷ []),
    )

pub transitions-IsRest : IsRest true (codes "transitions")
transitions-IsRest =
    (refl, (refl, (refl, (refl, (refl, (refl, (refl, (refl, (refl, (refl, (refl, tt)))))))))))

pub model-IsRest : IsRest true (codes "model")
model-IsRest = (refl, (refl, (refl, (refl, (refl, tt)))))

-- The rounds of the loop for a description: one for each character, and one that is left.
abbrev pub rounds : Description → ℕ
rounds d = padded_size d.name (
    suc (
      padded_size (transitions_of d)
        (suc (padded_size (model_of d) (suc (clauses_size d.clauses (closing_size d.last)))))))

pub length-description : (d : Description) → length (description d) + 1 ≡ rounds d
length-description d =
    let t4 = clauses_text d.clauses (closing d.last) in
    let t3 = padded (model_of d) (b'{' ∷ t4) in
    let t2 = padded (transitions_of d) (b'{' ∷ t3) in
    let up : ℕ → ℕ = λ x. padded_size d.name (suc (padded_size (transitions_of d) (suc x))) in
    sym (
      ap (λ x. up (padded_size (model_of d) (suc (clauses_size d.clauses x))))
        (length-closing d.last)
      ∙ ap (λ x. up (padded_size (model_of d) (suc x)))
          (length-clauses_text d.clauses (closing d.last) 1)
      ∙ ap up (length-padded (model_of d) b'{' t4 1)
      ∙ ap (λ x. padded_size d.name (suc x)) (length-padded (transitions_of d) b'{' t3 1)
      ∙ length-padded d.name b'{' t2 1)
