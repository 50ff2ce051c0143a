-- ===== src/Compiler/Parser/Describe.antt =====
-- estate_cc_parser_parse, src/bin/estate_cc_parser.c, over the description of a machine that is given by
-- its transitions alone, in any layout.
use estate.Base.{
  ℕ, suc, ◌+◌, ◌≡◌, refl, sym, subst, ap, ◌∙◌, false, Option, none, some, List, [], ◌∷◌, ◌++◌, Text,
  codes, length, arith,
}
use estate.Eina.{Eina, EinaLaws}
use estate.Compiler.Check.Table.{HasRoom}
use estate.Compiler.Data.{Store}
use estate.Compiler.Parser.{sm_none, sm_fsm, sm_transitions, sm_transition_start, ok, u32}
use estate.Compiler.Parser.Token.{Loop}
use estate.Compiler.Parser.Char.{loop, parser_parse, start}
use estate.Compiler.Parser.Words.{reads}
use estate.Compiler.Parser.Clauses.{clause_names, all_described}
use estate.Compiler.Parser.Padded.{AreBlank, padded, padded_size, loop-gap, loop-padded}
use estate.Compiler.Parser.Written.{clauses_text, clauses_size}
use estate.Compiler.Parser.Rounds.{
  AreFree, loop-clauses, named, named_transitions, new-AreFree, loop-name, loop-transitions,
  loop-model, loop-close, loop-ends,
}
use estate.Compiler.Parser.Layout.{
  Description, IsDescription, description, title, content, transitions_of, model_of, closing,
  closing_size, rounds, transitions-IsRest, model-IsRest, length-description,
}

module _ (E : Eina) (laws : EinaLaws E) (room : HasRoom E) where
  -- The closing braces, and the end of the text.
  loop-closing :
      (e : Text × Text × Text × Text) (ps : List ℕ) (f : Option ℕ) (m : Store E.Hash) (ln col : ℕ)
      → AreBlank e.0 × AreBlank e.1 × AreBlank e.2 × AreBlank e.3
      → (l1 : ℕ) × (c1 : ℕ) × (loop E (closing_size e) (
            reads sm_transition_start
              (false ∷ false ∷ false ∷ [])
              ps
              f
              none
              m
              (closing e)
              ln
              false
              col
              [])
          ≡ ok (reads sm_none [] ps f none m [] l1 false c1 []))
  loop-closing (a, b, c, d) ps f m ln col (p, q, r, s) =
      let k3 = length d + 2 in
      let k2 = length c + suc k3 in
      let k1 = length b + suc k2 in
      let t3 = d ++ 0 ∷ [] in
      let t2 = c ++ b'}' ∷ t3 in
      let t1 = b ++ b'}' ∷ t2 in
      let bl = false ∷ [] in
      let (l1, c1, e1) =
        loop-gap E sm_transition_start (false ∷ false ∷ bl) ps f none m a (suc k1) (b'}' ∷ t1) ln
          col p in
      let (l2, c2, e2) =
        loop-gap E sm_transitions (false ∷ bl) ps f none m b (suc k2) (b'}' ∷ t2) l1 (u32 (c1 + 1))
          q in
      let (l3, c3, e3) =
        loop-gap E sm_fsm bl ps f none m c (suc k3) (b'}' ∷ t3) l2 (u32 (c2 + 1)) r in
      let (l4, c4, e4) = loop-gap E sm_none [] ps f none m d 2 (0 ∷ []) l3 (u32 (c3 + 1)) s in
      (
        l4,
        c4,
        e1
            ∙ (loop-close E laws room ps f m k1 l1 t1 c1).0
            ∙ e2
            ∙ (loop-close E laws room ps f m k2 l2 t2 c2).1
            ∙ e3
            ∙ (loop-close E laws room ps f m k3 l3 t3 c3).2
            ∙ e4
            ∙ loop-ends E laws room ps f m 1 l4 c4,
      )

  -- The loop after the parse of a description.
  abbrev pub parsed : E.Hash → Store E.Hash → Description → ℕ → ℕ → Loop E.Hash
  parsed h m d ln col =
      reads sm_none [] (m.next ∷ []) (some m.next) none
        (all_described E (named E laws room h m (title d)) m.next (content d)) [] ln false col []

  loop-parsed :
      (h : E.Hash) (m : Store E.Hash) (d : Description)
      → E.hash_new ≡ some h
      → IsDescription d
      → (ln : ℕ) × (col : ℕ) × (loop E
            (rounds d)
            (reads sm_none [] [] none none m (description d) 1 false 1 [])
          ≡ ok (parsed h m d ln col))
  loop-parsed h m d made is =
      let cs = d.clauses in
      let k4 = clauses_size cs (closing_size d.last) in
      let k3 = padded_size (model_of d) (suc k4) in
      let k2 = padded_size (transitions_of d) (suc k3) in
      let t4 = clauses_text cs (closing d.last) in
      let t3 = padded (model_of d) (b'{' ∷ t4) in
      let t2 = padded (transitions_of d) (b'{' ∷ t3) in
      let ps = m.next ∷ [] in
      let f = some m.next in
      let m1 = named E laws room h m (title d) in
      let m2 = all_described E m1 m.next (content d) in
      let (l1, s1, c1, e1) =
        loop-padded E sm_none [] [] none none m d.name.0 d.name.1 d.name.2 (suc k2) (b'{' ∷ t2) 1 1
          is.name in
      let (l2, s2, c2, e2) =
        loop-padded E sm_fsm (false ∷ []) ps f none m1 d.outer.0 (codes "transitions") d.outer.1
          (suc k3) (b'{' ∷ t3) l1 (u32 (c1 + 1))
          (is.outer.0, transitions-IsRest, omega arith, is.outer.1) in
      let (l3, s3, c3, e3) =
        loop-padded E sm_transitions (false ∷ false ∷ []) ps f none m1 d.inner.0 (codes "model")
          d.inner.1 (suc k4) (b'{' ∷ t4) l2 (u32 (c2 + 1))
          (is.inner.0, model-IsRest, omega arith, is.inner.1) in
      let free =
        subst (λ x. AreFree E laws room x (clause_names (content d)))
          (sym (named_transitions E laws room h m (title d)))
          (new-AreFree E laws room h (clause_names (content d)) made) in
      let (l4, c4, e4) =
        loop-clauses E laws room cs (false ∷ false ∷ false ∷ []) ps m.next (closing_size d.last) m1
          (closing d.last) l3 (u32 (c3 + 1)) is.clauses is.distinct free in
      let (l5, c5, e5) = loop-closing d.last ps f m2 l4 c4 is.last in
      (
        l5,
        c5,
        e1
            ∙ loop-name E laws room k2 h m l1 s1 t2 (title d) c1 made is.name.2
            ∙ e2
            ∙ loop-transitions E laws room ps f m1 k3 l2 s2 t3 c2
            ∙ e3
            ∙ loop-model E laws room ps f m1 k4 l3 s3 t4 c3
            ∙ e4
            ∙ e5,
      )

  -- The parse of a description ends without an error.
  pub parser_parse-parsed :
      (h : E.Hash) (m : Store E.Hash) (d : Description)
      → E.hash_new ≡ some h
      → IsDescription d
      → (ln : ℕ) × (col : ℕ) × (parser_parse E m (description d) ≡ ok (parsed h m d ln col))
  unfolding parser_parse start
  parser_parse-parsed h m d made is =
      let (ln, col, e) = loop-parsed h m d made is in
      (
        ln,
        col,
        ap (λ k. loop E k (reads sm_none [] [] none none m (description d) 1 false 1 []))
              (length-description d)
            ∙ e,
      )

  -- The layout of a description does not matter. For two descriptions with the same name of the
  -- machine and the same transitions in the same order, with any blanks around their words, where
  -- the names of the transitions are distinct and each name starts with a letter or `_`, goes on
  -- with letters, `_` and digits and is at most 2047 characters long (the one of the machine may be
  -- empty), and where memory is found: both parses end without an error, with the same machines and the same memory.
  pub parser_parse-layout :
      (h : E.Hash) (m : Store E.Hash) (d d' : Description)
      → E.hash_new ≡ some h
      → IsDescription d
      → IsDescription d'
      → title d ≡ title d'
      → content d ≡ content d'
      → (l : Loop E.Hash) × (l' : Loop E.Hash) × (parser_parse E m (description d) ≡ ok l)
        × (parser_parse E m (description d') ≡ ok l')
        × (l.p.parse ≡ l'.p.parse)
        × (l.store ≡ l'.store)
  parser_parse-layout h m d d' made is is' named_same same =
      let (ln, col, e) = parser_parse-parsed h m d made is in
      let (ln', col', e') = parser_parse-parsed h m d' made is' in
      (
        parsed h m d ln col,
        parsed h m d' ln' col',
        e,
        e',
        refl,
        ap (λ x. all_described E (named E laws room h m x) m.next (content d)) named_same
            ∙ ap (all_described E (named E laws room h m (title d')) m.next) same,
      )
