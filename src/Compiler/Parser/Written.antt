-- ===== src/Compiler/Parser/Written.antt =====
-- estate_cc_parser_parse, src/bin/estate_cc_parser.c, over the text of a transition, in any layout.
use estate.Base.{true, All, ℕ, suc, ◌+◌, ◌≡◌, ◌∙◌, Bool, false, none, some, List, [], ◌∷◌, Text}
use estate.Eina.{Eina}
use estate.Compiler.Data.{Store}
use estate.Compiler.Parser.{sm_transition_start, sm_transition_from, sm_transition_to, u32}
use estate.Compiler.Parser.Char.{loop}
use estate.Compiler.Parser.Words.{reads}
use estate.Compiler.Parser.Padded.{AreBlank, Padded, word_of, padded, padded_size, loop-padded}
use estate.Compiler.Parser.Clauses.{
  IsWord, registered, with_from, described, loop-colon, loop-greater, loop-semicolon, Clause,
  IsClause,
}

-- A transition with its layout.
abbrev pub Written : Type 0
Written = Padded × Padded × Padded

abbrev pub clause_of : Written → Clause
clause_of (n, a, b) = (word_of n, word_of a, word_of b)

-- `name:from>to;` with blanks, before some more text
abbrev pub written_text : Written → Text → Text
written_text (n, a, b) rest = padded n (b':' ∷ padded a (b'>' ∷ padded b (b';' ∷ rest)))

abbrev pub written_size : Written → ℕ → ℕ
written_size (n, a, b) r = padded_size n (suc (padded_size a (suc (padded_size b (suc r)))))

abbrev pub clauses_of : List Written → List Clause
clauses_of [] = []
clauses_of (c ∷ cs) = clause_of c ∷ clauses_of cs

abbrev pub clauses_text : List Written → Text → Text
clauses_text [] rest = rest
clauses_text (c ∷ cs) rest = written_text c (clauses_text cs rest)

abbrev pub clauses_size : List Written → ℕ → ℕ
clauses_size [] r = r
clauses_size (c ∷ cs) r = written_size c (clauses_size cs r)

-- A word between blanks.
abbrev IsSpaced : Padded → Type 0
IsSpaced (b, w, a) = AreBlank b × IsWord w × AreBlank a

abbrev pub IsWritten : Written → Type 0
IsWritten (n, a, b) = IsSpaced n × IsSpaced a × IsSpaced b

pub IsWritten-IsClause : (cs : List Written) → All IsWritten cs → All IsClause (clauses_of cs)
IsWritten-IsClause [] h = tt
IsWritten-IsClause ((n, a, b) ∷ cs) ((p, q, r), h) = ((p.1, q.1, r.1), IsWritten-IsClause cs h)

module _ (E : Eina) (bl : List Bool) (ps : List ℕ) (f : ℕ) where
  pub loop-written :
      (c : Written) (r : ℕ) (m : Store E.Hash) (rest : Text) (ln col : ℕ)
      → IsWritten c
      → E.calloc m.next ≡ true
      → E.find (m.fsms f).transitions (clause_of c).0 ≡ none
      → (l1 : ℕ) × (c1 : ℕ) × (loop E
            (written_size c r)
            (reads sm_transition_start bl ps (some f) none m (written_text c rest) ln false col [])
          ≡ loop E r (
              reads sm_transition_start bl ps
                (some f)
                none
                (described E m f (clause_of c).0 (clause_of c).1 (clause_of c).2)
                rest
                l1
                false
                c1
                []))
  loop-written ((b, [], d), a, e) r m rest ln col (p, q, s) memory none_yet = elim p.1 [ ]
  loop-written ((b, x ∷ n, d), (b', [], d'), e) r m rest ln col (p, q, s) memory none_yet =
      elim q.1 [ ]
  loop-written ((b, x ∷ n, d), (b', y ∷ a, d'), (b'', [], d'')) r m rest ln col (p, q, s) memory
        none_yet =
      elim s.1 [ ]
  loop-written ((b, x ∷ n, d), (b', y ∷ a, d'), (b'', z ∷ c, d'')) r m rest ln col (p, q, s) memory
        none_yet =
      let pn : Padded = (b, x ∷ n, d) in
      let pa : Padded = (b', y ∷ a, d') in
      let pc : Padded = (b'', z ∷ c, d'') in
      let k3 = suc r in
      let k2 = suc (padded_size pc k3) in
      let k1 = suc (padded_size pa k2) in
      let t3 = b';' ∷ rest in
      let t2 = b'>' ∷ padded pc t3 in
      let t1 = b':' ∷ padded pa t2 in
      let m1 = registered E m f (x ∷ n) in
      let m2 = with_from E m1 m.next (y ∷ a) in
      let (l1, s1, c1, e1) =
        loop-padded E sm_transition_start bl ps (some f) none m b (x ∷ n) d k1 t1 ln col
          (p.0, p.1.0, p.1.1, p.2) in
      let (l2, s2, c2, e2) =
        loop-padded E sm_transition_from bl ps (some f) (some m.next) m1 b' (y ∷ a) d' k2 t2 l1
          (u32 (c1 + 1)) (q.0, q.1.0, q.1.1, q.2) in
      let (l3, s3, c3, e3) =
        loop-padded E sm_transition_to bl ps (some f) (some m.next) m2 b'' (z ∷ c) d'' k3 t3 l2
          (u32 (c2 + 1)) (s.0, s.1.0, s.1.1, s.2) in
      (
        l3,
        u32 (c3 + 1),
        e1
            ∙ loop-colon E bl ps f (padded_size pa k2) m l1 s1 none (padded pa t2) c1 x n memory
                none_yet p.1.1
            ∙ e2
            ∙ loop-greater E bl ps f (padded_size pc k3) m1 l2 s2 m.next (padded pc t3) c2 y a q.1.1
            ∙ e3
            ∙ loop-semicolon E bl ps f r m2 l3 s3 m.next rest c3 z c s.1.1,
      )
