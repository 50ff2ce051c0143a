-- ===== src/Compiler/Parser/Listed.antt =====
-- The memory that estate_cc_parser_parse, src/bin/estate_cc_parser.c, leaves for the description of a machine.
use estate.Base.{
  IsIn, ℕ, ◌<◌, ◌≡◌, ◌⊎◌, inl, inr, refl, sym, subst, ap, ◌∙◌, none, some, List, [], ◌∷◌, Text,
  text_eq, text_eq_iff, text_eq_self, if◌then◌else◌, arith, Bool-cases, AreDistinct,
}
use estate.Eina.{Eina, EinaLaws}
use estate.Compiler.Check.Table.{HasRoom, find-put}
use estate.Compiler.Data.{Store, Transit, new_transit}
use estate.Compiler.Parser.{ok}
use estate.Compiler.Parser.Char.{parser_parse}
use estate.Compiler.Parser.Clauses.{Clause, described, all_described, clause_names}
use estate.Compiler.Parser.Rounds.{
  AreFree, described_transitions, named, named_transitions, new-AreFree, put-AreFree,
}
use estate.Compiler.Parser.Layout.{Description, IsDescription, description, title, content}
use estate.Compiler.Parser.Describe.{parsed, parser_parse-parsed}
use estate.Compiler.Parser.Token.{Loop}

-- A transition as it is described.
abbrev pub transit_of : Clause → Transit
transit_of (n, a, b) = record (new_transit n) { from = some a; to = some b }

module _ (E : Eina) (laws : EinaLaws E) (room : HasRoom E) where
  -- The table of transitions of the machine `f` has the transitions described by `P`, and no others.
  pub record IsListed (m : Store E.Hash) (f : ℕ) (P : Clause → Type 0) : Type 0 where
    pub found :
        (n a b : Text)
        → P (n, a, b)
        → (t : ℕ) × (E.find (m.fsms f).transitions n ≡ some t)
          × (m.transits t ≡ transit_of (n, a, b))
    pub only :
        (n : Text) (t : ℕ)
        → E.find (m.fsms f).transitions n ≡ some t
        → (a : Text) × (b : Text) × P (n, a, b) × (m.transits t ≡ transit_of (n, a, b))
    pub below : (n : Text) (t : ℕ) → E.find (m.fsms f).transitions n ≡ some t → t < m.next

  module _ (m : Store E.Hash) (f : ℕ) (n a b : Text) where
    described_new : (described E m f n a b).transits m.next ≡ transit_of (n, a, b)
    described_new = ground arith

    described_old : (t : ℕ) → t < m.next → (described E m f n a b).transits t ≡ m.transits t
    described_old t lt = ground arith

    described_find :
        (x : Text)
        → E.find (m.fsms f).transitions n ≡ none
        → E.find ((described E m f n a b).fsms f).transitions x
          ≡ (if text_eq n x then some m.next else E.find (m.fsms f).transitions x)
    described_find x e =
        ap (λ h. E.find h x) (described_transitions E laws room m f n a b)
        ∙ find-put E laws room (m.fsms f).transitions n x m.next e

    described-IsListed :
        (P : Clause → Type 0)
        → E.find (m.fsms f).transitions n ≡ none
        → IsListed m f P
        → IsListed (described E m f n a b) f (λ x. ((n, a, b) ≡ x) ⊎ P x)
    described-IsListed P e l = record {
      found = λ x c d h. elim h [
        | inl q ↦ (
          m.next,
          described_find x e ∙ ground (arith, ap (λ y. y.0) q, text_eq_self x),
          described_new ∙ ap transit_of q,
        )
        | inr p ↦
            let (t, at, is) = l.found x c d p in
            (
              t,
              described_find x e ∙ ground (arith, at, e, text_eq_iff n x),
              described_old t (l.below x t at) ∙ is,
            )
      ];
      only = λ x t h. elim (Bool-cases (text_eq n x)) [
        | inl q ↦
            let same : n ≡ x = (text_eq_iff n x).0 q in
            let at : m.next ≡ t = ground (arith, described_find x e, h, q) in
            (
              a,
              b,
              inl (ap (λ y. (y, a, b)) same),
              ap (described E m f n a b).transits (sym at)
                  ∙ described_new
                  ∙ ap (λ y. transit_of (y, a, b)) same,
            )
        | inr q ↦
            let at : E.find (m.fsms f).transitions x ≡ some t =
              ground (arith, described_find x e, h, q) in
            let (c, d, p, is) = l.only x t at in
            (c, d, inr p, described_old t (l.below x t at) ∙ is)
      ];
      below = λ x t h. elim (Bool-cases (text_eq n x)) [
        | inl q ↦ ground (arith, described_find x e, h, q)
        | inr q ↦
            let at : E.find (m.fsms f).transitions x ≡ some t =
              ground (arith, described_find x e, h, q) in
            let lt = l.below x t at in omega arith
      ];
    }

  IsListed-map :
      (m : Store E.Hash) (f : ℕ) (P Q : Clause → Type 0)
      → ((x : Clause) → P x → Q x)
      → ((x : Clause) → Q x → P x)
      → IsListed m f P
      → IsListed m f Q
  IsListed-map m f P Q to fro l = record {
    found = λ n a b q. l.found n a b (fro (n, a, b) q);
    only = λ n t e. let (a, b, p, is) = l.only n t e in (a, b, to (n, a, b) p, is);
    below = l.below;
  }

  all_described-IsListed :
      (cs : List Clause) (m : Store E.Hash) (f : ℕ) (P : Clause → Type 0)
      → AreDistinct (clause_names cs)
      → AreFree E laws room (m.fsms f).transitions (clause_names cs)
      → IsListed m f P
      → IsListed (all_described E m f cs) f (λ x. P x ⊎ IsIn x cs)
  all_described-IsListed [] m f P d free l =
      IsListed-map m f P (λ x. P x ⊎ IsIn x []) (λ x p. inl p)
        (λ x q. elim q [ inl p ↦ p | inr i ↦ elim i [ ] ]) l
  all_described-IsListed ((n, a, b) ∷ cs) m f P (d, ds) (e, free) l =
      let m1 = described E m f n a b in
      let next =
        subst (λ h. AreFree E laws room h (clause_names cs))
          (sym (described_transitions E laws room m f n a b))
          (put-AreFree E laws room (m.fsms f).transitions n m.next (clause_names cs) e d free) in
      let P1 : Clause → Type 0 = λ x. ((n, a, b) ≡ x) ⊎ P x in
      IsListed-map (all_described E m1 f cs) f (λ x. P1 x ⊎ IsIn x cs)
        (λ x. P x ⊎ IsIn x ((n, a, b) ∷ cs))
        (λ x q. elim q [ inl (inl r) ↦ inr (inl r) | inl (inr r) ↦ inl r | inr r ↦ inr (inr r) ])
        (λ x q. elim q [ inl r ↦ inl (inr r) | inr (inl r) ↦ inl (inl r) | inr (inr r) ↦ inr r ])
        (all_described-IsListed cs m1 f P1 ds next (described-IsListed m f n a b P e l))

  -- What the description of a transition leaves of a machine.
  abbrev Kept : Store E.Hash → Store E.Hash → ℕ → Type 0
  Kept m m' f =
      (m'.states ≡ m.states)
      × ((m'.fsms f).name ≡ (m.fsms f).name)
      × ((m'.fsms f).states ≡ (m.fsms f).states)
      × ((m'.fsms f).init ≡ (m.fsms f).init)

  described-Kept : (m : Store E.Hash) (f : ℕ) (n a b : Text) → Kept m (described E m f n a b) f
  described-Kept m f n a b = (refl, ground arith, ground arith, ground arith)

  all_described-Kept :
      (cs : List Clause) (m : Store E.Hash) (f : ℕ) → Kept m (all_described E m f cs) f
  all_described-Kept [] m f = (refl, refl, refl, refl)
  all_described-Kept ((n, a, b) ∷ cs) m f =
      let (p, q, r, s) = described-Kept m f n a b in
      let (p', q', r', s') = all_described-Kept cs (described E m f n a b) f in
      (p' ∙ p, q' ∙ q, r' ∙ r, s' ∙ s)

  -- The machine `f` is the one described.
  pub record IsMachine (m0 m : Store E.Hash) (f : ℕ) (name : Text) (cs : List Clause) : Type 0 where
    pub called : (m.fsms f).name ≡ name
    pub transitions : IsListed m f (λ x. IsIn x cs)
    pub no_states : (x : Text) → E.find (m.fsms f).states x ≡ none
    pub no_init : (m.fsms f).init ≡ none
    pub kept : m.states ≡ m0.states

  parsed-IsMachine :
      (h : E.Hash) (m : Store E.Hash) (d : Description) (ln col : ℕ)
      → E.hash_new ≡ some h
      → AreDistinct (clause_names (content d))
      → IsMachine m (parsed E laws room h m d ln col).store m.next (title d) (content d)
  parsed-IsMachine h m d ln col made distinct =
      let name = title d in
      let cs = content d in
      let m1 = named E laws room h m name in
      let f = m.next in
      let table = named_transitions E laws room h m name in
      let (same, p, q, r) = all_described-Kept cs m1 f in
      let empty : (x : Text) → E.find (m1.fsms f).transitions x ≡ none =
        λ x. ap (λ y. E.find y x) table ∙ laws.find_new h x made in
      let states : (m1.fsms f).states ≡ h = ground arith in
      let start : IsListed m1 f (λ x. ⊥) = record {
        found = λ n a b e. elim e [ ];
        only = λ n t e. let g = empty n in cc;
        below = λ n t e. let g = empty n in cc;
      } in
      let free =
        subst (λ x. AreFree E laws room x (clause_names cs)) (sym table)
          (new-AreFree E laws room h (clause_names cs) made) in
      record {
        called = p ∙ ground arith;
        transitions =
            IsListed-map (all_described E m1 f cs) f (λ x. ⊥ ⊎ IsIn x cs) (λ x. IsIn x cs)
              (λ x c. elim c [ inl e ↦ elim e [ ] | inr i ↦ i ]) (λ x i. inr i)
              (all_described-IsListed cs m1 f (λ x. ⊥) distinct free start);
        no_states = λ x. ap (λ y. E.find y x) (q ∙ states) ∙ laws.find_new h x made;
        no_init = r ∙ ground arith;
        kept = same;
      }

  -- For the text of a machine that is described by its transitions, with any blanks around its
  -- words (spaces, tabs, line feeds and carriage returns), where the names of the transitions are
  -- distinct, and each name starts with a letter or `_`, goes on with letters, `_` and digits and is
  -- at most 2047 characters long (the one of the machine may be empty), and where memory is found:
  -- the parser ends with one machine. It has the name, the transitions that are described and no others, each registered
  -- under its name with the two states, and no states and no initial state yet; the states of other
  -- machines are as they were.
  pub parser_parse-description :
      (h : E.Hash) (m : Store E.Hash) (d : Description)
      → E.hash_new ≡ some h
      → IsDescription d
      → (l : Loop E.Hash) × (f : ℕ) × (parser_parse E m (description d) ≡ ok l)
        × (l.p.parse ≡ f ∷ [])
        × IsMachine m l.store f (title d) (content d)
  parser_parse-description h m d made is =
      let (ln, col, e) = parser_parse-parsed E laws room h m d made is in
      (
        parsed E laws room h m d ln col,
        m.next,
        e,
        refl,
        parsed-IsMachine h m d ln col made is.distinct,
      )
