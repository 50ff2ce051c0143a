-- ===== src/Compiler/Compiled.antt =====
-- estate_cc from the text of a description on: estate_cc_parser_parse of src/bin/estate_cc_parser.c,
-- estate_cc_check_states of src/bin/estate_cc_check.c and estate_cc_out_gc of src/bin/estate_cc_out_gc.c.
pub mod Rooted
pub mod Table
pub mod Accepts
pub mod Carried
use estate.Base.{
  Bool-cases, ◌+◌, ◌*◌, AreDistinct, IsIn, All, length, length-AreDistinct, ℕ, zero, suc, ◌<◌, ◌^◌,
  ◌≡◌, ◌≢◌, ◌⊎◌, inl, inr, refl, sym, subst, ap, ◌∙◌, Bool, true, false, ◌||◌, Option, none, some,
  List, [], ◌∷◌, Text, text_eq, ◌==◌, leb, if◌then◌else◌, arith,
}
use mathlib.Core.List.{Perm}
use estate.Eina.{Eina, EinaLaws}
use estate.Runtime.Types.{ℤ}
use estate.Runtime.Mempool.{Sizes}
use estate.Runtime.Mempool.Layout.{IsSmall}
use estate.Runtime.Outcome.{returns, deref, ◌>>=◌}
use estate.Compiler.Data.{Store, Transit}
use estate.Compiler.Check.{Cache, check_machine, check_all, check_states}
use estate.Compiler.Check.Apart.{HasNoColon, AreNames}
use estate.Compiler.Check.Deduce.{pair, Joins}
use estate.Compiler.Check.Foreach.{Listed, IsForeach}
use estate.Compiler.Check.Machine.{update_self, check_machine-chosen}
use estate.Compiler.Check.Table.{Counted, HasRoom}
use estate.Compiler.OutGc.Exec.{Program}
use estate.Compiler.OutGc.Fill.{FitsKey}
use estate.Compiler.Parser.{Parse, ok}
use estate.Compiler.Parser.Char.{parser_parse, is_letter, is_digit}
use estate.Compiler.Parser.Clauses.{Clause, IsClause, IsWord, clause_names}
use estate.Compiler.Parser.Layout.{Description, IsDescription, description, title, content}
use estate.Compiler.Parser.Written.{IsWritten-IsClause}
use estate.Compiler.Parser.Listed.{transit_of, IsMachine, parser_parse-description}
use estate.Compiler.Parser.Token.{Loop}
use estate.Compiler.Parser.Words.{IsRest, IsWordChar}
use estate.Compiler.Compiled.Table.{IsShort, IsMachine-IsTaken}
use estate.Compiler.Compiled.Rooted.{IsUnambiguous, IsRooted}
use estate.Compiler.Compiled.Carried.{IsCarried, All-IsCarried}
use estate.Compiler.Compiled.Accepts.{IsTaken-AreDistinct, chosen-root}
use estate.Compiler.Accepted.{IsReady, Works, check_machine-Works}
use estate.Compiler.Accepted.Plan.{IsPlain, IsIn-length, transit_names, AreUsable}

module _ (E : Eina) (laws : EinaLaws E) (room : HasRoom E) (each : E.Hash → List ℕ)
    (every : IsForeach E each) where
  -- The check of a single machine.
  check_all_one :
      (k : Cache E.Hash) (m : Store E.Hash) (f : ℕ) (r : Store E.Hash × Cache E.Hash)
      → check_machine E each m k f ≡ returns r
      → check_all E each m k (f ∷ []) ≡ returns (r.0, r.1.ok)
  unfolding check_all
  check_all_one k m f r e =
      rw (e, check_all) (elim (Bool-cases r.1.ok) [ inl o ↦ rw o refl | inr o ↦ rw o refl ])

  check_states_one :
      (unset : Cache E.Hash) (h : E.Hash) (m : Store E.Hash) (f : ℕ)
      (r : Store E.Hash × Cache E.Hash)
      → E.hash_new ≡ some h
      → check_machine E each m (record unset { hash = h }) f ≡ returns r
      → check_states E each unset m (f ∷ []) ≡ returns (r.0, r.1.ok)
  unfolding check_states
  check_states_one unset h m f r made e =
      ap (λ o. deref o >>= λ x. check_all E each m (record unset { hash = x }) (f ∷ [])) made
      ∙ check_all_one (record unset { hash = h }) m f r e

  module _ (qsort : (ℕ → ℕ → ℤ) → List ℕ → List ℕ)
      (permutes : (c : ℕ → ℕ → ℤ) (xs : List ℕ) → Perm (qsort c xs) xs) (z : Sizes)
      (small : IsSmall z) (state_size : 0 < z.state) (transition_size : 0 < z.transition)
      (malloc : ℕ → Option ℕ) (room_left : (n : ℕ) → (base : ℕ) × (malloc n ≡ some base))
      (calloc : ℕ → Bool) (memory : (n : ℕ) → calloc n ≡ true) (function : Text → ℕ) where
    -- From the text of a machine to the machine at run time. The text describes the machine by its
    -- transitions, at least one and less than 2 ^ 31, with any blanks around its words. The names of
    -- the transitions are distinct; each name starts with a letter or `_`, goes on with letters, `_` and
    -- digits and is at most 2047 characters long (the one of the machine may be empty), and the two
    -- states of a transition have at most 2046 characters together. No two transitions join the same
    -- states, and `s` is the only state that a transition leaves and none leads to. No state in the
    -- memory has a table or keys that do not fit, eina_hash_foreach visits each element of a table
    -- once, memory is found at each allocation, and qsort permutes. Then the parser ends with one
    -- machine, the checker accepts it with the initial state `s`, and the code that is printed for it
    -- runs to its end with no fault and with no jump to its error label. It builds the machine,
    -- locked at `s`, with all the states and transitions that the checker leaves, as
    -- `check_machine-Works` says. Each transition that is described stands there, at the variable
    -- of its name, with its name and its two states, which stand at the variables of their names,
    -- and it is in the table of the state that it leaves.
    pub parser_parse-Works :
        (h : E.Hash) (m : Store E.Hash) (d : Description) (s : Text) (unset : Cache E.Hash)
        (p : Program E.Hash)
        → E.hash_new ≡ some h
        → IsDescription d
        → All IsShort (content d)
        → 0 < length (content d)
        → length (content d) < 2 ^ 31
        → IsUnambiguous (content d)
        → IsRooted (content d) s
        → ((a : ℕ) → IsPlain (m.states a))
        → (l : Loop E.Hash) × (f : ℕ) × (m' : Store E.Hash) × (parser_parse E m (description d)
            ≡ ok l)
          × (l.p.parse ≡ f ∷ [])
          × (check_states E each unset l.store l.p.parse ≡ returns (m', true))
          × ((m'.fsms f).init ≡ some s)
          × (w : Works E each laws room every qsort permutes z small state_size transition_size
              malloc room_left calloc memory function m' f p)
          × All (IsCarried w.1 w.2) (content d)
    parser_parse-Works h m d s unset p made written short some_cs few single rooted plain =
        let name = title d in
        let cs = content d in
        let (l, f, parses, one, is) = parser_parse-description E laws room h m d made written in
        let k = record unset { hash = h } in
        let (ps, taken) =
          IsMachine-IsTaken E laws room each every m l.store f name cs
            (IsWritten-IsClause d.clauses written.clauses) short some_cs few plain is in
        let ready = taken.ready in
        let (m1, r, checks, good, deduces, accepted) =
          check_machine-chosen E laws room each every l.store k f ps made ready.counted ready.joins
            ready.no_colons taken.size in
        let apart = IsTaken-AreDistinct E laws room each every l.store f cs ps single taken in
        let choice =
          chosen-root E laws room each every m l.store m1 f name cs ps s is taken written.distinct
            rooted (deduces apart) in
        let ok_r : r.1.ok ≡ true = good.1 (apart, ap (λ x. x.1) choice) in
        let works =
          check_machine-Works E each laws room every qsort permutes z small state_size
            transition_size malloc room_left calloc memory function l.store k f ps p r made ready
            taken.size checks ok_r in
        let left = (accepted ok_r).1 in
        (
          l,
          f,
          r.0,
          parses,
          one,
          ap (check_states E each unset l.store) one
              ∙ check_states_one unset h l.store f r made checks
              ∙ ap (λ x. returns (r.0, x)) ok_r,
          (accepted ok_r).0 ∙ ap (λ x. x.0) choice,
          works,
          All-IsCarried E laws room each every qsort permutes function m l.store m1 r.0 f name cs ps
              works.0 is taken written.distinct (deduces apart) (some s) works.1 works.2
              (ap (λ x. x.states) left) (ap (λ x. x.transits) left)
              (ap (λ x. x.fsms f) left
                ∙ update_self m1.fsms f _
                ∙ ap (λ x. record (m1.fsms f) { init = x.0 }) choice)
              works.5,
        )
