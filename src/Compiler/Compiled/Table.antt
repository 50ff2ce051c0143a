-- ===== src/Compiler/Compiled/Table.antt =====
-- What estate_cc_parser_parse, src/bin/estate_cc_parser.c, leaves for a description is what
-- estate_cc_check_states, src/bin/estate_cc_check.c, works on.
use estate.Base.{
  ◌+◌, ◌*◌, AreDistinct, IsIn, All, length, length-AreDistinct, ℕ, suc, ◌<◌, ◌^◌, ◌≡◌, inl, inr,
  refl, sym, subst, ap, ◌∙◌, Bool, true, false, none, some, List, [], ◌∷◌, Text, arith,
}
use estate.Eina.{Eina, EinaLaws}
use estate.Compiler.Data.{Store, Transit}
use estate.Compiler.Check.Apart.{HasNoColon, AreNames}
use estate.Compiler.Check.Deduce.{pair, Joins}
use estate.Compiler.Check.Foreach.{Listed, IsForeach}
use estate.Compiler.Check.Table.{HasRoom}
use estate.Compiler.OutGc.Fill.{FitsKey}
use estate.Compiler.Parser.Clauses.{Clause, IsClause, IsWord, clause_names}
use estate.Compiler.Parser.Listed.{transit_of, IsMachine}
use estate.Compiler.Parser.Words.{IsRest}
use estate.Compiler.Compiled.Rooted.{Rows}
use estate.Compiler.Accepted.{IsReady}
use estate.Compiler.Accepted.Plan.{IsPlain, IsIn-length, transit_names}

pub All-IsIn {κ} : {A : Type 0} (P : A → Type κ) (xs : List A) (a : A) → All P xs → IsIn a xs → P a
All-IsIn P [] a h i = elim i [ ]
All-IsIn P (x ∷ xs) a (p, h) (inl e) = subst P e p
All-IsIn P (x ∷ xs) a (p, h) (inr i) = All-IsIn P xs a h i

IsIn-names : (n a b : Text) (cs : List Clause) → IsIn (n, a, b) cs → IsIn n (clause_names cs)
IsIn-names n a b [] i = elim i [ ]
IsIn-names n a b (c ∷ cs) (inl e) = inl (ap (λ x. x.0) e)
IsIn-names n a b (c ∷ cs) (inr i) = inr (IsIn-names n a b cs i)

length-clause_names : (cs : List Clause) → length (clause_names cs) ≡ length cs
length-clause_names [] = refl
length-clause_names (c ∷ cs) = ap suc (length-clause_names cs)

-- No character of a word is a colon.
IsRest-HasNoColon : (first : Bool) (w : Text) → IsRest first w → HasNoColon w
IsRest-HasNoColon first [] r = tt
IsRest-HasNoColon first (c ∷ w) (x, r) = (λ e. ground (arith, x, e), IsRest-HasNoColon false w r)

IsWord-HasNoColon : (w : Text) → IsWord w → HasNoColon w
IsWord-HasNoColon [] r = elim r [ ]
IsWord-HasNoColon (c ∷ w) r = IsRest-HasNoColon true (c ∷ w) r.0

-- The text of the two states of a transition fits the buffer of the checker.
abbrev pub IsShort : Clause → Type 0
IsShort (n, a, b) = length (pair (a, b)) < 2048

first :
    (cs : List Clause) → 0 < length cs → (n : Text) × (a : Text) × (b : Text) × IsIn (n, a, b) cs
first [] lt = absurd (omega arith)
first ((n, a, b) ∷ cs) lt = (n, a, b, inl refl)

-- What the checker wants of the transitions `vs` with the names `ks`, which join `ps`.
pub record IsTable (cs : List Clause) (tr : ℕ → Transit) (ks : List Text) (vs : List ℕ)
    (ps : List (Text × Text)) : Type 0 where
  pub joins : Joins tr vs ps
  pub rows : Rows cs ks ps
  pub called : transit_names tr vs ≡ ks
  pub no_colons : AreNames ps
  pub sized : length ps ≡ length ks
  pub usable :
      All
        (λ t. FitsKey (tr t).cb.value × FitsKey (tr t).enterer.value × ((tr t).exiter.value ≡ none))
        vs

module _ (E : Eina) (tr : ℕ → Transit) (h : E.Hash) (cs : List Clause) (words : All IsClause cs)
    (short : All IsShort cs)
    (only : (n : Text) (t : ℕ)
      → E.find h n ≡ some t
      → (a : Text) × (b : Text) × IsIn (n, a, b) cs × (tr t ≡ transit_of (n, a, b))) where
  Listed-IsTable :
      (ks : List Text) (vs : List ℕ)
      → Listed E h ks vs
      → (ps : List (Text × Text)) × IsTable cs tr ks vs ps
  Listed-IsTable [] [] l = (
    [],
    record { joins = tt; rows = tt; called = refl; no_colons = tt; sized = refl; usable = tt },
  )
  Listed-IsTable [] (v ∷ vs) l = elim l [ ]
  Listed-IsTable (k ∷ ks) [] l = elim l [ ]
  Listed-IsTable (k ∷ ks) (v ∷ vs) (e, l) =
      let (ps, r) = Listed-IsTable ks vs l in
      let (a, b, i, is) = only k v e in
      let (_, wa, wb) = All-IsIn IsClause cs (k, a, b) words i in
      (
        (a, b) ∷ ps,
        record {
          joins = (
            ap (λ x. x.from) is,
            ap (λ x. x.to) is,
            All-IsIn IsShort cs (k, a, b) short i,
            r.joins,
          );
          rows = (i, r.rows);
          called = ap (λ x. x.name ∷ transit_names tr vs) is ∙ ap (◌∷◌ k) r.called;
          no_colons = ((IsWord-HasNoColon a wa, IsWord-HasNoColon b wb), r.no_colons);
          sized = ap suc r.sized;
          usable = (
            subst (λ x. FitsKey x.cb.value × FitsKey x.enterer.value × (x.exiter.value ≡ none))
                (sym is) (tt, tt, refl),
            r.usable,
          );
        },
      )

  -- The names in the table are names of transitions.
  Listed-names :
      (ks : List Text) (vs : List ℕ) → Listed E h ks vs → All (λ k. IsIn k (clause_names cs)) ks
  Listed-names [] vs l = tt
  Listed-names (k ∷ ks) [] l = elim l [ ]
  Listed-names (k ∷ ks) (v ∷ vs) (e, l) =
      let (a, b, i, _) = only k v e in (IsIn-names k a b cs i, Listed-names ks vs l)

Listed-empty :
    (E : Eina) (h : E.Hash) (ks : List Text) (vs : List ℕ)
    → ((x : Text) → E.find h x ≡ none)
    → Listed E h ks vs
    → length vs ≡ 0
Listed-empty E h [] [] e l = refl
Listed-empty E h [] (v ∷ vs) e l = elim l [ ]
Listed-empty E h (k ∷ ks) [] e l = elim l [ ]
Listed-empty E h (k ∷ ks) (v ∷ vs) e l = let q = e k in let r = l.0 in cc

module _ (E : Eina) (laws : EinaLaws E) (room : HasRoom E) (each : E.Hash → List ℕ)
    (every : IsForeach E each) where
  -- The machine `f` with the transitions `cs` is as the checker wants it, and `ps` are their ends in
  -- the order of the table.
  pub record IsTaken (m : Store E.Hash) (f : ℕ) (cs : List Clause) (ps : List (Text × Text))
      : Type 0 where
    pub ready : IsReady E each m f ps
    pub size : length (each (m.fsms f).states) + 2 * length ps < 2 ^ 32
    pub rows : Rows cs (every.keys (m.fsms f).transitions) ps
    pub keyed : (n a b : Text) → IsIn (n, a, b) cs → IsIn n (every.keys (m.fsms f).transitions)

  -- A machine that has just been parsed is as the checker wants it.
  pub IsMachine-IsTaken :
      (m0 m : Store E.Hash) (f : ℕ) (name : Text) (cs : List Clause)
      → All IsClause cs
      → All IsShort cs
      → 0 < length cs
      → length cs < 2 ^ 31
      → ((p : ℕ) → IsPlain (m0.states p))
      → IsMachine E laws room m0 m f name cs
      → (ps : List (Text × Text)) × IsTaken m f cs ps
  IsMachine-IsTaken m0 m f name cs words short some_cs few plain is =
      let h = (m.fsms f).transitions in
      let ks = every.keys h in
      let vs = each h in
      let l = every.visits h in
      let only = is.transitions.only in
      let (ps, t) = Listed-IsTable E m.transits h cs words short only ks vs l in
      let (n, a, b, i) = first cs some_cs in
      let (v, at, _) = is.transitions.found n a b i in
      let most =
        length-AreDistinct ks (clause_names cs) (every.once h)
          (Listed-names E m.transits h cs words short only ks vs l) in
      let empty =
        Listed-empty E (m.fsms f).states (every.keys (m.fsms f).states) (each (m.fsms f).states)
          is.no_states (every.visits (m.fsms f).states) in
      (
        ps,
        record {
          ready = record {
            counted = record {
              named = λ n s e. let q = is.no_states n in cc;
              below = λ n s e. let q = is.no_states n in cc;
              counts = λ n s e. let q = is.no_states n in cc;
              absent = λ n e. refl;
            };
            plain = λ p. subst (λ x. IsPlain (x p)) (sym is.kept) (plain p);
            joins = t.joins;
            usable = (subst AreDistinct (sym t.called) (every.once h), t.usable);
            no_colons = t.no_colons;
            starts = λ i e. let q = is.no_init in cc;
            some_transitions = omega (arith, IsIn-length n ks (every.covers h n v at), t.sized);
          };
          size = omega (arith, empty, most, t.sized, length-clause_names cs);
          rows = t.rows;
          keyed = λ x c d j. let (w, e, _) = is.transitions.found x c d j in every.covers h x w e;
        },
      )
