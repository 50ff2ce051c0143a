-- ===== src/Compiler/AcceptedTests.antt =====
-- The compiler from end to end, on a machine of one transition and on a text.
use estate.Base.{◌≡◌, refl, true, some, length, arith}
use mathlib.Core.List.Perm
use estate.Runtime.Outcome.{Outcome, returns}
use estate.Compiler.Check.{Cache, check_machine}
use estate.Compiler.Checks.{start_store, no_cache}
use estate.Compiler.Data.{Store}
use estate.Compiler.GcTests.{sizes, sizes-IsSmall, no_program}
use estate.Compiler.Samples.{blank, table, in_place}
use estate.Compiler.Samples.Foreach.{table_laws, table_room, walk, walk-IsForeach}
use estate.Compiler.Compiled.Rooted.{IsUnambiguous, IsRooted}
use estate.Compiler.Compiled.Carried.{IsCarried}
use estate.Compiler.Compiled.{parser_parse-Works}
use estate.Compiler.Parser.{ok}
use estate.Compiler.Parser.Char.{parser_parse}
use estate.Compiler.Parser.Layout.{Description, IsDescription, description, title, content}
use estate.Compiler.Parser.Describe.{parser_parse-layout}
use estate.Compiler.Parser.Listed.{IsMachine, parser_parse-description}
use estate.Compiler.Parser.Token.{Loop}
use estate.Compiler.Check.{check_states}
use estate.Base.{All, inl, ◌++◌, codes, ℕ, ◌∷◌, []}
use estate.Compiler.Accepted.{Works}

-- What the check of the machine returns.
abbrev checked : Outcome (Store table.Hash × Cache table.Hash) → Store table.Hash × Cache table.Hash
checked (returns r) = r
checked _ = (start_store, no_cache)

abbrev accepted : Store table.Hash × Cache table.Hash
accepted = checked (check_machine table walk start_store no_cache 1)

-- A machine with two transitions, in a layout with blanks.
abbrev trip : Description
trip = record {
  name = (codes "\n", codes "trip", codes " ");
  outer = (codes "\n\t", []);
  inner = (codes " ", codes "\r\n");
  clauses =
      (([], codes "go", codes " "), (codes " ", codes "A", []), (codes " ", codes "B", []))
      ∷ ((codes "\n", codes "end", []), ([], codes "B", codes "\t"), ([], codes "C_2", codes " "))
      ∷ [];
  last = (codes "\n", [], codes " ", codes "\n");
}

text-trip :
    description trip
    ≡ codes "\ntrip {\n\ttransitions{ model\r\n{go : A> B;\nend:B\t>C_2 ;\n}} }\n" ++ 0 ∷ []
text-trip = refl

trip-IsDescription : IsDescription trip
trip-IsDescription = record {
  name = ((refl, tt), (refl, (refl, (refl, (refl, tt)))), omega arith, (refl, tt));
  outer = ((refl, (refl, tt)), tt);
  inner = ((refl, tt), (refl, (refl, tt)));
  clauses = (
    (
      (tt, ((refl, (refl, tt)), omega arith), (refl, tt)),
      ((refl, tt), ((refl, tt), omega arith), tt),
      ((refl, tt), ((refl, tt), omega arith), tt),
    ),
    (
      (
        ((refl, tt), ((refl, (refl, (refl, tt))), omega arith), tt),
        (tt, ((refl, tt), omega arith), (refl, tt)),
        (tt, ((refl, (refl, (refl, tt))), omega arith), (refl, tt)),
      ),
      tt,
    ),
  );
  last = ((refl, tt), tt, (refl, tt), (refl, tt));
  distinct = ((ground arith, tt), (tt, tt));
}

parser_parse-description_example :
    (l : Loop table.Hash) × (f : ℕ) × (parser_parse table blank (description trip) ≡ ok l)
    × (l.p.parse ≡ f ∷ [])
    × IsMachine table table_laws table_room blank l.store f (title trip) (content trip)
parser_parse-description_example =
    parser_parse-description table table_laws table_room [] blank trip refl trip-IsDescription

-- The same machine without blanks.
abbrev dense : Description
dense = record {
  name = ([], codes "trip", []);
  outer = ([], []);
  inner = ([], []);
  clauses =
      (([], codes "go", []), ([], codes "A", []), ([], codes "B", []))
      ∷ (([], codes "end", []), ([], codes "B", []), ([], codes "C_2", []))
      ∷ [];
  last = ([], [], [], []);
}

text-dense : description dense ≡ codes "trip{transitions{model{go:A>B;end:B>C_2;}}}" ++ 0 ∷ []
text-dense = refl

dense-IsDescription : IsDescription dense
dense-IsDescription = record {
  name = (tt, (refl, (refl, (refl, (refl, tt)))), omega arith, tt);
  outer = (tt, tt);
  inner = (tt, tt);
  clauses = (
    (
      (tt, ((refl, (refl, tt)), omega arith), tt),
      (tt, ((refl, tt), omega arith), tt),
      (tt, ((refl, tt), omega arith), tt),
    ),
    (
      (
        (tt, ((refl, (refl, (refl, tt))), omega arith), tt),
        (tt, ((refl, tt), omega arith), tt),
        (tt, ((refl, (refl, (refl, tt))), omega arith), tt),
      ),
      tt,
    ),
  );
  last = (tt, tt, tt, tt);
  distinct = ((ground arith, tt), (tt, tt));
}

parser_parse-layout_example :
    (l : Loop table.Hash) × (l' : Loop table.Hash) × (parser_parse table blank (description trip)
      ≡ ok l)
    × (parser_parse table blank (description dense) ≡ ok l')
    × (l.p.parse ≡ l'.p.parse)
    × (l.store ≡ l'.store)
parser_parse-layout_example =
    parser_parse-layout table table_laws table_room [] blank trip dense refl trip-IsDescription
      dense-IsDescription refl refl

trip-IsUnambiguous : IsUnambiguous (content trip)
trip-IsUnambiguous n k a b i j = ground (arith, i, j)

trip-IsRooted : IsRooted (content trip) (codes "A")
trip-IsRooted = record {
  leaves = (codes "go", codes "B", inl refl);
  unentered = λ n a i. ground (arith, i);
  entered = λ n a b i d. (codes "go", codes "A", ground (arith, i, d));
}

parser_parse-Works_example :
    (l : Loop table.Hash) × (f : ℕ) × (m' : Store table.Hash) × (parser_parse table blank
        (description trip)
      ≡ ok l)
    × (l.p.parse ≡ f ∷ [])
    × (check_states table walk no_cache l.store l.p.parse ≡ returns (m', true))
    × ((m'.fsms f).init ≡ some (codes "A"))
    × (w : Works table walk table_laws table_room walk-IsForeach in_place
        (λ c xs. Perm.refl xs)
        sizes
        sizes-IsSmall
        (omega arith)
        (omega arith)
        (λ n. some 4096)
        (λ n. (4096, refl))
        (λ n. true)
        (λ n. refl)
        length
        m'
        f
        no_program)
    × All (IsCarried w.1 w.2) (content trip)
parser_parse-Works_example =
    parser_parse-Works table table_laws table_room walk walk-IsForeach in_place
      (λ c xs. Perm.refl xs) sizes sizes-IsSmall (omega arith) (omega arith) (λ n. some 4096)
      (λ n. (4096, refl)) (λ n. true) (λ n. refl) length [] blank trip (codes "A") no_cache
      no_program refl trip-IsDescription (ground arith, (ground arith, tt)) (ground arith)
      (ground arith) trip-IsUnambiguous trip-IsRooted (λ a. (refl, tt, tt))
