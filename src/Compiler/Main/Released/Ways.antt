-- ===== src/Compiler/Main/Released/Ways.antt =====
-- The ways through src/bin/estate_cc_main.c.
use estate.Base.{ℕ, ◌≡◌, Bool, Option, none, some, List, ◌∷◌, Text}
use estate.Eina.{Eina}
use estate.Runtime.Types.{ℤ}
use estate.Runtime.Outcome.{Outcome, returns}
use estate.Compiler.Data.{Store}
use estate.Compiler.Check.{Cache, check_states}
use estate.Compiler.Parser.{Parse, ok}
use estate.Compiler.Parser.Token.{Loop}
use estate.Compiler.Parser.Char.{parser_parse}
use estate.Compiler.Main.{machines, Resource, Exit}
use estate.Compiler.Main.Released.{pending, IsBalanced}

module _ (E : Eina) (qsort : (ℕ → ℕ → ℤ) → List ℕ → List ℕ) (each : E.Hash → List ℕ) where
  -- The program comes to its end, and what it does is balanced.
  abbrev Ends : Outcome Exit → Type 0
  Ends o = (r : Exit) × (o ≡ returns r) × IsBalanced r.1

  -- The program comes to its end, and releases the machines.
  abbrev Releases : Outcome Exit → Type 0
  Releases o =
      (r : Exit) × (o ≡ returns r)
      × ((held : List Resource) → pending (machines ∷ held) r.1 ≡ some held)

  -- The check comes to its end on what the parser makes.
  abbrev pub Checks : Cache E.Hash → Parse (Loop E.Hash) → Type 0
  Checks unset (ok l) =
      (r : Store E.Hash × Bool) × (check_states E each unset l.store l.p.parse ≡ returns r)
  Checks unset _ = Unit

  -- It does so for the file, if there is one.
  abbrev pub ChecksFile : Cache E.Hash → Store E.Hash → Option Text → Type 0
  ChecksFile unset m none = Unit
  ChecksFile unset m (some bytes) = Checks unset (parser_parse E m bytes)
