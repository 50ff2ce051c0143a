-- ===== src/Compiler/GcTests.antt =====
-- The code generator on a machine of two states and two transitions: its theorems applied, and
-- what it prints.
use estate.Compiler.Free.{
  parse_free, fsm_free, transits_free, transit_free, states_free, state_free, keys_free,
}
use estate.Compiler.Free.Held.{strings, inits, machines_strings, parse_free-machines_strings}
use estate.Base.{
  count, ◌+◌, ℕ, ◌≡◌, refl, true, none, some, List, [], ◌∷◌, Text, codes, length, text_eq, ◌==◌,
  if◌then◌else◌, inl, inr, arith,
}
use mathlib.Core.List.Perm
use mathlib.Core.List.{Perm}
use estate.Runtime.Types.{Machine}
use estate.Runtime.Mempool.{Sizes}
use estate.Runtime.Mempool.Layout.{IsSmall}
use estate.Runtime.Outcome.{returns}
use estate.Compiler.Data.{Store, new_state, new_transit}
use estate.Compiler.Samples.{table, blank, values, in_place}
use estate.Base.{◌++◌}
use estate.Compiler.OutGc.{
  prologue, end_prototypes, begin, states_declare, transitions_declare, blank as blank_line,
}
use estate.Compiler.OutGi.{load_text, machine_gi}
use estate.Compiler.OutGi.Functions.{declarations, definitions, functions, machine_gi-prologue}
use estate.Compiler.OutGc.Print.{array, elements, format, statement_text, stringize_data}
use estate.Compiler.Parser.Char.{decimal}
use estate.Base.{replicate}
use estate.Compiler.OutGc.{
  new_machine, new_state as new_state_text, machine_text, states_alloc, from_cache, from_cache_all,
}
use estate.Compiler.OutGc.Exec.{Program, run}
use estate.Compiler.OutGc.Builds.{IsPlan}
use estate.Compiler.OutGc.Mirror.{Mirrors}
use estate.Compiler.OutGc.Plan.Tables.{Tables}
use estate.Compiler.OutGc.Plan.{state_plans, transition_plans}
use estate.Compiler.OutGc.Machine.{IsPrintable, machine_text-Builds}

-- The door: open and shut.
abbrev door : Store (List (Text × ℕ))
door = record blank {
  fsms = λ p. record {
    name = codes "door";
    transitions = (codes "close", 8) ∷ (codes "open", 9) ∷ [];
    states = (codes "OPEN", 5) ∷ (codes "SHUT", 6) ∷ [];
    data_keys = [];
    init = some (codes "SHUT");
  };
  states = λ p. record (new_state (if p == 5 then codes "OPEN" else codes "SHUT")) {
    enterer = record { func = some (codes "ring"); value = none };
  };
  transits = λ p.
      if p == 8
      then record (new_transit (codes "close")) {
        from = some (codes "OPEN");
        to = some (codes "SHUT");
      }
      else record (new_transit (codes "open")) {
        from = some (codes "SHUT");
        to = some (codes "OPEN");
      };
  next = 10;
}

abbrev pub sizes : Sizes
sizes = record { mempool = 40; machine = 112; state = 96; transition = 128 }

abbrev pub no_program : Program table.Hash
no_program = record { states = λ n. none; transits = λ n. none; fsm = none }

pub sizes-IsSmall : IsSmall sizes
sizes-IsSmall = record {
  headers = omega arith;
  state_size = omega arith;
  transition_size = omega arith;
}

abbrev tabled : Store (List (Text × ℕ))
tabled = (states_alloc table in_place values door (8 ∷ 9 ∷ []) (5 ∷ 6 ∷ [])).0

trs-tabled : (tabled.states 5).trs ≡ 8 ∷ []
unfolding states_alloc from_cache_all from_cache text_eq
trs-tabled = refl

door-IsPrintable : IsPrintable table in_place values (λ c xs. Perm.refl xs) door 1 (codes "SHUT")
door-IsPrintable = record {
  starts = refl;
  separate = ((ground arith, tt), (tt, tt));
  untabled = (refl, (refl, tt));
  ends = ((codes "OPEN", codes "SHUT", refl, refl), ((codes "SHUT", codes "OPEN", refl, refl), tt));
}

abbrev door_printed : Store (List (Text × ℕ))
door_printed = (machine_text table in_place values door 1).0

door-IsPlan :
    IsPlan sizes table
      (λ n. some 4096)
      (λ n. true)
      length
      (codes "SHUT")
      (state_plans door_printed (5 ∷ 6 ∷ []))
      (transition_plans door_printed (8 ∷ 9 ∷ []))
unfolding machine_text states_alloc from_cache_all from_cache text_eq
door-IsPlan = record {
  states_named = ((ground arith, tt), (tt, tt));
  transitions_named = ((ground arith, tt), (tt, tt));
  starts = inr (inl refl);
  ends = ((inl refl, inr (inl refl)), ((inr (inl refl), inl refl), tt));
  states_fit = ((tt, tt), ((tt, tt), tt));
  transitions_fit = ((tt, tt, refl), ((tt, tt, refl), tt));
  some_states = omega arith;
  some_transitions = omega arith;
  few_states = omega arith;
  few_transitions = omega arith;
}

machine_text-Builds_example :
    (q : Program table.Hash) × (built : Machine table.Hash) × (run sizes table
        (λ n. some 4096)
        (λ n. true)
        length
        no_program
        (machine_text table in_place values door 1).1
      ≡ returns (some q))
    × Mirrors table in_place values (λ c xs. Perm.refl xs) length door 1 (codes "SHUT") q built
machine_text-Builds_example =
    machine_text-Builds table in_place values (λ c xs. Perm.refl xs) sizes sizes-IsSmall
      (omega arith) (omega arith) [] refl (λ n. some 4096) (λ n. true) (λ n. refl) length door 1
      (codes "SHUT") no_program 4096 door-IsPrintable door-IsPlan refl

text-new_state :
    statement_text (new_state_text (codes "a") 2)
    ≡ codes
        "   s_a = estate_state_new(fsm, 2);\n   if (EINA_UNLIKELY(s_a == NULL)) goto fsm_fail;\n"
unfolding statement_text format decimal
text-new_state = refl

text-new_machine : statement_text (new_machine 2 3) ≡ codes "   fsm = estate_machine_new(2, 3);\n"
unfolding statement_text format decimal
text-new_machine = refl

-- A key of 130 characters: only 127 bytes are written, and the closing quote is lost.
abbrev long_key : Text
long_key = replicate 130 b'k'

stringize_data-long_key : stringize_data (some long_key) ≡ (b'"' ∷ replicate 126 b'k', 130)
unfolding stringize_data format
stringize_data-long_key = refl

array-two :
    array (codes "a" ∷ codes "b" ∷ [])
    ≡ codes
        "        const Estate_Transition *trs[] = {\n           t_a,\n           t_b\n        };\n        const unsigned int trs_count = EINA_C_ARRAY_LENGTH(trs);\n"
unfolding array elements format
array-two = refl

machine_gi-prologue_example :
    (machine_gi table values door 1
      ≡ load_text (codes "door") ++ definitions (functions door (5 ∷ 6 ∷ []) (8 ∷ 9 ∷ [])))
    × (prologue table in_place values door (codes "door") (5 ∷ 6 ∷ []) (8 ∷ 9 ∷ [])
        ≡ declarations (functions door (5 ∷ 6 ∷ []) (8 ∷ 9 ∷ []))
          ++ end_prototypes
            ∷ begin (codes "door")
            ∷ (states_declare door (5 ∷ 6 ∷ [])
                ++ (transitions_declare door (8 ∷ 9 ∷ []) ++ blank_line ∷ [])))
machine_gi-prologue_example = machine_gi-prologue table in_place values door 1

parse_free-machines_strings_example :
    count (codes "SHUT") (strings (parse_free door values (1 ∷ [])))
      + count (codes "SHUT") (inits door values (1 ∷ []))
    ≡ count (codes "SHUT") (machines_strings door values (1 ∷ []))
parse_free-machines_strings_example =
    parse_free-machines_strings door values (codes "SHUT") (1 ∷ [])
      (((refl, refl), ((refl, refl), tt)), tt)

-- Of the four uses of the name one is kept, that of the initial state.
count-shut :
    (count (codes "SHUT") (strings (parse_free door values (1 ∷ []))) ≡ 3)
    × (count (codes "SHUT") (machines_strings door values (1 ∷ [])) ≡ 4)
unfolding parse_free fsm_free transits_free transit_free states_free state_free keys_free text_eq
count-shut = (refl, refl)
