-- ===== src/Compiler/MainTests.antt =====
-- The driver run on a file, and its theorem applied.
use estate.Base.{ℕ, ◌≡◌, refl, true, false, none, some, List, [], ◌∷◌, Text, codes, text_eq}
use estate.Runtime.Outcome.{returns}
use estate.Compiler.Samples.{plain, blank, values, in_place}
use estate.Compiler.Check.{
  Cache, check_init, check_states, check_all, check_machine, foreach, state_deduction,
  init_deduction, settle_init, settle_found, named_state, pair_name, count_from, count_to,
  mark_pair,
}
use estate.Compiler.Data.{state_new}
use estate.Compiler.Parser.{char_next_get, block_enter, block_leave, leave}
use estate.Compiler.Parser.Token.{token}
use estate.Compiler.Parser.Char.{
  parser_parse, loop, body, char, char_slash, char_enter, char_colon, char_semicolon,
  anonymous_start, char_dash, char_greater, char_word, char_space, char_digit, char_at,
  finish_token, finish_block,
}
use estate.Compiler.Main.{
  eina, log_domain, parser_memory, block_array, acquire, release, complaint, gc_flag, output_flag,
  World, Exit, options, started, compile, read_file, main,
}
use estate.Compiler.Main.{Settings, defaults}
use estate.Base.{◌↔◌}
use estate.Compiler.Main.Status.{IsServed, main-status}
use estate.Compiler.Main.Released.Ways.{ChecksFile}

abbrev unset : Cache (List (Text × ℕ))
unset = record { hash = []; states = 0; ok = true; init = none; init_count = 0 }

-- A file with one machine, and the byte behind it.
abbrev input : Text
input = codes "h{transitions{model{leave:A>B;}}}\n"

abbrev world : World
world = record {
  eina_inits = true;
  log_registers = true;
  allocates = true;
  file = some input;
  mapped = true;
  writable = true;
}

input-ChecksFile : ChecksFile plain in_place values unset blank (some input)
unfolding parser_parse loop body char char_slash char_enter char_colon char_semicolon
    anonymous_start char_dash char_greater char_word char_space char_digit char_at finish_token
    finish_block token char_next_get block_enter block_leave leave text_eq check_states check_all
    check_machine check_init foreach state_deduction init_deduction settle_init settle_found
    named_state pair_name count_from count_to mark_pair state_new
input-ChecksFile = (_, refl)

-- Without a file, the program fails.
main-no_file :
    main plain in_place values (record world { file = none }) (gc_flag ∷ []) 1 unset blank
    ≡ returns (
      false,
      acquire eina
          ∷ acquire log_domain
          ∷ acquire parser_memory
          ∷ acquire block_array
          ∷ complaint
          ∷ release parser_memory
          ∷ release log_domain
          ∷ release eina
          ∷ [],
    )
unfolding main started options compile read_file
main-no_file = refl

abbrev asked : Settings
asked = record defaults { gc = true; output = some (codes "out.c") }

main-status_example :
    (r : Exit) × (main plain in_place values world
        (gc_flag ∷ output_flag (codes "out.c") ∷ [])
        1
        unset
        blank
      ≡ returns r)
    × ((r.0 ≡ true) ↔ IsServed plain in_place values [] refl (λ n. refl) world asked 1 blank)
unfolding options
main-status_example =
    main-status plain in_place values [] refl (λ n. refl) world
      (gc_flag ∷ output_flag (codes "out.c") ∷ []) asked 1 unset blank refl input-ChecksFile
