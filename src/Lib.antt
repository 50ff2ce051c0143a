-- ===== src/Lib.antt =====
-- Estate is a C library for finite state machines (lib) with a compiler (bin, estate_cc) that
-- turns descriptions of machines into C code that builds them with the library.
--
-- The library, src/lib: a machine is one allocation with room for its states and transitions. It is
-- built unlocked, locked at an initial state, and then driven by names of transitions; callbacks
-- run on the way, and may ask for further transitions, which wait until the present one is done.
--
--   Base                 shared names, Boolean tests, lists, C strings as lists of bytes
--   Eina                 hash tables and shared strings of the Eina library, as a parameter
--   Runtime.Mempool      src/lib/estate_mempool.c; Layout: its slots
--   Runtime.Types        the structures of src/lib/estate_private.h and src/lib/Estate.h
--   Runtime.Outcome      a value, the use of an invalid pointer, or no fuel left
--   Runtime.Search       _compare_cb and bsearch; Loop, Complete: against a linear search; Sort:
--                        estate_state_sort_transitions_cb
--   Runtime.Build        src/lib/estate_machine.c up to estate_machine_lock, estate_state_new,
--                        estate_transition_new; Counts: when a machine gets locked
--   Runtime.Init         estate_state_init, estate_transition_init and their deinit functions;
--                        Sharing: the shared strings that they take and release
--   Runtime.Callback     src/lib/estate_misc.c; Frame: what a callback cannot change
--   Runtime.Transition   estate_machine_transition_do, in the pieces transition_enter (the guards),
--                        attempt, settle, jump, cross and drain; Cross: one transition; Cases: how a
--                        call went; Walk: against the abstract machine; Order: the callbacks; Total:
--                        that it ends; Decides: what it does for a name; Reach: the states
--                        that a sequence of names leads to
--   Runtime.Start        src/lib/estate_main.c
--   Runtime.Free         estate_machine_free and what it calls
--   Runtime.Tests, Runtime.Checks   theorems at concrete machines, and runs
--
-- The compiler, src/bin: a parser reads a description, character by character, into machines, their
-- states and transitions; the checker and the code generators work on these.
--
--   Compiler.Data        the structures of src/bin/estate_cc.h, the constructors of
--                        src/bin/estate_cc_misc.c
--   Compiler.Free        the functions that release them; Held: the shared strings that they release
--   Compiler.Parser      src/bin/estate_cc_parser.c: its state, _char_next_get, and the blocks; Token:
--                        the switch on the state; Char: the switch on the character, and the loop;
--                        Ready, Steps, Safe: that no pointer is NULL and no buffer overrun; Blocks: the
--                        block stack; Lines: the positions and comments; Words, Padded,
--                        Clauses, Written, Rounds, Layout, Describe, Listed: the parse of a
--                        description that consists of transitions, in any layout of blanks
--   Compiler.Check       src/bin/estate_cc_check.c, which adds the states that transitions name and
--                        settles the initial state; Table: the states while it works on them;
--                        Deduce, Found, Apart: its pass over the transitions; Sources: the choice of the
--                        initial state; Foreach, Size: the walk over the states, and how many they
--                        are; Machine: all together
--   Compiler.OutGc       src/bin/estate_cc_out_gc.c: what it prints for a machine, as a list of
--                        statements; Print: their text; Exec: what they do when they run, on the model
--                        of the library; Alloc, Fill, Link: the allocations, the states and the
--                        transitions in such a run; Builds: the whole run for a plan of a machine;
--                        Plan: the plan of a machine of the compiler; Mirror: what is built against
--                        the compiler's machine; Machine: all together
--   Compiler.Accepted    from the checker to the generated code; Plan, Separate: an accepted machine
--                        is what the generator wants
--   Compiler.Compiled    from the text of a description to the generated code; Rooted: descriptions
--                        that the checker accepts; Table, Accepts: the parsed machine as it is checked;
--                        Carried: its transitions in the machine that is built
--   Compiler.OutGi       src/bin/estate_cc_out_gi.c; Functions: against the generated code
--   Compiler.Main        src/bin/estate_cc_main.c with src/bin/estate_cc_log.c,
--                        src/bin/estate_cc_data.c, src/bin/estate_cc_out_pgf_tikz.c and
--                        estate_cc_parser_file_set and estate_cc_parser_file_unset; Released: what
--                        it holds on its ways; Status: how it ends
--   Compiler.Samples, Compiler.Tests, Compiler.Checks, Compiler.GcTests,
--   Compiler.AcceptedTests, Compiler.MainTests
--                        data, theorems at descriptions and machines, and runs
--
-- The parser runs on the bytes of the file and the one behind them, which the code reads too. Its loop
-- takes fuel, one more than the number of bytes, which is enough since each round reads one.
--
-- qsort and the order in which eina_hash_foreach visits a table are parameters of the generators. A
-- run of the generated code starts from its variables, which a program holds by their names; the
-- functions of the user stand for the names in the description. The sort of the table of a state by
-- addresses of the compiler says nothing on the addresses at run time, so the theorems on
-- transitions do not use it. main
-- takes the options as getopt_long returns them, and what the other libraries answer (`World`).
--
-- A pointer is its address, NULL is `none`. States, transitions and callback wrappers stand in
-- memory that the machine carries as functions from addresses, so an operation returns the new
-- machine. User functions are a parameter (`User`): a callback sees the machine and a world of the
-- user's own, and gives its result, the new world and the list of its calls on the machine, which
-- the model carries out in order while `in_cb` is set. malloc, calloc and Eina are parameters, and
-- what is known of Eina is in `EinaLaws`. That a new element of a hash table and an object of the
-- compiler find memory is a hypothesis, `HasRoom`; the constructors of the compiler do not look at what
-- calloc gives, and fault where it is NULL. A callback may also lock the machine at any state
-- (`calls_machine_lock`), so the theorems on transitions are for callbacks that do not
-- (`LocksNothing`). A call of an error callback changes only the user's world.
--
-- The recursion of estate_machine_transition_do over deferred transitions takes fuel. It is enough
-- if it exceeds the number of transitions that the callbacks still ask for. bsearch takes the length
-- of the table as fuel, which is enough since each turn makes the range smaller.
--
-- Not modelled: logging, NULL machine pointers, failures of eina_stringshare_add and of realloc; of
-- the compiler, which strings the release after a parse error releases, getopt_long, and the texts
-- of messages; the examples, tests and benchmarks, which only use the library.
pub mod Base
pub mod Eina
pub mod Runtime
pub mod Compiler
