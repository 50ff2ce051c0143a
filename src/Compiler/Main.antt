-- ===== src/Compiler/Main.antt =====
-- The driver, src/bin/estate_cc_main.c, with estate_cc_parser_file_set and estate_cc_parser_free of
-- src/bin/estate_cc_parser.c, src/bin/estate_cc_log.c, src/bin/estate_cc_data.c and
-- src/bin/estate_cc_out_pgf_tikz.c.
pub mod Released
pub mod Status
use estate.Base.{
  ℕ, zero, suc, ◌+◌, ◌%◌, ◌^◌, Bool, true, false, not, Option, none, some, List, [], ◌∷◌, ◌++◌,
  Text, codes, ◌==◌, ltb, if◌then◌else◌, ◌⊎◌, inl, inr,
}
use estate.Eina.{Eina}
use estate.Runtime.Types.{ℤ}
use estate.Runtime.Outcome.{Outcome, returns, faults, out_of_fuel, ◌>>=◌}
use estate.Compiler.Data.{Cb, State, Transit, Fsm, Store}
use estate.Compiler.Free.{Freed, parse_free}
use estate.Compiler.OutGc.{machines_text}
use estate.Compiler.Check.{Cache, check_states}
use estate.Compiler.OutGc.Print.{printf, shown, out_gc}
use estate.Compiler.OutGi.{out_gi}
use estate.Compiler.Parser.{Parser, Parse, ok, error}
use estate.Compiler.Parser.Token.{Loop}
use estate.Compiler.Parser.Char.{parser_parse}

-- What the program holds while it runs. The array is p->blocks.
pub data Resource : Type 0 where
  eina log_domain parser_memory block_array input_file input_map output_file machines : Resource

pub data Event : Type 0 where
  acquire release : Resource → Event
  usage complaint : Event
  frees : List Freed → Event
  frees_unfinished : Event
  prints writes : Text → Event

-- What getopt_long returns, with `optarg`; the last one stands for the default case.
pub data Flag : Type 0 where
  output_flag : Text → Flag
  gc_flag : Flag
  gi_flag : Text → Flag
  pgf_tikz_flag verbose_flag help_flag other_flag : Flag

pub record Settings : Type 0 where
  pub output : Option Text
  pub header : Option Text
  pub gc : Bool
  pub gi : Bool
  pub pgf_tikz : Bool
  pub verbosity : ℕ

abbrev pub defaults : Settings
defaults = record {
  output = none;
  header = none;
  gc = false;
  gi = false;
  pgf_tikz = false;
  verbosity = 0;
}

-- What the calls of other libraries give: `file` has the bytes that eina_file_open finds and the
-- one behind them, and `mapped`, `writable` tell of eina_file_map_all and of fopen.
pub record World : Type 0 where
  pub eina_inits : Bool
  pub log_registers : Bool
  pub allocates : Bool
  pub file : Option Text
  pub mapped : Bool
  pub writable : Bool

-- The result of main, true for EXIT_SUCCESS, and what it did.
abbrev pub Exit : Type 0
Exit = Bool × List Event

-- The loop over the options: the settings, or the end of the program.
unfoldable pub options : Settings → List Flag → Settings ⊎ Exit
options s [] = inl s
options s (output_flag f ∷ fs) = options (record s { output = some f }) fs
options s (gc_flag ∷ fs) = options (record s { gc = true }) fs
options s (gi_flag f ∷ fs) = options (record s { gi = true; header = some f }) fs
options s (pgf_tikz_flag ∷ fs) = options (record s { pgf_tikz = true }) fs
options s (verbose_flag ∷ fs) = options (record s { verbosity = (s.verbosity + 1) % 2 ^ 32 }) fs
options s (help_flag ∷ fs) = inr (true, usage ∷ [])
options s (other_flag ∷ fs) = inr (false, usage ∷ [])

abbrev pub count_of : Bool → ℕ
count_of b = if b then 1 else 0

abbrev pub formats : Settings → ℕ
formats s = count_of s.gc + count_of s.gi + count_of s.pgf_tikz

-- Where the text goes; without a text the file could not be opened.
unfoldable pub emit : Option Text → Option Text → List Event
emit file none = complaint ∷ []
emit none (some t) = prints t ∷ []
emit (some f) (some t) = acquire output_file ∷ writes t ∷ release output_file ∷ []

-- `!f` after `FILE *f = stdout; if (file) f = fopen(file, "w");`
abbrev pub opened : Option Text → Bool → Bool
opened none writable = true
opened (some f) writable = writable

unfoldable pub out_pgf_tikz : Bool → Option Text
out_pgf_tikz false = none
out_pgf_tikz true = some (
    codes
      "% Required packages:\n%\\usepackage{pfg}\n%\\usepackage{tikz}\n%\\usetikzlibrary{arrows,automata}\n\n\\begin{tikzpicture}[shorten >=1pt,node distance=2cm,>=stealth',thick]\n"
    ++ codes "\\end{tikzpicture}\n")

-- src/bin/estate_cc_data.c
module _ {Hash : Type 0} where
  unfoldable pub transits_print : Store Hash → List ℕ → List Event
  transits_print m [] = []
  transits_print m (a ∷ ts) =
      let t = m.transits a in
      prints (
        printf "++ TRANSITION: [%s] : [%s] -> [%s]\n+++ transition: [%s], [%s]\n"
          (t.name ∷ shown t.from ∷ shown t.to ∷ shown t.cb.func ∷ shown t.cb.value ∷ []))
      ∷ transits_print m ts

  unfoldable pub states_print : Store Hash → List ℕ → List Event
  states_print m [] = []
  states_print m (a ∷ ss) =
      let s = m.states a in
      prints (
        printf "++ STATE: [%s]\n+++ enterer: [%s], [%s]\n+++ exiter: [%s], [%s]\n" (
          s.name
          ∷ shown s.enterer.func
          ∷ shown s.enterer.value
          ∷ shown s.exiter.func
          ∷ shown s.exiter.value
          ∷ []))
      ∷ states_print m ss

-- estate_cc_parser_file_unset, for a file that is open or not, and mapped or not
abbrev pub file_unset : Bool → Bool → List Event
file_unset false is_mapped = []
file_unset true is_mapped =
    (if is_mapped then release input_map ∷ [] else []) ++ release input_file ∷ []

module _ (E : Eina) (qsort : (ℕ → ℕ → ℤ) → List ℕ → List ℕ) (each : E.Hash → List ℕ) where
  unfoldable pub data_print : Store E.Hash → List ℕ → List Event
  data_print m [] = []
  data_print m (a ∷ fs) =
      let f = m.fsms a in
      prints (printf "+ FSM: [%s]\n" (f.name ∷ []))
      ∷ (transits_print m (each f.transitions)
          ++ (states_print m (each f.states) ++ data_print m fs))

  -- The calls of the generators.
  unfoldable pub generate : World → Settings → Store E.Hash → List ℕ → List Event
  generate w s m parse =
      let is_open = opened s.output w.writable in
      (if s.gi then emit s.output (out_gi E each m parse (shown s.header) is_open) else [])
      ++ ((if s.gc then emit s.output (out_gc E qsort each m parse is_open) else [])
          ++ (if s.pgf_tikz then emit s.output (out_pgf_tikz is_open) else []))

  -- The memory after the generators: that of the C code makes the arrays of the states.
  abbrev pub generated : World → Settings → Store E.Hash → List ℕ → Store E.Hash
  generated w s m parse =
      if s.gc
      then if opened s.output w.writable then (machines_text E qsort each m parse).0 else m
      else m

  -- From the check of the list on; the result of the check is not looked at.
  unfoldable pub convert : World → Settings → Cache E.Hash → Store E.Hash → List ℕ → Outcome Exit
  convert w s unset m [] = returns (false, complaint ∷ frees [] ∷ [])
  convert w s unset m (f ∷ fs) = do
    (m', good) ← check_states E each unset m (f ∷ fs)
    let printed = if ltb 0 s.verbosity then data_print m (f ∷ fs) else []
    let released = frees (parse_free (generated w s m' (f ∷ fs)) each (f ∷ fs))
    returns (true, printed ++ (generate w s m' (f ∷ fs) ++ released ∷ []))

  unfoldable pub converted : World → Settings → Cache E.Hash → Parse (Loop E.Hash) → Outcome Exit
  converted w s unset (ok l) = do
    (ret, done) ← convert w s unset l.store l.p.parse
    returns (ret, acquire machines ∷ done)
  converted w s unset (error line col) =
      returns (false, acquire machines ∷ complaint ∷ frees_unfinished ∷ [])
  converted w s unset Parse.faults = faults
  converted w s unset Parse.out_of_fuel = out_of_fuel

  -- estate_cc_parser_file_set with the rest of the program, and estate_cc_parser_file_unset at its
  -- end, which estate_cc_parser_free calls.
  unfoldable pub read_file :
      World → Settings → Cache E.Hash → Store E.Hash → Option Text → Outcome Exit
  read_file w s unset m none = returns (false, complaint ∷ [])
  read_file w s unset m (some bytes) =
      if w.mapped
      then (do
        (ret, done) ← converted w s unset (parser_parse E m bytes)
        returns (ret, acquire input_file ∷ acquire input_map ∷ (done ++ file_unset true true)))
      else returns
          (false, acquire input_file ∷ complaint ∷ (file_unset true false ++ complaint ∷ []))

  -- From the call of eina_init on.
  unfoldable pub compile : World → Settings → Cache E.Hash → Store E.Hash → Outcome Exit
  unfolding read_file
  compile w s unset m =
      if not w.eina_inits
      then returns (false, complaint ∷ [])
      else if not w.log_registers
      then returns (false, acquire eina ∷ complaint ∷ release eina ∷ [])
      else if not w.allocates
      then returns (
        false,
        acquire eina ∷ acquire log_domain ∷ complaint ∷ release log_domain ∷ release eina ∷ [],
      )
      else (do
        (ret, done) ← read_file w s unset m w.file
        returns (
          ret,
          acquire eina
              ∷ acquire log_domain
              ∷ acquire parser_memory
              ∷ acquire block_array
              ∷ (done ++ release parser_memory ∷ release log_domain ∷ release eina ∷ []),
        ))

  -- From the test of the format on.
  unfoldable pub started : World → ℕ → Cache E.Hash → Store E.Hash → Settings ⊎ Exit → Outcome Exit
  unfolding compile
  started w inputs unset m (inr stop) = returns stop
  started w inputs unset m (inl s) =
      if not (formats s == 1)
      then returns (false, complaint ∷ [])
      else if not (inputs == 1)
      then returns (false, complaint ∷ [])
      else compile w s unset m

  -- main, given the options, the number of the other arguments, the cache of the checker before it
  -- is written to and an empty memory
  unfoldable pub main : World → List Flag → ℕ → Cache E.Hash → Store E.Hash → Outcome Exit
  unfolding options started
  main w flags inputs unset m = started w inputs unset m (options defaults flags)
