-- ===== src/Compiler/Main/Released.antt =====
-- What src/bin/estate_cc_main.c has acquired it releases again in the reverse order, on each of its ways.
pub mod Ways
use estate.Base.{
  ℕ, ◌≡◌, ◌⊎◌, refl, subst, ap, ◌∙◌, inl, inr, Bool, true, false, not, Option, none, some, List, [],
  ◌∷◌, ◌++◌, Text, ◌==◌, ltb, if◌then◌else◌, arith, Bool-cases, length,
}
use estate.Eina.{Eina}
use estate.Runtime.Types.{ℤ}
use estate.Runtime.Outcome.{Outcome, returns, ◌>>=◌}
use estate.Compiler.Data.{Store}
use estate.Compiler.Check.{Cache, check_states}
use estate.Compiler.Parser.{Parse, ok, error}
use estate.Compiler.Parser.Token.{Loop}
use estate.Compiler.Parser.Char.{parser_parse}
use estate.Compiler.Parser.Ready.{Ensures, Sound}
use estate.Compiler.Parser.Safe.{parser_parse-Sound}
use estate.Compiler.OutGc.Print.{out_gc, shown}
use estate.Compiler.OutGi.{out_gi}
use estate.Compiler.Main.{
  Resource, eina, log_domain, parser_memory, block_array, input_file, input_map, output_file,
  machines, Event, acquire, release, usage, complaint, frees, frees_unfinished, prints, writes,
  Flag, output_flag, gc_flag, gi_flag, pgf_tikz_flag, verbose_flag, help_flag, other_flag, Settings,
  defaults, World, Exit, options, formats, emit, opened, out_pgf_tikz, transits_print, states_print,
  data_print, generate, convert, converted, read_file, compile, started, main,
}

abbrev code : Resource → ℕ
code eina = 0
code log_domain = 1
code parser_memory = 2
code block_array = 3
code input_file = 4
code input_map = 5
code output_file = 6
code machines = 7

-- What is held after some events, the last first. A release of anything but the last is refused.
-- The array of the blocks is not written down, so that a release of it is refused, too. The release of
-- the parsed machines is `frees`, or `frees_unfinished` after a parse error.
abbrev pub pending : List Resource → List Event → Option (List Resource)
pending held [] = some held
pending held (acquire r ∷ es) = pending (if code r == 3 then held else r ∷ held) es
pending [] (release r ∷ es) = none
pending (h ∷ held) (release r ∷ es) =
    let rest = pending held es in if code h == code r then rest else none
pending held (usage ∷ es) = pending held es
pending held (complaint ∷ es) = pending held es
pending [] (frees xs ∷ es) = none
pending (h ∷ held) (frees xs ∷ es) =
    let rest = pending held es in if code h == 7 then rest else none
pending [] (frees_unfinished ∷ es) = none
pending (h ∷ held) (frees_unfinished ∷ es) =
    let rest = pending held es in if code h == 7 then rest else none
pending held (prints t ∷ es) = pending held es
pending held (writes t ∷ es) = pending held es

pub record IsBalanced (es : List Event) : Type 0 where
  pub keeps : (held : List Resource) → pending held es ≡ some held

pub pending-append :
    (a b : List Event) (held left : List Resource)
    → pending held a ≡ some left
    → pending held (a ++ b) ≡ pending left b
pending-append [] b held left e = ground (arith, e)
pending-append (acquire r ∷ a) b held left e = pending-append a b _ left e
pending-append (release r ∷ a) b [] left e = cc
pending-append (release r ∷ a) b (h ∷ held) left e = elim (Bool-cases (code h == code r)) [
  | inl q ↦
      let e' : pending held a ≡ some left = ground (arith, e, q) in
      rw q (pending-append a b held left e')
  | inr q ↦ ground (arith, e, q)
]
pending-append (usage ∷ a) b held left e = pending-append a b held left e
pending-append (complaint ∷ a) b held left e = pending-append a b held left e
pending-append (frees xs ∷ a) b [] left e = cc
pending-append (frees xs ∷ a) b (h ∷ held) left e = elim (Bool-cases (code h == 7)) [
  | inl q ↦
      let e' : pending held a ≡ some left = ground (arith, e, q) in
      rw q (pending-append a b held left e')
  | inr q ↦ ground (arith, e, q)
]
pending-append (frees_unfinished ∷ a) b [] left e = cc
pending-append (frees_unfinished ∷ a) b (h ∷ held) left e = elim (Bool-cases (code h == 7)) [
  | inl q ↦
      let e' : pending held a ≡ some left = ground (arith, e, q) in
      rw q (pending-append a b held left e')
  | inr q ↦ ground (arith, e, q)
]
pending-append (prints t ∷ a) b held left e = pending-append a b held left e
pending-append (writes t ∷ a) b held left e = pending-append a b held left e

pub append-IsBalanced : (a b : List Event) → IsBalanced a → IsBalanced b → IsBalanced (a ++ b)
append-IsBalanced a b p q = record {
  keeps = λ held. pending-append a b held held (p.keeps held) ∙ q.keeps held;
}

pub if-IsBalanced : (c : Bool) (a : List Event) → IsBalanced a → IsBalanced (if c then a else [])
if-IsBalanced true a p = p
if-IsBalanced false a p = record { keeps = λ held. refl }

pub options-IsBalanced :
    (fs : List Flag) (s : Settings) (stop : Exit) → options s fs ≡ inr stop → IsBalanced stop.1
unfolding options
options-IsBalanced [] s stop e = cc
options-IsBalanced (output_flag f ∷ fs) s stop e = options-IsBalanced fs _ stop e
options-IsBalanced (gc_flag ∷ fs) s stop e = options-IsBalanced fs _ stop e
options-IsBalanced (gi_flag f ∷ fs) s stop e = options-IsBalanced fs _ stop e
options-IsBalanced (pgf_tikz_flag ∷ fs) s stop e = options-IsBalanced fs _ stop e
options-IsBalanced (verbose_flag ∷ fs) s stop e = options-IsBalanced fs _ stop e
options-IsBalanced (help_flag ∷ fs) s stop e =
    let q : (true, usage ∷ []) ≡ stop = cc in
    subst (λ x. IsBalanced x.1) q (record { keeps = λ held. refl })
options-IsBalanced (other_flag ∷ fs) s stop e =
    let q : (false, usage ∷ []) ≡ stop = cc in
    subst (λ x. IsBalanced x.1) q (record { keeps = λ held. refl })

pub emit-IsBalanced : (file text : Option Text) → IsBalanced (emit file text)
unfolding emit
emit-IsBalanced file none = record { keeps = λ held. refl }
emit-IsBalanced none (some t) = record { keeps = λ held. refl }
emit-IsBalanced (some f) (some t) = record { keeps = λ held. refl }

module _ {H : Type 0} (m : Store H) where
  pub transits_print-IsBalanced : (ts : List ℕ) → IsBalanced (transits_print m ts)
  unfolding transits_print
  transits_print-IsBalanced [] = record { keeps = λ held. refl }
  transits_print-IsBalanced (t ∷ ts) = record { keeps = (transits_print-IsBalanced ts).keeps }

  pub states_print-IsBalanced : (ss : List ℕ) → IsBalanced (states_print m ss)
  unfolding states_print
  states_print-IsBalanced [] = record { keeps = λ held. refl }
  states_print-IsBalanced (s ∷ ss) = record { keeps = (states_print-IsBalanced ss).keeps }
