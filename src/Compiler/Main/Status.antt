-- ===== src/Compiler/Main/Status.antt =====
-- When src/bin/estate_cc_main.c ends with EXIT_SUCCESS.
use estate.Base.{
  ℕ, ◌≡◌, ◌↔◌, refl, sym, ap, subst, Bool, true, false, not, Option, none, some, List, [], ◌∷◌,
  Text, ◌==◌, ltb, ◌++◌, if◌then◌else◌, inl, inr, length, Bool-cases,
}
use estate.Eina.{Eina}
use estate.Runtime.Types.{ℤ}
use estate.Runtime.Outcome.{Outcome, returns, ◌>>=◌}
use estate.Compiler.Data.{Store}
use estate.Compiler.Check.{Cache, check_states}
use estate.Compiler.Parser.{Parse, ok, error}
use estate.Compiler.Parser.Token.{Loop}
use estate.Compiler.Parser.Char.{parser_parse}
use estate.Compiler.Parser.Ready.{Ensures, Sound}
use estate.Compiler.Parser.Safe.{parser_parse-Sound}
use estate.Compiler.Free.{parse_free}
use estate.Compiler.Main.{
  machines, acquire, Event, Flag, Settings, defaults, World, Exit, options, formats, generate,
  generated, frees, data_print, convert, converted, read_file, compile, started, main,
}
use estate.Compiler.Main.Released.Ways.{Checks, ChecksFile}

-- The parser gives at least one machine.
abbrev pub ParsesSome : {H : Type 0} → Parse (Loop H) → Type 0
ParsesSome parsed = (l : _) × (parsed ≡ ok l) × ((f : ℕ) × (fs : List ℕ) × (l.p.parse ≡ f ∷ fs))

-- The file is there, is mapped, and gives a machine.
abbrev pub IsGood : (E : Eina) → World → Store E.Hash → Option Text → Type 0
IsGood E w m file =
    (bytes : Text) × (file ≡ some bytes) × (w.mapped ≡ true) × ParsesSome (parser_parse E m bytes)

-- The program comes to its end, with success exactly if `P` holds.
abbrev Exits : Outcome Exit → Type 0 → Type 0
Exits o P = (r : Exit) × (o ≡ returns r) × ((r.0 ≡ true) ↔ P)

refused : (es : List Event) (P : Type 0) → ¬ P → Exits (returns (false, es)) P
refused es P no_P = ((false, es), refl, (λ e. cc, λ p. absurd (no_P p)))

guard :
    (c : Bool) (es : List Event) (y : Outcome Exit) (P : Type 0)
    → Exits y P
    → Exits (if not c then returns (false, es) else y) ((c ≡ true) × P)
guard false es y P q = refused es ((false ≡ true) × P) (λ p. cc (p.0))
guard true es y P (r, e, (f, g)) = (r, e, (λ t. (refl, f t), λ p. g p.1))

within :
    (o : Outcome Exit) (f : List Event → List Event) (P : Type 0)
    → Exits o P
    → Exits (do (ret, done) ← o; returns (ret, f done)) P
within o f P (r, e, q) = ((r.0, f r.1), ap (λ x. x >>= λ y. returns (y.0, f y.1)) e, q)

mapped_file :
    (E : Eina) (w : World) (m : Store E.Hash) (bytes : Text) (y : Outcome Exit) (es : List Event)
    → Exits y (ParsesSome (parser_parse E m bytes))
    → Exits (if w.mapped then y else returns (false, es)) (IsGood E w m (some bytes))
mapped_file E w m bytes y es (r, e, (f, g)) = elim (Bool-cases w.mapped) [
  | inl q ↦ rw q (
    r,
    e,
    (
      λ t. (bytes, refl, refl, f t),
      λ (b, same, _, p). g (subst (λ x. ParsesSome (parser_parse E m x)) (cc same) p),
    ),
  )
  | inr q ↦ rw q (refused es _ (λ (_, _, on, _). cc on))
]

module _ (E : Eina) (qsort : (ℕ → ℕ → ℤ) → List ℕ → List ℕ) (each : E.Hash → List ℕ) (h : E.Hash)
    (made : E.hash_new ≡ some h) (memory : (n : ℕ) → E.calloc n ≡ true) where
  convert-Exits :
      (w : World) (s : Settings) (unset : Cache E.Hash) (m : Store E.Hash) (parse : List ℕ)
      (r : Store E.Hash × Bool)
      → check_states E each unset m parse ≡ returns r
      → Exits (convert E qsort each w s unset m parse) ((f : ℕ) × (fs : List ℕ) × (parse ≡ f ∷ fs))
  unfolding convert
  convert-Exits w s unset m [] r e = refused _ _ (λ (f, fs, q). cc q)
  convert-Exits w s unset m (f ∷ fs) r e = (
    (
      true,
      (if ltb 0 s.verbosity then data_print E qsort each m (f ∷ fs) else [])
          ++ (generate E qsort each w s r.0 (f ∷ fs)
              ++ frees (parse_free (generated E qsort each w s r.0 (f ∷ fs)) each (f ∷ fs)) ∷ []),
    ),
    rw (e, convert),
    (λ t. (f, fs, refl), λ p. refl),
  )

  converted-Exits :
      (w : World) (s : Settings) (unset : Cache E.Hash) (n : ℕ) (parsed : Parse (Loop E.Hash))
      → Ensures (Sound n) parsed
      → Checks E qsort each unset parsed
      → Exits (converted E qsort each w s unset parsed) (ParsesSome parsed)
  unfolding converted
  converted-Exits w s unset n (ok l) sound (r, checks) =
      let (x, e, (f, g)) =
        within _ (λ es. acquire machines ∷ es) _
          (convert-Exits w s unset l.store l.p.parse r checks) in
      (
        x,
        e,
        (
          λ t. (l, refl, f t),
          λ (l', q, some_machine).
              let same : l' ≡ l = cc in
              g (
                subst (λ (y : Loop E.Hash). (a : ℕ) × (as' : List ℕ) × (y.p.parse ≡ a ∷ as')) same
                  some_machine),
        ),
      )
  converted-Exits w s unset n (error line col) sound checks = refused _ _ (λ (l, q, _). cc q)
  converted-Exits w s unset n Parse.faults sound checks = elim sound [ ]
  converted-Exits w s unset n Parse.out_of_fuel sound checks = elim sound [ ]

  read_file-Exits :
      (w : World) (s : Settings) (unset : Cache E.Hash) (m : Store E.Hash) (file : Option Text)
      → ChecksFile E qsort each unset m file
      → Exits (read_file E qsort each w s unset m file) (IsGood E w m file)
  unfolding read_file
  read_file-Exits w s unset m none checks = refused _ _ (λ (bytes, q, _, _). cc q)
  read_file-Exits w s unset m (some bytes) checks = mapped_file E w m bytes _ _ (
      within _ _ _ (
        converted-Exits w s unset (length bytes) (parser_parse E m bytes)
          (parser_parse-Sound E h made memory m bytes) checks))

  -- What is asked for and given: one format, one file, a start of the libraries, memory, and a file
  -- that has a machine.
  abbrev pub IsServed : World → Settings → ℕ → Store E.Hash → Type 0
  IsServed w s inputs m =
      ((formats s == 1) ≡ true)
      × (((inputs == 1) ≡ true)
          × ((w.eina_inits ≡ true)
              × ((w.log_registers ≡ true) × ((w.allocates ≡ true) × IsGood E w m w.file))))

  started-Exits :
      (w : World) (s : Settings) (inputs : ℕ) (unset : Cache E.Hash) (m : Store E.Hash)
      → ChecksFile E qsort each unset m w.file
      → Exits (started E qsort each w inputs unset m (inl s)) (IsServed w s inputs m)
  unfolding started compile
  started-Exits w s inputs unset m checks = guard (formats s == 1) _ _ _ (
      guard (inputs == 1) _ _ _ (
        guard w.eina_inits _ _ _ (
          guard w.log_registers _ _ _
            (guard w.allocates _ _ _ (within _ _ _ (read_file-Exits w s unset m w.file checks))))))

  -- Where eina_hash_stringshared_new gives a table, calloc finds memory for the machines, the options
  -- are read to their end, and the check comes to its end on what the parser makes of a file: main returns, and its status is
  -- EXIT_SUCCESS exactly if one format and one file were given, the libraries started, there was
  -- memory for the parser, the file was found and mapped, and it has at least one machine. What the
  -- checker says and whether the output can be written make no difference.
  pub main-status :
      (w : World) (flags : List Flag) (s : Settings) (inputs : ℕ) (unset : Cache E.Hash)
      (m : Store E.Hash)
      → options defaults flags ≡ inl s
      → ChecksFile E qsort each unset m w.file
      → (r : Exit) × (main E qsort each w flags inputs unset m ≡ returns r)
        × ((r.0 ≡ true) ↔ IsServed w s inputs m)
  unfolding main
  main-status w flags s inputs unset m e checks =
      subst (λ x. Exits (started E qsort each w inputs unset m x) (IsServed w s inputs m)) (sym e)
        (started-Exits w s inputs unset m checks)
