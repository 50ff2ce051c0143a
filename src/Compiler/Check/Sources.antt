-- ===== src/Compiler/Check/Sources.antt =====
-- The choice of the initial state in src/bin/estate_cc_check.c, against the list of the states that
-- no transition leads to.
use estate.Base.{
  ℕ, ◌+◌, ◌^◌, ◌≡◌, ◌<◌, ap, Bool, true, false, Option, none, some, List, [], ◌∷◌, Text, length,
  text_eq, ◌==◌, arith, if◌then◌else◌,
}
use estate.Eina.{Eina}
use estate.Compiler.Data.{Store, update}
use estate.Compiler.Check.{Cache, foreach, check_init, u32, init_deduction, settle_init}
use estate.Runtime.Outcome.{returns}

abbrev pub last_or : Option Text → List Text → Option Text
last_or o [] = o
last_or o (t ∷ ts) = last_or (some t) ts

-- A machine starts in its one source, which the attribute may name, or, if it has none, where the
-- attribute says.
abbrev pub choose : List Text → Option Text → Option Text × Bool
choose [] none = (none, false)
choose [] (some i) = (some i, true)
choose (d ∷ []) none = (some d, true)
choose (d ∷ []) (some i) = if text_eq d i then (some d, true) else (some i, false)
choose (d ∷ e ∷ ds) init = (init, false)

settle-choose :
    (ds : List Text) (init : Option Text)
    → settle_init (length ds) (last_or none ds) init ≡ choose ds init
unfolding settle_init
settle-choose [] init = ground arith
settle-choose (d ∷ []) init = ground arith
settle-choose (d ∷ e ∷ ds) init = ground arith

module _ {Hash : Type 0} where
  -- The names of the states that no transition leads to.
  abbrev pub sources : Store Hash → List ℕ → List Text
  sources m [] = []
  sources m (s ∷ ss) =
      let rest = sources m ss in
      if (m.states s).check_to == 0 then (m.states s).name ∷ rest else rest

  foreach-deduction :
      (m : Store Hash) (ss : List ℕ) (k : Cache Hash)
      → k.init_count + length ss < 2 ^ 32
      → foreach (init_deduction m) k ss
        ≡ returns (record k {
          init_count = k.init_count + length (sources m ss);
          init = last_or k.init (sources m ss);
        })
  unfolding foreach init_deduction
  foreach-deduction m [] k le = ground arith
  foreach-deduction m (s ∷ ss) k le =
      let found = record k { init_count = u32 (k.init_count + 1); init = some (m.states s).name } in
      ground (arith, foreach-deduction m ss k, foreach-deduction m ss found)

module _ (E : Eina) (each : E.Hash → List ℕ) where
  -- The machine gets the initial state chosen from its sources, and is right if and only if the
  -- choice succeeds, if its table of states has less than 2 ^ 32 elements.
  pub check_init-choose :
      (m : Store E.Hash) (k : Cache E.Hash) (f : ℕ)
      → length (each (m.fsms f).states) < 2 ^ 32
      → let chosen = choose (sources m (each (m.fsms f).states)) (m.fsms f).init in
        (k' : Cache E.Hash) × (check_init E each m k f
          ≡ returns
              (record m { fsms = update m.fsms f (record (m.fsms f) { init = chosen.0 }) }, k'))
        × (k'.ok ≡ chosen.1)
  unfolding check_init
  check_init-choose m k f le =
      let ds = sources m (each (m.fsms f).states) in
      let scan =
        foreach-deduction m (each (m.fsms f).states) (record k { init = none; init_count = 0 })
          (omega arith) in
      let choice = settle-choose ds (m.fsms f).init in
      (
        record k {
          init_count = length ds;
          init = last_or none ds;
          ok = (settle_init (length ds) (last_or none ds) (m.fsms f).init).1;
        },
        ground (arith, scan, choice),
        ap (λ x. x.1) choice,
      )
