-- ===== src/Compiler/Accepted/Separate.antt =====
-- The states of a table are apart, as the code for them in src/bin/estate_cc_out_gc.c needs it.
use estate.Base.{All, AreDistinct, ℕ, ◌≢◌, ap, List, [], ◌∷◌}
use estate.Eina.{Eina}
use estate.Compiler.Data.{Store}
use estate.Compiler.Check.Foreach.{names}

module _ (E : Eina) where
  -- Two states with different names are different.
  apart-names :
      (m : Store E.Hash) (s : ℕ) (ss : List ℕ)
      → All (λ x. (m.states s).name ≢ x) (names E m ss)
      → All (λ x. s ≢ x) ss
  apart-names m s [] a = tt
  apart-names m s (t ∷ ss) a = (λ e. a.0 (ap (λ x. (m.states x).name) e), apart-names m s ss a.1)

  pub names-AreDistinct :
      (m : Store E.Hash) (ss : List ℕ) → AreDistinct (names E m ss) → AreDistinct ss
  names-AreDistinct m [] d = tt
  names-AreDistinct m (s ∷ ss) d = (apart-names m s ss d.0, names-AreDistinct m ss d.1)
