-- ===== src/Runtime/Init/Sharing.antt =====
-- The shared strings that a state and a transition hold, and those that are released.
use estate.Base.{
  count, ℕ, ◌≤◌, ◌≡◌, ◌≢◌, true, Option, none, some, [], ◌∷◌, Text, length, take, text_eq_iff,
  text_eq_self, take-length, ==_self, arith,
}
use estate.Runtime.Outcome.{returns}
use estate.Runtime.Types.{Machine}
use estate.Runtime.Init.{state_init, transition_init, state_deinit, transition_deinit}

module _ {H : Type 0} (m m' : Machine H) where
  -- Releasing a transition that was initialised with callback, enterer and exiter keys releases
  -- its name, the three keys and nothing else, once each. Of the exiter's key it has kept, and so
  -- releases, as many bytes as the enterer's key is long, whatever length `lx` was given for it.
  pub transition_deinit-init :
      (tr from to lx : ℕ) (name kc ke kx : Text) (fc fe fx : Option ℕ)
      → length ke ≤ length kx
      → transition_init m
          (some tr)
          (some name)
          (some from)
          (some to)
          (some (record { func = fc; key = some kc; key_len = length kc }))
          (some (record { func = fe; key = some ke; key_len = length ke }))
          (some (record { func = fx; key = some kx; key_len = lx }))
        ≡ returns (m', true)
      → transition_deinit m' tr ≡ name ∷ kc ∷ ke ∷ take (length ke) kx ∷ []
  unfolding transition_init transition_deinit
  transition_deinit-init tr from to lx name kc ke kx fc fe fx l e =
      ground (arith, take-length kc, take-length ke, ==_self tr, e)

  -- After a state was initialised with an enterer key `ke` and an exiter key `kx`, releasing the
  -- state releases `kx` twice, and `ke` not at all if it is neither `kx` nor the name.
  pub state_deinit-init :
      (st count' : ℕ) (name ke kx : Text) (fe fx : Option ℕ)
      → ke ≢ kx
      → ke ≢ name
      → kx ≢ name
      → state_init m
          (some st)
          (some name)
          none
          count'
          (some (record { func = fe; key = some ke; key_len = length ke }))
          (some (record { func = fx; key = some kx; key_len = length kx }))
        ≡ returns (m', true)
      → (count ke (state_deinit m' (some st)) ≡ 0) × (count kx (state_deinit m' (some st)) ≡ 2)
  unfolding state_init state_deinit
  state_deinit-init st c name ke kx fe fx h1 h2 h3 e = ground (
    arith,
    take-length ke,
    take-length kx,
    text_eq_iff ke kx,
    text_eq_iff kx ke,
    text_eq_iff name ke,
    text_eq_iff name kx,
    text_eq_self kx,
    e,
  )
