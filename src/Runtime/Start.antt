-- ===== src/Runtime/Start.antt =====
-- estate_init and estate_shutdown of src/lib/estate_main.c.
use estate.Base.{
  ℕ, zero, suc, ◌+◌, ◌-◌, ◌^◌, ◌<◌, ◌≡◌, refl, ap, ◌∙◌, Bool, true, false, Option, none, some, ◌==◌,
  if◌then◌else◌, arith, ltb,
}
use estate.Runtime.Outcome.{Outcome, returns, faults, ◌>>=◌}
use estate.Runtime.Types.{ℤ, pos, negsuc}

-- What the code calls, on the state of the outside: eina_init, which may fail,
-- eina_log_domain_register, where `none` is a negative number, and what undoes them.
pub record Services : Type 1 where
  pub World : Type 0
  pub eina_init : World → World × Bool
  pub domain_register : World → World × Option ℕ
  pub domain_unregister : World → Option ℕ → World
  pub eina_shutdown : World → World

-- `_init_count`, a signed int, and `_estate_log_dom`.
pub record Library : Type 0 where
  pub init_count : ℤ
  pub log_dom : Option ℕ

-- `++_init_count` and `--_init_count`, where `faults` is a signed overflow.
abbrev pub increment : ℤ → Outcome ℤ
increment (pos n) = if ltb n (2 ^ 31 - 1) then returns (pos (n + 1)) else faults
increment (negsuc zero) = returns (pos 0)
increment (negsuc (suc n)) = returns (negsuc n)

abbrev pub decrement : ℤ → Outcome ℤ
decrement (pos zero) = returns (negsuc 0)
decrement (pos (suc n)) = returns (pos n)
decrement (negsuc n) = if ltb n (2 ^ 31 - 1) then returns (negsuc (n + 1)) else faults

-- `_init_count == n`
abbrev is_count : ℤ → ℕ → Bool
is_count (pos k) n = k == n
is_count (negsuc k) n = false

module _ (S : Services) where
  -- What follows eina_log_domain_register.
  unfoldable pub registered : Library → S.World × Option ℕ → Outcome (Library × S.World)
  registered l (w, none) = do
    c ← decrement l.init_count
    returns (record l { init_count = c; log_dom = none }, S.eina_shutdown w)
  registered l (w, some d) = returns (record l { log_dom = some d }, w)

  -- What follows eina_init.
  unfoldable pub started : Library → S.World × Bool → Outcome (Library × S.World)
  started l (w, false) = do c ← decrement l.init_count; returns (record l { init_count = c }, w)
  started l (w, true) = registered l (S.domain_register w)

  -- estate_init, which returns `init_count`
  unfoldable pub estate_init : Library × S.World → Outcome (Library × S.World)
  estate_init (l, w) = do
    c ← increment l.init_count
    let l' = record l { init_count = c }
    elim (is_count c 1) [ true ↦ started l' (S.eina_init w) | false ↦ returns (l', w) ]

  -- estate_shutdown, which returns `init_count`
  unfoldable pub estate_shutdown : Library × S.World → Outcome (Library × S.World)
  estate_shutdown (l, w) = do
    c ← decrement l.init_count
    let l' = record l { init_count = c }
    returns
        (if is_count c 0 then (l', S.eina_shutdown (S.domain_unregister w l.log_dom)) else (l', w))

  abbrev pub times :
      ℕ
      → (Library × S.World → Outcome (Library × S.World))
      → Library × S.World
      → Outcome (Library × S.World)
  times zero f x = returns x
  times (suc n) f x = do y ← times n f x; f y

  module _ (w w1 w2 : S.World) (d : ℕ) (up : S.eina_init w ≡ (w1, true))
      (domain : S.domain_register w1 ≡ (w2, some d)) where
    -- The library after so many calls.
    abbrev pub up_to : ℕ → Library × S.World
    up_to n = (record { init_count = pos n; log_dom = some d }, w2)

    init_again :
        (n : ℕ) → suc (suc n) < 2 ^ 31 → estate_init (up_to (suc n)) ≡ returns (up_to (suc (suc n)))
    unfolding estate_init
    init_again n le = ground arith

    first :
        (o : Option ℕ)
        → estate_init (record { init_count = pos 0; log_dom = o }, w) ≡ returns (up_to 1)
    unfolding estate_init started registered
    first o = ground (arith, up, domain)

    inits :
        (o : Option ℕ) (n : ℕ)
        → suc n < 2 ^ 31
        → times (suc n) estate_init (record { init_count = pos 0; log_dom = o }, w)
          ≡ returns (up_to (suc n))
    inits o zero le = first o
    inits o (suc n) le = ap (λ x. x >>= estate_init) (inits o n (omega arith)) ∙ init_again n le

    shutdown_again : (k : ℕ) → estate_shutdown (up_to (suc (suc k))) ≡ returns (up_to (suc k))
    unfolding estate_shutdown
    shutdown_again k = ground arith

    shutdowns :
        (n k c : ℕ) → c ≡ n + suc k → times n estate_shutdown (up_to c) ≡ returns (up_to (suc k))
    shutdowns zero k c e = ap (λ x. returns (up_to x)) (e ∙ omega arith)
    shutdowns (suc n) k c e =
        ap (λ x. x >>= estate_shutdown) (shutdowns n (suc k) c (omega arith)) ∙ shutdown_again k

    last_shutdown :
        estate_shutdown (up_to 1)
        ≡ returns (
          record { init_count = pos 0; log_dom = some d },
          S.eina_shutdown (S.domain_unregister w2 (some d)),
        )
    unfolding estate_shutdown
    last_shutdown = refl

    -- Where eina_init and the registration succeed, any number of calls of estate_init below 2 ^ 31
    -- starts Eina and registers the domain once, with no overflow of the count, and as many calls
    -- of estate_shutdown undo both once, with the last one.
    pub estate_shutdown-init :
        (o : Option ℕ) (n : ℕ)
        → suc n < 2 ^ 31
        → (times (suc n) estate_init (record { init_count = pos 0; log_dom = o }, w)
            ≡ returns (up_to (suc n)))
          × (times n estate_shutdown (up_to (suc n)) ≡ returns (up_to 1))
          × (times (suc n) estate_shutdown (up_to (suc n))
              ≡ returns (
                record { init_count = pos 0; log_dom = some d },
                S.eina_shutdown (S.domain_unregister w2 (some d)),
              ))
    estate_shutdown-init o n le =
        let down = shutdowns n 0 (suc n) (omega arith) in
        (inits o n le, down, ap (λ x. x >>= estate_shutdown) down ∙ last_shutdown)
