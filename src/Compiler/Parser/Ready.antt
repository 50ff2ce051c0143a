-- ===== src/Compiler/Parser/Ready.antt =====
-- What the parser of src/bin/estate_cc_parser.c needs of its variables in each state, and what
-- reading a character does.
use estate.Base.{
  ℕ, suc, ◌≤◌, ◌<◌, ◌≡◌, ◌⊎◌, refl, Bool, true, false, Option, none, some, [], ◌∷◌, Text, length,
  arith,
}
use estate.Compiler.Parser.{
  Sm, sm_none, sm_transition_from, sm_transition_to, sm_transition, sm_transition_cb,
  sm_transition_cb_func_prop, sm_transition_cb_data_prop, sm_state, sm_state_cb,
  sm_state_cb_func_prop, sm_state_cb_data_prop, sm_state_attribute, Parser, Parse, ok, error,
  faults, out_of_fuel, ◌>>=◌, eof, char_next_get, read,
}
use estate.Compiler.Parser.Token.{Loop}
use estate.Compiler.Parser.Char.{buf_size}

abbrev pub is_some {ℓ} : {A : Type ℓ} → Option A → Bool
is_some none = false
is_some (some a) = true

-- What the code of each state uses without a look: the machine, the transition, the state and the
-- callback that it works on.
abbrev pub Ready : {Hash : Type 0} → Sm → Loop Hash → Type 0
Ready sm_none l = Unit
Ready sm_state l = (is_some l.f ≡ true) × (is_some l.s ≡ true)
Ready sm_state_attribute l = (is_some l.f ≡ true) × (is_some l.s ≡ true)
Ready sm_state_cb l = (is_some l.f ≡ true) × (is_some l.s ≡ true) × (is_some l.cb ≡ true)
Ready sm_state_cb_func_prop l = (is_some l.f ≡ true) × (is_some l.s ≡ true) × (is_some l.cb ≡ true)
Ready sm_state_cb_data_prop l = (is_some l.f ≡ true) × (is_some l.s ≡ true) × (is_some l.cb ≡ true)
Ready sm_transition l = (is_some l.f ≡ true) × (is_some l.t ≡ true)
Ready sm_transition_cb l = (is_some l.f ≡ true) × (is_some l.t ≡ true)
Ready sm_transition_cb_func_prop l = (is_some l.f ≡ true) × (is_some l.t ≡ true)
Ready sm_transition_cb_data_prop l = (is_some l.f ≡ true) × (is_some l.t ≡ true)
Ready sm_transition_from l = (is_some l.f ≡ true) × (is_some l.t ≡ true)
Ready sm_transition_to l = (is_some l.f ≡ true) × (is_some l.t ≡ true)
Ready _ l = is_some l.f ≡ true

-- The loop is ready, its token fits the buffer, and at most `n` bytes are left to read.
pub record Sound {Hash : Type 0} (n : ℕ) (l : Loop Hash) : Type 0 where
  pub ready : Ready l.p.sm l
  pub fits : length l.buf < buf_size
  pub left : length l.p.rest ≤ n

-- An outcome is an error, or it satisfies `P`; it is neither a fault nor a lack of fuel.
abbrev pub Ensures {ℓ} : {A : Type ℓ} → (A → Type 0) → Parse A → Type 0
Ensures P (ok a) = P a
Ensures P (error _ _) = Unit
Ensures P faults = ⊥
Ensures P out_of_fuel = ⊥

abbrev pub ReadyLike : {Hash : Type 0} → Loop Hash → Loop Hash → Type 0
ReadyLike l l' = Ready l'.p.sm l' × (l'.p.rest ≡ l.p.rest)

pub Ensures-bind :
    {A B : Type 0} (P : A → Type 0) (Q : B → Type 0) (r : Parse A) (f : A → Parse B)
    → Ensures P r
    → ((a : A) → P a → Ensures Q (f a))
    → Ensures Q (r >>= f)
Ensures-bind P Q (ok a) f p k = k a p
Ensures-bind P Q (error _ _) f p k = tt
Ensures-bind P Q faults f p k = elim p [ ]
Ensures-bind P Q out_of_fuel f p k = elim p [ ]

Sound-mono : {Hash : Type 0} {n k : ℕ} {l : Loop Hash} → n ≤ k → Sound n l → Sound k l
Sound-mono le s = ground arith

pub Sound-Ensures :
    {Hash : Type 0} (n k : ℕ) (r : Parse (Loop Hash))
    → n ≤ k
    → Ensures (Sound n) r
    → Ensures (Sound k) r
Sound-Ensures n k (ok l) le s = Sound-mono le s
Sound-Ensures n k (error _ _) le s = tt
Sound-Ensures n k faults le s = elim s [ ]
Sound-Ensures n k out_of_fuel le s = elim s [ ]

-- What reading a character does to the parser.
pub record IsRead (p q : Parser) (c : ℕ) (cs : Text) : Type 0 where
  pub falls : (c ≡ eof) ⊎ (suc (length q.rest) ≡ length cs)
  pub bounded : length q.rest ≤ length cs
  pub sm : q.sm ≡ p.sm
  pub has_token : q.has_token ≡ p.has_token

read-IsRead : (p : Parser) (cs : Text) → p.rest ≡ cs → IsRead p (read p cs).0 (read p cs).1 cs
unfolding read
read-IsRead p [] e = ground arith
read-IsRead p (c ∷ cs) e = ground arith

pub char_next_get-IsRead : (p : Parser) → IsRead p (char_next_get p).0 (char_next_get p).1 p.rest
unfolding char_next_get
char_next_get-IsRead p = read-IsRead p p.rest refl
