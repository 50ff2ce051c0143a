-- ===== src/Compiler/Compiled/Rooted.antt =====
-- Descriptions that the checker, src/bin/estate_cc_check.c, accepts: those with one state that no transition
-- leads to, and with no two transitions between the same states.
use estate.Base.{
  All, AreDistinct, IsIn, ℕ, ◌<◌, ◌≤◌, ◌≡◌, ◌≢◌, ◌⊎◌, inl, inr, refl, sym, subst, ap, ◌∙◌, List, [],
  ◌∷◌, Text, text_eq_iff, arith,
}
use estate.Compiler.Check.Deduce.{ends_of, incoming}
use estate.Compiler.Check.Machine.{unreached}
use estate.Compiler.Check.Table.{bump}
use estate.Compiler.Parser.Clauses.{Clause, clause_names}

-- No two transitions join the same states.
abbrev pub IsUnambiguous : List Clause → Type 0
IsUnambiguous cs = (n k a b : Text) → IsIn (n, a, b) cs → IsIn (k, a, b) cs → n ≡ k

-- The state `s` is the only one that no transition leads to.
pub record IsRooted (cs : List Clause) (s : Text) : Type 0 where
  pub leaves : (n : Text) × (b : Text) × IsIn (n, s, b) cs
  pub unentered : (n a : Text) → IsIn (n, a, s) cs → ⊥
  pub entered :
      (n a b : Text) → IsIn (n, a, b) cs → a ≢ s → (k : Text) × (c : Text) × IsIn (k, c, a) cs

-- The names of the transitions, with their ends.
abbrev pub Rows : List Clause → List Text → List (Text × Text) → Type 0
Rows cs [] [] = Unit
Rows cs (k ∷ ks) ((a, b) ∷ ps) = IsIn (k, a, b) cs × Rows cs ks ps
Rows cs _ _ = ⊥

pair_apart :
    (cs : List Clause) (k a b : Text) (ks : List Text) (ps : List (Text × Text))
    → IsUnambiguous cs
    → IsIn (k, a, b) cs
    → All (λ x. k ≢ x) ks
    → Rows cs ks ps
    → All (λ q. (a, b) ≢ q) ps
pair_apart cs k a b [] [] u i d r = tt
pair_apart cs k a b [] (p ∷ ps) u i d r = elim r [ ]
pair_apart cs k a b (x ∷ ks) [] u i d r = tt
pair_apart cs k a b (x ∷ ks) ((c, e) ∷ ps) u i (d, ds) (j, r) = (
  λ q. d (u k x a b i (subst (λ p. IsIn (x, p.0, p.1) cs) (sym q) j)),
  pair_apart cs k a b ks ps u i ds r,
)

pub Rows-AreDistinct :
    (cs : List Clause) (ks : List Text) (ps : List (Text × Text))
    → IsUnambiguous cs
    → AreDistinct ks
    → Rows cs ks ps
    → AreDistinct ps
Rows-AreDistinct cs [] [] u d r = tt
Rows-AreDistinct cs [] (p ∷ ps) u d r = elim r [ ]
Rows-AreDistinct cs (k ∷ ks) [] u d r = elim r [ ]
Rows-AreDistinct cs (k ∷ ks) ((a, b) ∷ ps) u (d, ds) (i, r) =
    (pair_apart cs k a b ks ps u i d r, Rows-AreDistinct cs ks ps u ds r)

-- A pair is that of a transition.
pub Rows-clause :
    (cs : List Clause) (a b : Text) (ks : List Text) (ps : List (Text × Text))
    → Rows cs ks ps
    → IsIn (a, b) ps
    → (n : Text) × IsIn (n, a, b) cs
Rows-clause cs a b [] [] r i = elim i [ ]
Rows-clause cs a b [] (p ∷ ps) r i = elim r [ ]
Rows-clause cs a b (k ∷ ks) [] r i = elim i [ ]
Rows-clause cs a b (k ∷ ks) ((x, y) ∷ ps) (j, r) (inl e) =
    (k, subst (λ p. IsIn (k, p.0, p.1) cs) e j)
Rows-clause cs a b (k ∷ ks) ((x, y) ∷ ps) (j, r) (inr i) = Rows-clause cs a b ks ps r i

-- A name has a pair.
Rows-pair :
    (cs : List Clause) (n : Text) (ks : List Text) (ps : List (Text × Text))
    → Rows cs ks ps
    → IsIn n ks
    → (a : Text) × (b : Text) × IsIn (n, a, b) cs × IsIn (a, b) ps
Rows-pair cs n [] ps r i = elim i [ ]
Rows-pair cs n (k ∷ ks) [] r i = elim r [ ]
Rows-pair cs n (k ∷ ks) ((a, b) ∷ ps) (j, r) (inl e) =
    (a, b, subst (λ x. IsIn (x, a, b) cs) e j, inl refl)
Rows-pair cs n (k ∷ ks) ((a, b) ∷ ps) (j, r) (inr i) =
    let (c, d, q, p) = Rows-pair cs n ks ps r i in (c, d, q, inr p)

absent_name :
    (n a b : Text) (cs : List Clause) → All (λ x. n ≢ x) (clause_names cs) → IsIn (n, a, b) cs → ⊥
absent_name n a b [] d i = elim i [ ]
absent_name n a b (c ∷ cs) (d, ds) (inl e) = d (ap (λ x. x.0) (sym e))
absent_name n a b (c ∷ cs) (d, ds) (inr i) = absent_name n a b cs ds i

-- Transitions with distinct names are known by them.
functional :
    (n a b c d : Text) (cs : List Clause)
    → AreDistinct (clause_names cs)
    → IsIn (n, a, b) cs
    → IsIn (n, c, d) cs
    → ◌≡◌ {A = Text × Text} (a, b) (c, d)
functional n a b c d [] w i j = elim i [ ]
functional n a b c d (x ∷ cs) (w, ws) (inl e) (inl f) = ap (λ y. (y.1, y.2)) (sym e ∙ f)
functional n a b c d (x ∷ cs) (w, ws) (inl e) (inr j) =
    absurd (absent_name n c d cs (subst (λ y. All (λ z. y.0 ≢ z) (clause_names cs)) e w) j)
functional n a b c d (x ∷ cs) (w, ws) (inr i) (inl f) =
    absurd (absent_name n a b cs (subst (λ y. All (λ z. y.0 ≢ z) (clause_names cs)) f w) i)
functional n a b c d (x ∷ cs) (w, ws) (inr i) (inr j) = functional n a b c d cs ws i j

-- Each transition that has a row has its pair there.
pub clause-IsIn :
    (cs : List Clause) (n a b : Text) (ks : List Text) (ps : List (Text × Text))
    → AreDistinct (clause_names cs)
    → Rows cs ks ps
    → IsIn n ks
    → IsIn (n, a, b) cs
    → IsIn (a, b) ps
clause-IsIn cs n a b ks ps d r i j =
    let (x, y, k, p) = Rows-pair cs n ks ps r i in
    subst (λ q. IsIn q ps) (functional n x y a b cs d k j) p

-- An end of a transition.
pub ends_of-IsIn :
    (x : Text) (ps : List (Text × Text))
    → IsIn x (ends_of ps)
    → ((y : Text) × IsIn (x, y) ps) ⊎ ((y : Text) × IsIn (y, x) ps)
ends_of-IsIn x [] i = elim i [ ]
ends_of-IsIn x ((a, b) ∷ ps) (inl e) = inl (b, inl (ap (λ z. (z, b)) e))
ends_of-IsIn x ((a, b) ∷ ps) (inr (inl e)) = inr (a, inl (ap (λ z. (a, z)) e))
ends_of-IsIn x ((a, b) ∷ ps) (inr (inr i)) = elim (ends_of-IsIn x ps i) [
  | inl (y, j) ↦ inl (y, inr j)
  | inr (y, j) ↦ inr (y, inr j)
]

incoming_grows : (ps : List (Text × Text)) (c : Text → ℕ) (x : Text) → c x ≤ incoming ps c x
incoming_grows [] c x = omega arith
incoming_grows ((a, b) ∷ ps) c x = ground (arith, incoming_grows ps (bump b c) x)

-- A state that a transition leads to is counted.
pub incoming_some :
    (ps : List (Text × Text)) (c : Text → ℕ) (a x : Text) → IsIn (a, x) ps → 0 < incoming ps c x
incoming_some [] c a x i = elim i [ ]
incoming_some ((y, b) ∷ ps) c a x (inl e) =
    let grows = incoming_grows ps (bump b c) x in
    let same : b ≡ x = ap (λ z. z.1) e in ground (arith, grows, (text_eq_iff b x).1 same)
incoming_some ((y, b) ∷ ps) c a x (inr i) = incoming_some ps (bump b c) a x i

-- A state that no transition leads to is not.
pub incoming_none :
    (ps : List (Text × Text)) (c : Text → ℕ) (x : Text)
    → ((a : Text) → IsIn (a, x) ps → ⊥)
    → incoming ps c x ≡ c x
incoming_none [] c x h = refl
incoming_none ((y, b) ∷ ps) c x h =
    let ih = incoming_none ps (bump b c) x (λ a i. h a (inr i)) in
    let apart : b ≢ x = λ e. h y (inl (ap (λ z. (y, z)) e)) in
    ground (arith, ih, text_eq_iff b x, apart)

unreached_nil :
    (c : Text → ℕ) (ns : List Text) → ((x : Text) → IsIn x ns → 0 < c x) → unreached c ns ≡ []
unreached_nil c [] h = refl
unreached_nil c (n ∷ ns) h = ground (arith, unreached_nil c ns (λ x i. h x (inr i)), h n (inl refl))

-- A name that differs from all of a list is none of them.
no_self : (s n x : Text) (ns : List Text) → n ≡ s → All (λ y. n ≢ y) ns → IsIn x ns → x ≡ s → ⊥
no_self s n x [] q d i p = elim i [ ]
no_self s n x (y ∷ ns) q (d, ds) (inl e) p = d (q ∙ sym p ∙ sym e)
no_self s n x (y ∷ ns) q (d, ds) (inr i) p = no_self s n x ns q ds i p

-- One name that is not counted, among names that are.
pub unreached_one :
    (c : Text → ℕ) (s : Text) (ns : List Text)
    → AreDistinct ns
    → IsIn s ns
    → c s ≡ 0
    → ((x : Text) → IsIn x ns → x ≢ s → 0 < c x)
    → unreached c ns ≡ s ∷ []
unreached_one c s [] d i e h = elim i [ ]
unreached_one c s (n ∷ ns) (d, ds) (inl q) e h =
    let others = unreached_nil c ns (λ x i. h x (inr i) (λ p. no_self s n x ns q d i p)) in
    let zero : c n ≡ 0 = ap c q ∙ e in ground (arith, others, zero, q)
unreached_one c s (n ∷ ns) (d, ds) (inr i) e h =
    let rest = unreached_one c s ns ds i e (λ x j. h x (inr j)) in
    let some_n = h n (inl refl) (λ p. no_self s n s ns p d i refl) in ground (arith, rest, some_n)
