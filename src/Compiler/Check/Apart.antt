-- ===== src/Compiler/Check/Apart.antt =====
-- The pairs of states that _state_deduction_cb of src/bin/estate_cc_check.c compares as texts.
use estate.Base.{
  AreDistinct, All, ℕ, ◌≡◌, ◌≢◌, ◌↔◌, refl, sym, ap, ◌∙◌, inl, inr, true, false, some, List, [],
  ◌∷◌, Text, text_eq, text_eq_iff, arith, Bool-cases,
}
use estate.Eina.{Eina, EinaLaws}
use estate.Compiler.Data.{Store}
use estate.Compiler.Check.{Cache, state_deduction, foreach}
use estate.Compiler.Check.Table.{HasRoom, Counted}
use estate.Compiler.Check.Deduce.{pair, mem, all_new, Joins, Deduced, Holds, deduction-Ends}
use estate.Runtime.Outcome.{returns}

abbrev pub HasNoColon : Text → Type 0
HasNoColon t = All (λ c. c ≢ b':') t

abbrev pub AreNames : List (Text × Text) → Type 0
AreNames ps = All (λ (a, b). HasNoColon a × HasNoColon b) ps

-- Without a colon in the names, a pair is read off its text.
pair-injective :
    (a b c d : Text) → HasNoColon a → HasNoColon c → pair (a, b) ≡ pair (c, d) → (a ≡ c) × (b ≡ d)
pair-injective [] b [] d ha hc e = (refl, cc)
pair-injective [] b (x ∷ c) d ha hc e = ground (arith, hc.0)
pair-injective (x ∷ a) b [] d ha hc e = ground (arith, ha.0)
pair-injective (x ∷ a) b (y ∷ c) d ha hc e = ground (arith, pair-injective a b c d ha.1 hc.1)

-- The pairs are none of those seen.
abbrev AreNew : List Text → List (Text × Text) → Type 0
AreNew seen ps = All (λ q. mem (pair q) seen ≡ false) ps

AreNew-cons :
    (p : Text × Text) (seen : List Text) (ps : List (Text × Text))
    → HasNoColon p.0
    → AreNames ps
    → AreNew (pair p ∷ seen) ps
    → AreNew seen ps × All (λ q. p ≢ q) ps
AreNew-cons p seen [] hp hs n = (tt, tt)
AreNew-cons (a, b) seen ((c, d) ∷ ps) hp hs n =
    let ih = AreNew-cons (a, b) seen ps hp hs.1 n.1 in
    let same = text_eq_iff (pair (a, b)) (pair (c, d)) in
    ((ground (arith, n.0), ih.0), (λ e. let q = ap pair e in ground (arith, n.0, same, q), ih.1))

cons-AreNew :
    (p : Text × Text) (seen : List Text) (ps : List (Text × Text))
    → HasNoColon p.0
    → AreNames ps
    → AreNew seen ps
    → All (λ q. p ≢ q) ps
    → AreNew (pair p ∷ seen) ps
cons-AreNew p seen [] hp hs n d = tt
cons-AreNew (a, b) seen ((c, d) ∷ ps) hp hs n apart =
    let ih = cons-AreNew (a, b) seen ps hp hs.1 n.1 apart.1 in
    elim (Bool-cases (text_eq (pair (a, b)) (pair (c, d)))) [
      | inl e ↦
          let (p, q) =
            pair-injective a b c d hp hs.0.0 ((text_eq_iff (pair (a, b)) (pair (c, d))).0 e) in
          absurd (apart.0 (ap (λ x. (x, b)) p ∙ ap (λ y. (c, y)) q))
      | inr e ↦ (ground (arith, e, n.0), ih)
    ]

all_unseen : (ps : List (Text × Text)) → AreNew [] ps
all_unseen [] = tt
all_unseen (p ∷ ps) = (refl, all_unseen ps)

all_new-AreDistinct :
    (seen : List Text) (ps : List (Text × Text))
    → AreNames ps
    → (all_new seen ps ≡ true) ↔ (AreNew seen ps × AreDistinct ps)
all_new-AreDistinct seen [] hs = (λ e. (tt, tt), λ e. refl)
all_new-AreDistinct seen (p ∷ ps) hs = elim (Bool-cases (mem (pair p) seen)) [
  | inl e ↦ (λ q. ground (arith, e, q), λ q. ground (arith, e, q.0.0))
  | inr e ↦
      let ih = all_new-AreDistinct (pair p ∷ seen) ps hs.1 in
      (
        λ q.
            let (n, a) = ih.0 (ground (arith, e, q)) in
            let (m, d) = AreNew-cons p seen ps hs.0.0 hs.1 n in ((e, m), (d, a)),
        λ q.
            let r = ih.1 (cons-AreNew p seen ps hs.0.0 hs.1 q.0.1 q.1.0, q.1.1) in
            ground (arith, e, r),
      )
]

module _ (E : Eina) (laws : EinaLaws E) (room : HasRoom E) where
  -- With an empty table of pairs, where the states of a machine count `c` transitions to each name,
  -- and its transitions join pairs of names without a colon that fit the buffer, and where memory is
  -- found, the deduction ends
  -- without a fault. It accepts the machine if and only if no two of the pairs are the same. Then
  -- the ends of each transition are states of the machine, every state counts the transitions that
  -- lead to it, and no state that was there is lost.
  pub state_deduction-AreDistinct :
      (m : Store E.Hash) (k : Cache E.Hash) (ts : List ℕ) (ps : List (Text × Text)) (c : Text → ℕ)
      → E.hash_new ≡ some k.hash
      → k.ok ≡ true
      → Counted E m k.states c
      → Joins m.transits ts ps
      → AreNames ps
      → (m' : Store E.Hash) × (k' : Cache E.Hash) × (foreach (state_deduction E) (m, k) ts
          ≡ returns (m', k'))
        × (k'.ok ≡ true ↔ AreDistinct ps)
        × (k'.ok ≡ true → Deduced E laws room m m' k.states ps c)
  state_deduction-AreDistinct m k ts ps c made o w j hs =
      let empty : Holds E k.hash [] = λ x. ground (arith, laws.find_new k.hash x made) in
      let (m', k', runs, good, _, d) = deduction-Ends E laws room ts ps m k [] c w j empty o in
      let (to, fro) = all_new-AreDistinct [] ps hs in
      (m', k', runs, (λ e. (to (sym good ∙ e)).1, λ a. good ∙ fro (all_unseen ps, a)), d)
