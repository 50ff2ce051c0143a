-- ===== src/Compiler/Check/Size.antt =====
-- How many states the deduction in src/bin/estate_cc_check.c leaves in the table of a machine.
use estate.Base.{
  All, IsIn, length, length-append, length-AreDistinct, ℕ, suc, ◌+◌, ◌*◌, ◌≡◌, ◌≢◌, ◌≤◌, ◌⊎◌, inl,
  inr, refl, ap, some, List, [], ◌∷◌, ◌++◌, Text, text_eq, text_eq_iff, arith, Bool-cases,
  Option-cases,
}
use estate.Eina.{Eina, EinaLaws}
use estate.Compiler.Data.{Store}
use estate.Compiler.Check.Deduce.{Deduced, ends_of}
use estate.Compiler.Check.Foreach.{Listed, IsForeach}
use estate.Compiler.Check.Table.{HasRoom}

length-ends_of : (ps : List (Text × Text)) → length (ends_of ps) ≡ 2 * length ps
length-ends_of [] = refl
length-ends_of ((a, b) ∷ ps) = omega (arith, length-ends_of ps)

IsIn-right : (x : Text) (xs ys : List Text) → IsIn x ys → IsIn x (xs ++ ys)
IsIn-right x [] ys i = i
IsIn-right x (y ∷ xs) ys i = inr (IsIn-right x xs ys i)

IsIn-left : (x : Text) (xs ys : List Text) → IsIn x xs → IsIn x (xs ++ ys)
IsIn-left x [] ys i = elim i [ ]
IsIn-left x (y ∷ xs) ys (inl e) = inl e
IsIn-left x (y ∷ xs) ys (inr i) = inr (IsIn-left x xs ys i)

pub IsIn-cases : (x : Text) (ns : List Text) → IsIn x ns ⊎ All (λ n. n ≢ x) ns
IsIn-cases x [] = inr tt
IsIn-cases x (n ∷ ns) = elim (Bool-cases (text_eq n x)) [
  | inl e ↦ inl (inl ((text_eq_iff n x).0 e))
  | inr e ↦ elim (IsIn-cases x ns) [
    | inl i ↦ inl (inr i)
    | inr a ↦ inr ((λ q. let same = (text_eq_iff n x).1 q in cc), a)
  ]
]

module _ (E : Eina) where
  length-Listed :
      (h : E.Hash) (ks : List Text) (vs : List ℕ) → Listed E h ks vs → length vs ≡ length ks
  length-Listed h [] [] l = refl
  length-Listed h [] (v ∷ vs) l = elim l [ ]
  length-Listed h (k ∷ ks) [] l = elim l [ ]
  length-Listed h (k ∷ ks) (v ∷ vs) l = ap suc (length-Listed h ks vs l.1)

  module _ (laws : EinaLaws E) (room : HasRoom E) (each : E.Hash → List ℕ)
      (every : IsForeach E each) where
    -- A state is one that was in the table, or an end of a transition.
    known :
        (m m' : Store E.Hash) (f : ℕ) (ps : List (Text × Text)) (c : Text → ℕ) (x : Text) (s : ℕ)
        → Deduced E laws room m m' f ps c
        → E.find (m'.fsms f).states x ≡ some s
        → IsIn x (every.keys (m.fsms f).states ++ ends_of ps)
    known m m' f ps c x s d e =
        let old = every.keys (m.fsms f).states in
        elim (Option-cases (E.find (m.fsms f).states x)) [
          | inr (p, q) ↦ IsIn-left x old (ends_of ps) (every.covers (m.fsms f).states x p q)
          | inl q ↦ elim (IsIn-cases x (ends_of ps)) [
            | inl i ↦ IsIn-right x old (ends_of ps) i
            | inr a ↦ let r = d.only x a q in cc
          ]
        ]

    each_known :
        (m m' : Store E.Hash) (f : ℕ) (ps : List (Text × Text)) (c : Text → ℕ) (ks : List Text)
        (vs : List ℕ)
        → Deduced E laws room m m' f ps c
        → Listed E (m'.fsms f).states ks vs
        → All (λ x. IsIn x (every.keys (m.fsms f).states ++ ends_of ps)) ks
    each_known m m' f ps c [] vs d l = tt
    each_known m m' f ps c (k ∷ ks) [] d l = elim l [ ]
    each_known m m' f ps c (k ∷ ks) (v ∷ vs) d l =
        (known m m' f ps c k v d l.0, each_known m m' f ps c ks vs d l.1)

    pub Deduced-length :
        (m m' : Store E.Hash) (f : ℕ) (ps : List (Text × Text)) (c : Text → ℕ)
        → Deduced E laws room m m' f ps c
        → length (each (m'.fsms f).states) ≤ length (each (m.fsms f).states) + 2 * length ps
    Deduced-length m m' f ps c d =
        let h = (m.fsms f).states in
        let h' = (m'.fsms f).states in
        let most =
          length-AreDistinct (every.keys h') (every.keys h ++ ends_of ps) (every.once h')
            (each_known m m' f ps c (every.keys h') (each h') d (every.visits h')) in
        omega (
          arith,
          most,
          length-append (every.keys h) (ends_of ps),
          length-ends_of ps,
          length-Listed h (every.keys h) (each h) (every.visits h),
          length-Listed h' (every.keys h') (each h') (every.visits h'),
        )
