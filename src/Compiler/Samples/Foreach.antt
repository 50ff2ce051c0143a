-- ===== src/Compiler/Samples/Foreach.antt =====
-- A walk over the hash table of the tests, which keeps what eina_hash_foreach promises.
use estate.Base.{
  All, AreDistinct, IsIn, ℕ, ◌≡◌, ◌≢◌, inl, inr, refl, sym, subst, ap, ◌∙◌, true, none, some, List,
  [], ◌∷◌, Text, text_eq, text_eq_iff, text_eq_self, if◌then◌else◌, arith, Bool-cases,
}
use estate.Compiler.Check.Foreach.{Listed, IsForeach}
use estate.Compiler.Check.Table.{HasRoom}
use estate.Compiler.Samples.{lookup, table}
use estate.Eina.{EinaLaws}

pub table_laws : EinaLaws table
table_laws = record {
  find_new = λ h k e. let q : h ≡ [] = cc in rw q;
  find_add = λ h h' k j v e f. let q : (k, v) ∷ h ≡ h' = cc in rw (← q);
  addr_injective = λ a b p q e. elim p [ ];
  addr_range = λ a p. elim p [ ];
}

pub table_room : HasRoom table
table_room = ((λ h k v e. (_, refl)), λ n. refl)

abbrev remove : Text → List Text → List Text
remove k [] = []
remove k (x ∷ xs) = let rest = remove k xs in if text_eq k x then rest else x ∷ rest

abbrev keys_of : List (Text × ℕ) → List Text
keys_of [] = []
keys_of ((k, v) ∷ h) = k ∷ remove k (keys_of h)

abbrev values_of : List (Text × ℕ) → List Text → List ℕ
values_of h [] = []
values_of h (k ∷ ks) =
    let rest = values_of h ks in elim (lookup h k) [ none ↦ rest | some v ↦ v ∷ rest ]

-- The value that is found for each key.
abbrev pub walk : table.Hash → List ℕ
walk h = values_of h (keys_of h)

All-remove : (P : Text → Type 0) (k : Text) (xs : List Text) → All P xs → All P (remove k xs)
All-remove P k [] a = tt
All-remove P k (x ∷ xs) (p, a) = elim (Bool-cases (text_eq k x)) [
  | inl e ↦ rw e (All-remove P k xs a)
  | inr e ↦ rw e (p, All-remove P k xs a)
]

remove-others : (k : Text) (xs : List Text) → All (λ x. k ≢ x) (remove k xs)
remove-others k [] = tt
remove-others k (x ∷ xs) = elim (Bool-cases (text_eq k x)) [
  | inl e ↦ rw e (remove-others k xs)
  | inr e ↦ rw e ((λ q. let same = (text_eq_iff k x).1 q in cc), remove-others k xs)
]

remove-AreDistinct : (k : Text) (xs : List Text) → AreDistinct xs → AreDistinct (remove k xs)
remove-AreDistinct k [] d = tt
remove-AreDistinct k (x ∷ xs) (a, d) = elim (Bool-cases (text_eq k x)) [
  | inl e ↦ rw e (remove-AreDistinct k xs d)
  | inr e ↦ rw e (All-remove (λ y. x ≢ y) k xs a, remove-AreDistinct k xs d)
]

remove-IsIn : (k x : Text) (xs : List Text) → text_eq k x ≢ true → IsIn x xs → IsIn x (remove k xs)
remove-IsIn k x [] d i = elim i [ ]
remove-IsIn k x (y ∷ ys) d i = elim (Bool-cases (text_eq k y)) [
  | inl e ↦
      rw e (elim i [
        | inl q ↦ absurd (d (ap (text_eq k) (sym q) ∙ e))
        | inr j ↦ remove-IsIn k x ys d j
      ])
  | inr e ↦ rw e (elim i [ inl q ↦ inl q | inr j ↦ inr (remove-IsIn k x ys d j) ])
]

keys_of-AreDistinct : (h : List (Text × ℕ)) → AreDistinct (keys_of h)
keys_of-AreDistinct [] = tt
keys_of-AreDistinct ((k, v) ∷ h) =
    (remove-others k (keys_of h), remove-AreDistinct k (keys_of h) (keys_of-AreDistinct h))

abbrev IsFound : List (Text × ℕ) → Text → Type 0
IsFound h k = (v : ℕ) × (lookup h k ≡ some v)

IsFound-cons :
    (k : Text) (v : ℕ) (h : List (Text × ℕ)) (xs : List Text)
    → All (IsFound h) xs
    → All (IsFound ((k, v) ∷ h)) xs
IsFound-cons k v h [] a = tt
IsFound-cons k v h (x ∷ xs) ((w, e), a) = elim (Bool-cases (text_eq k x)) [
  | inl q ↦ ((v, rw q refl), IsFound-cons k v h xs a)
  | inr q ↦ ((w, rw q e), IsFound-cons k v h xs a)
]

keys_of-IsFound : (h : List (Text × ℕ)) → All (IsFound h) (keys_of h)
keys_of-IsFound [] = tt
keys_of-IsFound ((k, v) ∷ h) = (
  (v, rw (text_eq_self k) refl),
  All-remove (IsFound ((k, v) ∷ h)) k (keys_of h)
      (IsFound-cons k v h (keys_of h) (keys_of-IsFound h)),
)

values_of-Listed :
    (h : List (Text × ℕ)) (ks : List Text) → All (IsFound h) ks → Listed table h ks (values_of h ks)
values_of-Listed h [] a = tt
values_of-Listed h (k ∷ ks) ((v, e), a) =
    let same : values_of h (k ∷ ks) ≡ v ∷ values_of h ks = rw (e, values_of) refl in
    subst (Listed table h (k ∷ ks)) (sym same) (e, values_of-Listed h ks a)

keys_of-IsIn : (h : List (Text × ℕ)) (k : Text) (v : ℕ) → lookup h k ≡ some v → IsIn k (keys_of h)
keys_of-IsIn [] k v e = cc
keys_of-IsIn ((j, w) ∷ h) k v e = elim (Bool-cases (text_eq j k)) [
  | inl q ↦ inl ((text_eq_iff j k).0 q)
  | inr q ↦ inr (remove-IsIn j k (keys_of h) (λ r. cc) (keys_of-IsIn h k v (ground (arith, e, q))))
]

pub walk-IsForeach : IsForeach table walk
walk-IsForeach = record {
  keys = keys_of;
  once = keys_of-AreDistinct;
  visits = λ h. values_of-Listed h (keys_of h) (keys_of-IsFound h);
  covers = keys_of-IsIn;
}
