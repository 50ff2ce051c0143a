-- ===== src/Base/Lists.antt =====
-- Lists measured and indexed by native numbers, under the library's names.
use Prim.Native.Nat.{ℕ, zero, suc, ◌+◌, ◌<◌, ◌≤◌}
use mathlib.Core.Path.{◌≡◌, refl, sym, ap, subst, ◌∙◌}
use mathlib.Core.Logic.{◌≢◌, ◌⊎◌, inl, inr}
use mathlib.Core.List.{List, [], ◌∷◌, ◌++◌}
use mathlib.Core.Option.{Option, none, some}
use native.Mathlib.Omega.{arith}

module _ {ℓ} {A : Type ℓ} where
  abbrev pub length : List A → ℕ
  length [] = 0
  length (x ∷ xs) = suc (length xs)

  abbrev pub get_elem? : List A → ℕ → Option A
  get_elem? [] i = none
  get_elem? (x ∷ xs) zero = some x
  get_elem? (x ∷ xs) (suc i) = get_elem? xs i

  abbrev pub take : ℕ → List A → List A
  take zero xs = []
  take (suc n) [] = []
  take (suc n) (x ∷ xs) = x ∷ take n xs

  abbrev pub replicate : ℕ → A → List A
  replicate zero a = []
  replicate (suc n) a = a ∷ replicate n a

  pub length-append : (xs ys : List A) → length (xs ++ ys) ≡ length xs + length ys
  length-append [] ys = omega arith
  length-append (x ∷ xs) ys = omega (arith, length-append xs ys)

  pub get_elem?_lt : (xs : List A) (i : ℕ) → i < length xs → (a : A) × (get_elem? xs i ≡ some a)
  get_elem?_lt [] i h = elim h [ ]
  get_elem?_lt (x ∷ xs) zero h = (x, refl)
  get_elem?_lt (x ∷ xs) (suc i) h = get_elem?_lt xs i (omega arith)

  -- Every element of the list satisfies `P`.
  abbrev pub All {κ} : (A → Type κ) → List A → Type κ
  All P [] = Unit
  All P (x ∷ xs) = P x × All P xs

module _ {ℓ} {A : Type ℓ} where
  pub All-append {κ} : (P : A → Type κ) (xs ys : List A) → All P xs → All P ys → All P (xs ++ ys)
  All-append P [] ys hx hy = hy
  All-append P (x ∷ xs) ys hx hy = (hx.0, All-append P xs ys hx.1 hy)

  pub All-get {κ} :
      (P : A → Type κ) (xs : List A) (i : ℕ) (a : A) → All P xs → get_elem? xs i ≡ some a → P a
  All-get P [] i a h e = cc
  All-get P (x ∷ xs) zero a h e = subst P (cc) h.0
  All-get P (x ∷ xs) (suc i) a h e = All-get P xs i a h.1 e

  pub take-length : (xs : List A) → take (length xs) xs ≡ xs
  take-length [] = refl
  take-length (x ∷ xs) = ap (◌∷◌ x) (take-length xs)

module _ {A : Type 0} where
  -- The list holds the element.
  abbrev pub IsIn : A → List A → Type 0
  IsIn a [] = ⊥
  IsIn a (x ∷ xs) = (x ≡ a) ⊎ IsIn a xs

  -- No two elements of the list are the same.
  abbrev pub AreDistinct : List A → Type 0
  AreDistinct [] = Unit
  AreDistinct (x ∷ xs) = All (λ y. x ≢ y) xs × AreDistinct xs

  -- The list without one occurrence of an element.
  take_out :
      (a : A) (xs : List A)
      → IsIn a xs
      → (ys : List A) × (length xs ≡ suc (length ys)) × ((x : A) → a ≢ x → IsIn x xs → IsIn x ys)
  take_out a [] i = elim i [ ]
  take_out a (y ∷ ys) (inl e) =
      (ys, refl, λ x d i. elim i [ inl q ↦ absurd (d (sym e ∙ q)) | inr q ↦ q ])
  take_out a (y ∷ ys) (inr i) =
      let (zs, size, keeps) = take_out a ys i in
      (y ∷ zs, ap suc size, λ x d j. elim j [ inl q ↦ inl q | inr q ↦ inr (keeps x d q) ])

  keep_others :
      (a : A) (xs ys zs : List A)
      → ((x : A) → a ≢ x → IsIn x ys → IsIn x zs)
      → All (λ x. a ≢ x) xs
      → All (λ x. IsIn x ys) xs
      → All (λ x. IsIn x zs) xs
  keep_others a [] ys zs k d i = tt
  keep_others a (x ∷ xs) ys zs k d i = (k x d.0 i.0, keep_others a xs ys zs k d.1 i.1)

  -- Distinct elements of a list are at most as many as the list has.
  pub length-AreDistinct :
      (xs ys : List A) → AreDistinct xs → All (λ x. IsIn x ys) xs → length xs ≤ length ys
  length-AreDistinct [] ys d i = omega arith
  length-AreDistinct (x ∷ xs) ys d i =
      let (zs, size, keeps) = take_out x ys i.0 in
      omega (arith, size, length-AreDistinct xs zs d.1 (keep_others x xs ys zs keeps d.0 i.1))
