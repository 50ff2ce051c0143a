-- ===== src/Compiler/Check/Foreach.antt =====
-- eina_hash_foreach on the table of states of a machine, as src/bin/estate_cc_check.c uses it: what
-- its elements are called.
use estate.Base.{
  inl, inr, AreDistinct, IsIn, All, ℕ, ◌≡◌, refl, sym, ap, subst, ◌∙◌, some, List, [], ◌∷◌, Text,
}
use estate.Eina.{Eina}
use estate.Compiler.Data.{Store}

module _ (E : Eina) where
  abbrev pub names : Store E.Hash → List ℕ → List Text
  names m [] = []
  names m (s ∷ ss) = (m.states s).name ∷ names m ss

  -- eina_hash_foreach visits what eina_hash_find finds.
  abbrev pub Visits : (E.Hash → List ℕ) → Type 0
  Visits each = (h : E.Hash) → All (λ s. (n : Text) × (E.find h n ≡ some s)) (each h)

  -- The elements of a table, with their keys.
  abbrev pub Listed : E.Hash → List Text → List ℕ → Type 0
  Listed h [] [] = Unit
  Listed h (k ∷ ks) (v ∷ vs) = (E.find h k ≡ some v) × Listed h ks vs
  Listed h _ _ = ⊥

  -- What eina_hash_foreach promises: it visits each element of a table once.
  pub record IsForeach (each : E.Hash → List ℕ) : Type 0 where
    pub keys : E.Hash → List Text
    pub once : (h : E.Hash) → AreDistinct (keys h)
    pub visits : (h : E.Hash) → Listed h (keys h) (each h)
    pub covers : (h : E.Hash) (k : Text) (v : ℕ) → E.find h k ≡ some v → IsIn k (keys h)

  Listed-found :
      (h : E.Hash) (ks : List Text) (vs : List ℕ)
      → Listed h ks vs
      → All (λ s. (n : Text) × (E.find h n ≡ some s)) vs
  Listed-found h [] [] l = tt
  Listed-found h [] (v ∷ vs) l = elim l [ ]
  Listed-found h (k ∷ ks) [] l = elim l [ ]
  Listed-found h (k ∷ ks) (v ∷ vs) l = ((k, l.0), Listed-found h ks vs l.1)

  pub IsForeach-Visits : (each : E.Hash → List ℕ) → IsForeach each → Visits each
  IsForeach-Visits each f h = Listed-found h (f.keys h) (each h) (f.visits h)

  -- States that stand under their names are called like their keys.
  names-keys :
      (m : Store E.Hash) (h : E.Hash) (ks : List Text) (vs : List ℕ)
      → ((n : Text) (s : ℕ) → E.find h n ≡ some s → (m.states s).name ≡ n)
      → Listed h ks vs
      → names m vs ≡ ks
  names-keys m h [] [] named l = refl
  names-keys m h [] (v ∷ vs) named l = elim l [ ]
  names-keys m h (k ∷ ks) [] named l = elim l [ ]
  names-keys m h (k ∷ ks) (v ∷ vs) named l =
      ap (λ x. x ∷ names m vs) (named k v l.0) ∙ ap (◌∷◌ k) (names-keys m h ks vs named l.1)

  -- A state of that name is in the table.
  pub names-find :
      (m : Store E.Hash) (h : E.Hash) (x : Text) (ks : List Text) (vs : List ℕ)
      → ((n : Text) (s : ℕ) → E.find h n ≡ some s → (m.states s).name ≡ n)
      → Listed h ks vs
      → IsIn x (names m vs)
      → (s : ℕ) × (E.find h x ≡ some s)
  names-find m h x [] [] named l i = elim i [ ]
  names-find m h x [] (v ∷ vs) named l i = elim l [ ]
  names-find m h x (k ∷ ks) [] named l i = elim i [ ]
  names-find m h x (k ∷ ks) (v ∷ vs) named l (inl e) =
      (v, subst (λ n. E.find h n ≡ some v) (sym (named k v l.0) ∙ e) l.0)
  names-find m h x (k ∷ ks) (v ∷ vs) named l (inr i) = names-find m h x ks vs named l.1 i

  -- The states of a table in which each stands under its name.
  pub record AreStates (m : Store E.Hash) (h : E.Hash) (ss : List ℕ) : Type 0 where
    pub distinct : AreDistinct (names m ss)
    pub all : (n : Text) (s : ℕ) → E.find h n ≡ some s → IsIn n (names m ss)

  pub IsForeach-AreStates :
      (each : E.Hash → List ℕ) (m : Store E.Hash) (h : E.Hash)
      → IsForeach each
      → ((n : Text) (s : ℕ) → E.find h n ≡ some s → (m.states s).name ≡ n)
      → AreStates m h (each h)
  IsForeach-AreStates each m h f named =
      let e = names-keys m h (f.keys h) (each h) named (f.visits h) in
      record {
        distinct = subst AreDistinct (sym e) (f.once h);
        all = λ n s q. subst (IsIn n) (sym e) (f.covers h n s q);
      }
