-- ===== src/Compiler/Check/Deduce.antt =====
-- _state_deduction_cb of src/bin/estate_cc_check.c over the transitions of a machine: it makes the
-- states that they name, counts the transitions that lead to each, and finds a pair of states that
-- two transitions join.
use estate.Base.{
  ◌≢◌, All, ℕ, ◌≡◌, ◌<◌, refl, sym, ap, subst, ◌∙◌, inl, inr, Bool, true, false, ◌||◌, Option, none,
  some, List, [], ◌∷◌, ◌++◌, Text, length, text_eq, lt→ltb, arith, if◌then◌else◌, Option-cases,
}
use estate.Eina.{Eina, EinaLaws}
use estate.Compiler.Data.{Transit, Store, put}
use estate.Compiler.Check.{Cache, mark_pair, pair_name, state_deduction, foreach}
use estate.Compiler.Check.Table.{
  counted_from, counted_to, count_from-counted, count_to-counted, Alike, Alike-trans, bump, HasRoom,
  Counted, find-put,
}
use estate.Runtime.Outcome.{returns}
use estate.Compiler.Check.Found.{counted_from-Found, counted_to-Found}

abbrev pub pair : Text × Text → Text
pair (a, b) = a ++ b':' ∷ b

-- The ends of the transitions, each pair of which fits the buffer.
abbrev pub Joins : (ℕ → Transit) → List ℕ → List (Text × Text) → Type 0
Joins tr [] [] = Unit
Joins tr (t ∷ ts) ((a, b) ∷ ps) =
    ((tr t).from ≡ some a) × ((tr t).to ≡ some b) × (length (pair (a, b)) < 2048) × Joins tr ts ps
Joins tr _ _ = ⊥

-- Both ends of each of the transitions.
abbrev pub ends_of : List (Text × Text) → List Text
ends_of [] = []
ends_of ((a, b) ∷ ps) = a ∷ b ∷ ends_of ps

abbrev pub mem : Text → List Text → Bool
mem x [] = false
mem x (y ∷ ys) = text_eq y x || mem x ys

-- No pair of states is joined twice, nor is it among those seen.
abbrev pub all_new : List Text → List (Text × Text) → Bool
all_new seen [] = true
all_new seen (p ∷ ps) =
    let rest = all_new (pair p ∷ seen) ps in if mem (pair p) seen then false else rest

-- The transitions counted for each name that they lead to.
abbrev pub incoming : List (Text × Text) → (Text → ℕ) → Text → ℕ
incoming [] c = c
incoming (p ∷ ps) c = incoming ps (bump p.1 c)

abbrev pub is_some {ℓ} : {A : Type ℓ} → Option A → Bool
is_some none = false
is_some (some a) = true

module _ (E : Eina) where
  -- The memory after the two states of a transition.
  abbrev deduced : Store E.Hash → ℕ → Text → Text → Store E.Hash
  deduced m f a b = counted_to E (counted_from E m f a) f b

  -- The table holds the pairs seen.
  abbrev pub Holds : E.Hash → List Text → Type 0
  Holds h seen = (x : Text) → is_some (E.find h x) ≡ mem x seen

  module _ (laws : EinaLaws E) (room : HasRoom E) where
    -- One call.
    state_deduction_mark :
        (m : Store E.Hash) (k : Cache E.Hash) (t : ℕ) (a b : Text) (c : Text → ℕ)
        → Counted E m k.states c
        → (m.transits t).from ≡ some a
        → (m.transits t).to ≡ some b
        → length (pair (a, b)) < 2048
        → state_deduction E (m, k) t ≡ mark_pair E (deduced m k.states a b) k (pair (a, b)) t
    unfolding state_deduction pair_name
    state_deduction_mark m k t a b c w from to fits =
        let still =
          ap (λ tr. (tr t).to) (counted_from-Found E laws room m k.states a c w).transits ∙ to in
        rw (from, state_deduction)
          (rw (count_from-counted E room m k.states a, state_deduction)
            (rw (still, state_deduction)
              (rw
                (count_to-counted E room (counted_from E m k.states a) k.states b, state_deduction)
                (rw (lt→ltb _ _ fits)))))

    Holds-put :
        (h : E.Hash) (seen : List Text) (n : Text) (t : ℕ)
        → Holds h seen
        → E.find h n ≡ none
        → Holds (put E h n t) (n ∷ seen)
    Holds-put h seen n t hs e x = ground (arith, find-put E laws room h n x t e, hs x)

    -- The states of the machine `f` after the transitions that join `ps`.
    pub record Deduced (m m' : Store E.Hash) (f : ℕ) (ps : List (Text × Text)) (c : Text → ℕ)
        : Type 0 where
      pub counted : Counted E m' f (incoming ps c)
      pub init : (m'.fsms f).init ≡ (m.fsms f).init
      pub transits : m'.transits ≡ m.transits
      pub transitions : (m'.fsms f).transitions ≡ (m.fsms f).transitions
      pub alike : (p : ℕ) → Alike (m.states p) (m'.states p)
      pub keeps :
          (x : Text) (p : ℕ)
          → E.find (m.fsms f).states x ≡ some p
          → E.find (m'.fsms f).states x ≡ some p
      pub only :
          (x : Text)
          → All (λ n. n ≢ x) (ends_of ps)
          → E.find (m.fsms f).states x ≡ none
          → E.find (m'.fsms f).states x ≡ none
      pub ends :
          All
            (λ (a, b).
              ((s : ℕ) × (E.find (m'.fsms f).states a ≡ some s))
              × ((s : ℕ) × (E.find (m'.fsms f).states b ≡ some s)))
            ps

    both-Deduced :
        (m m' : Store E.Hash) (f : ℕ) (a b : Text) (ps : List (Text × Text)) (c : Text → ℕ)
        → Counted E m f c
        → Deduced (deduced m f a b) m' f ps (bump b c)
        → Deduced m m' f ((a, b) ∷ ps) c
    both-Deduced m m' f a b ps c w d =
        let from = counted_from-Found E laws room m f a c w in
        let to = counted_to-Found E laws room (counted_from E m f a) f b c from.counted in
        let (s, at) = from.found in
        let (u, ut) = to.found in
        record {
          counted = d.counted;
          init = d.init ∙ to.init ∙ from.init;
          transits = d.transits ∙ to.transits ∙ from.transits;
          transitions = d.transitions ∙ to.transitions ∙ from.transitions;
          alike = λ p.
              let m1 = counted_from E m f a in
              Alike-trans (m.states p) (m1.states p) (m'.states p) (from.alike p) (
                Alike-trans (m1.states p) ((deduced m f a b).states p) (m'.states p) (to.alike p)
                  (d.alike p));
          keeps = λ x p e. d.keeps x p (to.keeps x p (from.keeps x p e));
          only = λ x h e. d.only x h.1.1 (to.only x h.1.0 (from.only x h.0 e));
          ends = (((s, d.keeps a s (to.keeps a s at)), (u, d.keeps b u ut)), d.ends);
        }

    -- What the deduction over transitions that join `ps` guarantees.
    abbrev pub Ends :
        Store E.Hash → Cache E.Hash → List ℕ → List (Text × Text) → List Text → (Text → ℕ) → Type 0
    Ends m k ts ps seen c =
        (m' : Store E.Hash) × (k' : Cache E.Hash) × (foreach (state_deduction E) (m, k) ts
          ≡ returns (m', k'))
        × (k'.ok ≡ all_new seen ps)
        × (k'.states ≡ k.states)
        × (k'.ok ≡ true → Deduced m m' k.states ps c)

    foreach_stops :
        (m m' : Store E.Hash) (k k' : Cache E.Hash) (t : ℕ) (ts : List ℕ)
        → state_deduction E (m, k) t ≡ returns ((m', k'), false)
        → foreach (state_deduction E) (m, k) (t ∷ ts) ≡ returns (m', k')
    unfolding foreach
    foreach_stops m m' k k' t ts e = rw (e, foreach)

    foreach_goes :
        (m m' : Store E.Hash) (k k' : Cache E.Hash) (t : ℕ) (ts : List ℕ)
        → state_deduction E (m, k) t ≡ returns ((m', k'), true)
        → foreach (state_deduction E) (m, k) (t ∷ ts) ≡ foreach (state_deduction E) (m', k') ts
    unfolding foreach
    foreach_goes m m' k k' t ts e = rw (e, foreach)

    mark_old :
        (m : Store E.Hash) (k : Cache E.Hash) (sh : Text) (t old : ℕ)
        → E.find k.hash sh ≡ some old
        → mark_pair E m k sh t ≡ returns ((m, record k { ok = false }), false)
    unfolding mark_pair
    mark_old m k sh t old e = rw (e, mark_pair)

    mark_new :
        (m : Store E.Hash) (k : Cache E.Hash) (sh : Text) (t : ℕ)
        → E.find k.hash sh ≡ none
        → mark_pair E m k sh t ≡ returns ((m, record k { hash = put E k.hash sh t }), true)
    unfolding mark_pair
    mark_new m k sh t e = rw (e, mark_pair)

    pub deduction-Ends :
        (ts : List ℕ) (ps : List (Text × Text)) (m : Store E.Hash) (k : Cache E.Hash)
        (seen : List Text) (c : Text → ℕ)
        → Counted E m k.states c
        → Joins m.transits ts ps
        → Holds k.hash seen
        → k.ok ≡ true
        → Ends m k ts ps seen c
    unfolding foreach
    deduction-Ends [] [] m k seen c w j h o = (
      m,
      k,
      refl,
      o,
      refl,
      λ e. record {
        counted = w;
        init = refl;
        transits = refl;
        transitions = refl;
        alike = λ p. inl (refl, refl, refl);
        keeps = λ x p q. q;
        only = λ x h q. q;
        ends = tt;
      },
    )
    deduction-Ends [] (p ∷ ps) m k seen c w j h o = elim j [ ]
    deduction-Ends (t ∷ ts) [] m k seen c w j h o = elim j [ ]
    deduction-Ends (t ∷ ts) ((a, b) ∷ ps) m k seen c w j h o =
        let marks = state_deduction_mark m k t a b c w j.0 j.1 j.2 in
        let m1 = deduced m k.states a b in
        elim (Option-cases (E.find k.hash (pair (a, b)))) [
          | inr (old, e) ↦ (
            m1,
            record k { ok = false },
            foreach_stops m m1 k (record k { ok = false }) t ts (marks ∙ mark_old m1 k _ t old e),
            ground (arith, h (pair (a, b)), e),
            refl,
            λ q. cc,
          )
          | inl e ↦
              let k1 = record k { hash = put E k.hash (pair (a, b)) t } in
              let from = counted_from-Found E laws room m k.states a c w in
              let to =
                counted_to-Found E laws room (counted_from E m k.states a) k.states b c
                  from.counted in
              let (m', k', runs, good, at, d) =
                deduction-Ends ts ps m1 k1 (pair (a, b) ∷ seen) (bump b c) to.counted
                  (subst (λ tr. Joins tr ts ps) (sym (to.transits ∙ from.transits)) j.3)
                  (Holds-put k.hash seen (pair (a, b)) t h e) o in
              (
                m',
                k',
                foreach_goes m m1 k k1 t ts (marks ∙ mark_new m1 k _ t e) ∙ runs,
                good ∙ ground (arith, h (pair (a, b)), e),
                at,
                λ q. both-Deduced m m' k.states a b ps c w (d q),
              )
        ]
