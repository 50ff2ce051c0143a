-- ===== src/Compiler/Check/Table.antt =====
-- The table of states while _state_deduction_cb of src/bin/estate_cc_check.c works on it: each state
-- stands under its name, and its field check.to counts the transitions that lead to it.
use estate.Base.{
  true, ℕ, suc, ◌+◌, ◌≡◌, ◌≢◌, ◌<◌, refl, sym, subst, inl, inr, none, some, Text, text_eq,
  text_eq_iff, text_eq_self, arith, if◌then◌else◌, Option-cases, Bool-cases, ◌⊎◌, ap, ◌∙◌, [], ◌==◌,
}
use estate.Eina.{Eina, EinaLaws}
use estate.Runtime.Outcome.{returns}
use estate.Compiler.Data.{State, Store, put, state_new, update, new_state, no_cb}
use estate.Compiler.Check.{u32, named_state, count_from, count_to, set_states}

-- One more for a name.
abbrev pub bump : Text → (Text → ℕ) → Text → ℕ
bump n c x = if text_eq n x then suc (c x) else c x

-- A state is another one but for its name and its counts, or it is a new one.
abbrev pub Alike : State → State → Type 0
Alike x y =
    ((y.trs ≡ x.trs) × (y.enterer ≡ x.enterer) × (y.exiter ≡ x.exiter))
    ⊎ ((y.trs ≡ []) × (y.enterer ≡ no_cb) × (y.exiter ≡ no_cb))

pub Alike-trans : (x y w : State) → Alike x y → Alike y w → Alike x w
Alike-trans x y w (inl (a, b, c)) (inl (d, e, f)) = inl (d ∙ a, e ∙ b, f ∙ c)
Alike-trans x y w (inr (a, b, c)) (inl (d, e, f)) = inr (d ∙ a, e ∙ b, f ∙ c)
Alike-trans x y w p (inr q) = inr q

-- Memory is found: by eina_hash_add for a new key, and by calloc.
abbrev pub HasRoom : Eina → Type 0
HasRoom E =
    ((h : E.Hash) (k : Text) (v : ℕ) → E.find h k ≡ none → (h' : E.Hash) × (E.add h k v ≡ some h'))
    × ((n : ℕ) → E.calloc n ≡ true)

module _ (E : Eina) where
  -- The state that a name stands for where memory is found, and the memory after one more transition
  -- that leaves it or leads to it.
  unfoldable pub reached : Store E.Hash → ℕ → Text → Store E.Hash × ℕ
  reached m f name = elim (E.find (m.fsms f).states name) [
    | some s ↦ (m, s)
    | none ↦
        let m' = record m { states = update m.states m.next (new_state name); next = m.next + 1 } in
        let fsm = record (m'.fsms f) { states = put E (m'.fsms f).states name m.next } in
        (record m' { fsms = update m'.fsms f fsm }, m.next)
  ]

  unfoldable pub counted_from : Store E.Hash → ℕ → Text → Store E.Hash
  counted_from m f name =
      let (m', s) = reached m f name in
      set_states m' s (record (m'.states s) { check_from = u32 ((m'.states s).check_from + 1) })

  unfoldable pub counted_to : Store E.Hash → ℕ → Text → Store E.Hash
  counted_to m f name =
      let (m', s) = reached m f name in
      set_states m' s (record (m'.states s) { check_to = u32 ((m'.states s).check_to + 1) })

  module _ (room : HasRoom E) where
    named_state-reached :
        (m : Store E.Hash) (f : ℕ) (n : Text) → named_state E m f n ≡ returns (reached m f n)
    unfolding named_state reached state_new
    named_state-reached m f n = elim (Option-cases (E.find (m.fsms f).states n)) [
      | inl e ↦ rw (e, named_state, reached) (rw (room.1 m.next, named_state) refl)
      | inr (s, e) ↦ rw (e, named_state, reached) refl
    ]

    pub count_from-counted :
        (m : Store E.Hash) (f : ℕ) (n : Text) → count_from E m f n ≡ returns (counted_from m f n)
    unfolding count_from counted_from
    count_from-counted m f n = rw (named_state-reached m f n, count_from) refl

    pub count_to-counted :
        (m : Store E.Hash) (f : ℕ) (n : Text) → count_to E m f n ≡ returns (counted_to m f n)
    unfolding count_to counted_to
    count_to-counted m f n = rw (named_state-reached m f n, count_to) refl

module _ (E : Eina) where
  -- The table of the machine `f` in the memory, where `c` counts the transitions to each name.
  pub record Counted (m : Store E.Hash) (f : ℕ) (c : Text → ℕ) : Type 0 where
    pub named : (n : Text) (s : ℕ) → E.find (m.fsms f).states n ≡ some s → (m.states s).name ≡ n
    pub below : (n : Text) (s : ℕ) → E.find (m.fsms f).states n ≡ some s → s < m.next
    pub counts :
        (n : Text) (s : ℕ) → E.find (m.fsms f).states n ≡ some s → (m.states s).check_to ≡ u32 (c n)
    pub absent : (n : Text) → E.find (m.fsms f).states n ≡ none → c n ≡ 0

  module _ (laws : EinaLaws E) (room : HasRoom E) where
    pub find-put :
        (h : E.Hash) (k j : Text) (v : ℕ)
        → E.find h k ≡ none
        → E.find (put E h k v) j ≡ (if text_eq k j then some v else E.find h j)
    find-put h k j v e = let (h', q) = room.0 h k v e in rw (q, put) (laws.find_add h h' k j v q e)

    -- What making a state does to the memory.
    abbrev made : Store E.Hash → ℕ → Text → Store E.Hash
    made m f n = record m {
      fsms = update m.fsms f (record (m.fsms f) { states = put E (m.fsms f).states n m.next });
      states = update m.states m.next (new_state n);
      next = m.next + 1;
    }

    made-Alike :
        (m : Store E.Hash) (f : ℕ) (n : Text) (p : ℕ) → Alike (m.states p) ((made m f n).states p)
    made-Alike m f n p = elim (Bool-cases (m.next == p)) [
      | inl e ↦ rw e (inr (refl, refl, refl))
      | inr e ↦ rw e (inl (refl, refl, refl))
    ]

    -- Writing other counts to a state.
    pub recount-Alike :
        (m : Store E.Hash) (s i j p : ℕ)
        → Alike
            (m.states p)
            ((set_states m s (record (m.states s) { check_from = i; check_to = j })).states p)
    recount-Alike m s i j p = elim (Bool-cases (s == p)) [
      | inl e ↦
          let q : s ≡ p = ground (arith, e) in
          rw e (
            inl (
              ap (λ x. (m.states x).trs) q,
              ap (λ x. (m.states x).enterer) q,
              ap (λ x. (m.states x).exiter) q,
            ))
      | inr e ↦ rw e (inl (refl, refl, refl))
    ]

    made-Counted :
        (m : Store E.Hash) (f : ℕ) (n : Text) (c : Text → ℕ)
        → E.find (m.fsms f).states n ≡ none
        → Counted m f c
        → Counted (made m f n) f c
    made-Counted m f n c e w = record {
      named = λ x s q. ground (
        arith,
        find-put (m.fsms f).states n x m.next e,
        w.named x s,
        w.below x s,
        text_eq_iff n x,
      );
      below = λ x s q. ground (arith, find-put (m.fsms f).states n x m.next e, w.below x s);
      counts = λ x s q. ground (
        arith,
        find-put (m.fsms f).states n x m.next e,
        w.counts x s,
        w.below x s,
        text_eq_iff n x,
        w.absent n,
      );
      absent = λ x q. ground (arith, find-put (m.fsms f).states n x m.next e, w.absent x);
    }

    -- Writing to a state the same name, and another count.
    pub recount-Counted :
        (m : Store E.Hash) (f : ℕ) (n : Text) (s : ℕ) (c : Text → ℕ)
        → E.find (m.fsms f).states n ≡ some s
        → Counted m f c
        → Counted
            (set_states m s (record (m.states s) { check_to = u32 ((m.states s).check_to + 1) }))
            f
            (bump n c)
    recount-Counted m f n s c e w = record {
      named = λ x s' q. ground (arith, w.named x s' q, w.named n s e);
      below = w.below;
      counts = λ x s' q.
          ground (
            arith,
            w.named x s' q,
            w.named n s e,
            text_eq_iff n x,
            w.counts x s' q,
            w.counts n s e,
          );
      absent = λ x q. ground (arith, text_eq_iff n x, w.absent x q);
    }

    -- Counting a transition that leaves a state.
    pub leave-Counted :
        (m : Store E.Hash) (f : ℕ) (n : Text) (s k : ℕ) (c : Text → ℕ)
        → E.find (m.fsms f).states n ≡ some s
        → Counted m f c
        → Counted (set_states m s (record (m.states s) { check_from = k })) f c
    leave-Counted m f n s k c e w = record {
      named = λ x s' q. ground (arith, w.named x s' q, w.named n s e);
      below = w.below;
      counts = λ x s' q. ground (arith, w.counts x s' q, w.counts n s e);
      absent = w.absent;
    }

    -- What a call of named_state has done: the state is in the table, and the transitions, the
    -- other names and the counts are as they were.
    pub record Named (m m' : Store E.Hash) (f : ℕ) (n : Text) (s : ℕ) (c : Text → ℕ) : Type 0 where
      pub found : E.find (m'.fsms f).states n ≡ some s
      pub counted : Counted m' f c
      pub transits : m'.transits ≡ m.transits
      pub init : (m'.fsms f).init ≡ (m.fsms f).init
      pub transitions : (m'.fsms f).transitions ≡ (m.fsms f).transitions
      pub alike : (p : ℕ) → Alike (m.states p) (m'.states p)
      pub keeps :
          (x : Text) (p : ℕ)
          → E.find (m.fsms f).states x ≡ some p
          → E.find (m'.fsms f).states x ≡ some p
      pub only :
          (x : Text)
          → n ≢ x
          → E.find (m.fsms f).states x ≡ none
          → E.find (m'.fsms f).states x ≡ none

    reached_new :
        (m : Store E.Hash) (f : ℕ) (n : Text)
        → E.find (m.fsms f).states n ≡ none
        → reached E m f n ≡ (made m f n, m.next)
    unfolding reached
    reached_new m f n e = rw (e, reached)

    reached_old :
        (m : Store E.Hash) (f : ℕ) (n : Text) (s : ℕ)
        → E.find (m.fsms f).states n ≡ some s
        → reached E m f n ≡ (m, s)
    unfolding reached
    reached_old m f n s e = rw (e, reached)

    pub reached-Named :
        (m : Store E.Hash) (f : ℕ) (n : Text) (c : Text → ℕ)
        → Counted m f c
        → let (m', s) = reached E m f n in Named m m' f n s c
    reached-Named m f n c w = elim (Option-cases (E.find (m.fsms f).states n)) [
      | inl e ↦
          subst (λ r. Named m r.0 f n r.1 c) (sym (reached_new m f n e))
            (record {
              found = ground (arith, find-put (m.fsms f).states n n m.next e, text_eq_self n);
              counted = made-Counted m f n c e w;
              transits = refl;
              init = ground arith;
              transitions = ground arith;
              alike = made-Alike m f n;
              keeps =
                  λ x p q. ground (arith, find-put (m.fsms f).states n x m.next e, text_eq_iff n x);
              only =
                  λ x d q. ground (arith, find-put (m.fsms f).states n x m.next e, text_eq_iff n x);
            })
      | inr (s, e) ↦
          subst (λ r. Named m r.0 f n r.1 c) (sym (reached_old m f n s e))
            (record {
              found = e;
              counted = w;
              transits = refl;
              init = refl;
              transitions = refl;
              alike = λ p. inl (refl, refl, refl);
              keeps = λ x p q. q;
              only = λ x d q. q;
            })
    ]
