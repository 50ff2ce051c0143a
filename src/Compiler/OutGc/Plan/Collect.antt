-- ===== src/Compiler/OutGc/Plan/Collect.antt =====
-- What the collecting of transitions by src/bin/estate_cc_out_gc.c does to the table of a state.
use estate.Base.{
  ℕ, ◌≡◌, ◌≢◌, inl, inr, refl, sym, subst, ap, ◌∙◌, true, false, List, [], ◌∷◌, ◌++◌, Text, arith,
  Bool-cases,
}
use mathlib.Core.List.{append_assoc, append-nil}
use estate.Compiler.Data.{Transit, Store}
use estate.Compiler.OutGc.{same_name, set_trs, from_cache, from_cache_all}
use estate.Compiler.OutGc.Plan.{leaving, leaving-cons}

module _ {H : Type 0} where
  -- What collecting the transitions of the state `s` does.
  pub record Collected (m m' : Store H) (s : ℕ) (new : List ℕ) : Type 0 where
    pub transits : m'.transits ≡ m.transits
    pub fsms : m'.fsms ≡ m.fsms
    pub trs : (m'.states s).trs ≡ (m.states s).trs ++ new
    pub name : (m'.states s).name ≡ (m.states s).name
    pub enterer : (m'.states s).enterer ≡ (m.states s).enterer
    pub exiter : (m'.states s).exiter ≡ (m.states s).exiter
    pub others : (a : ℕ) → a ≢ s → m'.states a ≡ m.states a

  pub set_trs-Collected :
      (m : Store H) (s : ℕ) (new : List ℕ)
      → Collected m (set_trs m s ((m.states s).trs ++ new)) s new
  set_trs-Collected m s new = record {
    transits = refl;
    fsms = refl;
    trs = ground arith;
    name = ground arith;
    enterer = ground arith;
    exiter = ground arith;
    others = λ a d. ground (arith, d);
  }

  pub Collected-trans :
      (m m1 m2 : Store H) (s : ℕ) (a b : List ℕ)
      → Collected m m1 s a
      → Collected m1 m2 s b
      → Collected m m2 s (a ++ b)
  Collected-trans m m1 m2 s a b c d = record {
    transits = d.transits ∙ c.transits;
    fsms = d.fsms ∙ c.fsms;
    trs = d.trs ∙ ap (λ x. x ++ b) c.trs ∙ append_assoc (m.states s).trs a b;
    name = d.name ∙ c.name;
    enterer = d.enterer ∙ c.enterer;
    exiter = d.exiter ∙ c.exiter;
    others = λ x e. d.others x e ∙ c.others x e;
  }

  pub Collected-refl : (m : Store H) (s : ℕ) → Collected m m s []
  Collected-refl m s = record {
    transits = refl;
    fsms = refl;
    trs = sym (append-nil (m.states s).trs);
    name = refl;
    enterer = refl;
    exiter = refl;
    others = λ x e. refl;
  }

  pub from_cache_hit :
      (m : Store H) (s t : ℕ)
      → same_name (m.transits t).from (m.states s).name ≡ true
      → from_cache m s t ≡ set_trs m s ((m.states s).trs ++ t ∷ [])
  unfolding from_cache
  from_cache_hit m s t e = rw (e, from_cache)

  pub from_cache_miss :
      (m : Store H) (s t : ℕ)
      → same_name (m.transits t).from (m.states s).name ≡ false
      → from_cache m s t ≡ m
  unfolding from_cache
  from_cache_miss m s t e = rw (e, from_cache)

  pub from_cache-Collected :
      (m : Store H) (s t : ℕ)
      → Collected m (from_cache m s t) s (leaving m.transits (m.states s).name (t ∷ []))
  from_cache-Collected m s t = elim (Bool-cases (same_name (m.transits t).from (m.states s).name)) [
    | inl e ↦ rw e (
        subst (λ x. Collected m x s (t ∷ [])) (sym (from_cache_hit m s t e))
          (set_trs-Collected m s (t ∷ [])))
    | inr e ↦
        rw e (subst (λ x. Collected m x s []) (sym (from_cache_miss m s t e)) (Collected-refl m s))
  ]

  pub from_cache_all-Collected :
      (ts : List ℕ) (m : Store H) (s : ℕ) (tr : ℕ → Transit) (n : Text)
      → m.transits ≡ tr
      → (m.states s).name ≡ n
      → Collected m (from_cache_all m s ts) s (leaving tr n ts)
  unfolding from_cache_all
  from_cache_all-Collected [] m s tr n e f = Collected-refl m s
  from_cache_all-Collected (t ∷ ts) m s tr n e f =
      let c =
        subst (λ x. Collected m (from_cache m s t) s (leaving tr x (t ∷ []))) f
          (subst (λ x. Collected m (from_cache m s t) s (leaving x (m.states s).name (t ∷ []))) e
            (from_cache-Collected m s t)) in
      let d = from_cache_all-Collected ts (from_cache m s t) s tr n (c.transits ∙ e) (c.name ∙ f) in
      subst (Collected m (from_cache_all (from_cache m s t) s ts) s) (sym (leaving-cons tr n t ts))
        (Collected-trans m _ _ s _ _ c d)
