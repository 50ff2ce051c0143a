-- ===== src/Compiler/Free/Held.antt =====
-- The shared strings that a machine of the compiler holds, src/bin/estate_cc.h, against those that the functions
-- of src/bin/estate_cc_misc.c release.
use estate.Base.{
  All, count, count-append, ℕ, ◌+◌, ◌≡◌, refl, ap, ◌∙◌, Option, none, some, List, [], ◌∷◌, ◌++◌,
  Text, arith,
}
use estate.Compiler.Data.{Cb, State, Transit, Store, no_cb}
use estate.Compiler.Free.{
  string_del, array_free, Freed, string, pointer, array, object, transition_table, state_table,
  key_table, state_free, transit_free, transits_free, states_free, keys_free, fsm_free, parse_free,
}

-- The strings among what is released.
abbrev pub strings : List Freed → List Text
strings [] = []
strings (string (some t) ∷ xs) = t ∷ strings xs
strings (string none ∷ xs) = strings xs
strings (_ ∷ xs) = strings xs

abbrev optional : Option Text → List Text
optional none = []
optional (some t) = t ∷ []

abbrev cb_strings : Cb → List Text
cb_strings cb = optional cb.func ++ optional cb.value

abbrev state_strings : State → List Text
state_strings s = s.name ∷ (cb_strings s.enterer ++ cb_strings s.exiter)

abbrev transit_strings : Transit → List Text
transit_strings t =
    t.name
    ∷ (optional t.from
        ++ (optional t.to ++ (cb_strings t.cb ++ (cb_strings t.enterer ++ cb_strings t.exiter))))

-- A transition has no callbacks but its own, as the parser leaves it.
abbrev pub IsPlainTransit : Transit → Type 0
IsPlainTransit t = (t.enterer ≡ no_cb) × (t.exiter ≡ no_cb)

strings-append : (xs ys : List Freed) → strings (xs ++ ys) ≡ strings xs ++ strings ys
strings-append [] ys = refl
strings-append (string (some t) ∷ xs) ys = ap (◌∷◌ t) (strings-append xs ys)
strings-append (string none ∷ xs) ys = strings-append xs ys
strings-append (pointer a ∷ xs) ys = strings-append xs ys
strings-append (array a ∷ xs) ys = strings-append xs ys
strings-append (object a ∷ xs) ys = strings-append xs ys
strings-append (transition_table a ∷ xs) ys = strings-append xs ys
strings-append (state_table a ∷ xs) ys = strings-append xs ys
strings-append (key_table a ∷ xs) ys = strings-append xs ys

module _ {Hash : Type 0} (m : Store Hash) (x : Text) where
  abbrev freed : List Freed → ℕ
  freed xs = count x (strings xs)

  abbrev held : Option Text → ℕ
  held o = count x (optional o)

  freed-append : (xs ys : List Freed) → freed (xs ++ ys) ≡ freed xs + freed ys
  freed-append xs ys =
      ap (count x) (strings-append xs ys) ∙ count-append x (strings xs) (strings ys)

  freed-string_del :
      (o : Option Text) (rest : List Freed) → freed (string_del o ++ rest) ≡ held o + freed rest
  freed-string_del none rest = omega arith
  freed-string_del (some t) rest = omega arith

  freed-string :
      (o : Option Text) (rest : List Freed) → freed (string o ∷ rest) ≡ held o + freed rest
  freed-string none rest = omega arith
  freed-string (some t) rest = omega arith

  freed-array_free : (s : ℕ) (ts : List ℕ) → freed (array_free s ts ++ object s ∷ []) ≡ 0
  freed-array_free s [] = refl
  freed-array_free s (t ∷ ts) = refl

  held-cb_strings : (cb : Cb) → count x (cb_strings cb) ≡ held cb.func + held cb.value
  held-cb_strings cb = count-append x (optional cb.func) (optional cb.value)

  state_free-strings : (s : ℕ) → freed (state_free m s) ≡ count x (state_strings (m.states s))
  unfolding state_free
  state_free-strings s =
      let st = m.states s in
      let last = array_free s st.trs ++ object s ∷ [] in
      let r1 = string (some st.name) ∷ last in
      let r2 = string_del st.exiter.value ++ r1 in
      let r3 = string_del st.exiter.func ++ r2 in
      let r4 = string_del st.enterer.value ++ r3 in
      omega (
        arith,
        freed-string_del st.enterer.func r4,
        freed-string_del st.enterer.value r3,
        freed-string_del st.exiter.func r2,
        freed-string_del st.exiter.value r1,
        freed-string (some st.name) last,
        freed-array_free s st.trs,
        count-append x (cb_strings st.enterer) (cb_strings st.exiter),
        held-cb_strings st.enterer,
        held-cb_strings st.exiter,
      )

  transit_free-strings :
      (t : ℕ)
      → IsPlainTransit (m.transits t)
      → freed (transit_free m t) ≡ count x (transit_strings (m.transits t))
  unfolding transit_free
  transit_free-strings t (p, q) =
      let tr = m.transits t in
      let r1 = string_del tr.cb.value ++ object t ∷ [] in
      let r2 = string_del tr.cb.func ++ r1 in
      let r3 = string tr.to ∷ r2 in
      let r4 = string tr.from ∷ r3 in
      let ends = cb_strings tr.enterer ++ cb_strings tr.exiter in
      let cbs = cb_strings tr.cb ++ ends in
      let none_held : count x ends ≡ 0 =
        ap (λ c. count x (cb_strings c ++ cb_strings tr.exiter)) p
        ∙ ap (λ c. count x (cb_strings c)) q in
      omega (
        arith,
        freed-string (some tr.name) r4,
        freed-string tr.from r3,
        freed-string tr.to r2,
        freed-string_del tr.cb.func r1,
        freed-string_del tr.cb.value (object t ∷ []),
        count-append x (optional tr.from) (optional tr.to ++ cbs),
        count-append x (optional tr.to) cbs,
        count-append x (cb_strings tr.cb) ends,
        held-cb_strings tr.cb,
        none_held,
      )

module _ {Hash : Type 0} (m : Store Hash) where
  abbrev transits_strings : List ℕ → List Text
  transits_strings [] = []
  transits_strings (t ∷ ts) = transit_strings (m.transits t) ++ transits_strings ts

  abbrev states_strings : List ℕ → List Text
  states_strings [] = []
  states_strings (s ∷ ss) = state_strings (m.states s) ++ states_strings ss

  transits_free-strings :
      (x : Text) (ts : List ℕ)
      → All (λ t. IsPlainTransit (m.transits t)) ts
      → freed m x (transits_free m ts) ≡ count x (transits_strings ts)
  unfolding transits_free
  transits_free-strings x [] a = refl
  transits_free-strings x (t ∷ ts) (p, a) = omega (
    arith,
    freed-append m x (transit_free m t) (transits_free m ts),
    transit_free-strings m x t p,
    transits_free-strings x ts a,
    count-append x (transit_strings (m.transits t)) (transits_strings ts),
  )

  states_free-strings :
      (x : Text) (ss : List ℕ) → freed m x (states_free m ss) ≡ count x (states_strings ss)
  unfolding states_free
  states_free-strings x [] = refl
  states_free-strings x (s ∷ ss) = omega (
    arith,
    freed-append m x (state_free m s) (states_free m ss),
    state_free-strings m x s,
    states_free-strings x ss,
    count-append x (state_strings (m.states s)) (states_strings ss),
  )

  keys_free-strings : (x : Text) (ks : List ℕ) → freed m x (keys_free m ks) ≡ 0
  unfolding keys_free
  keys_free-strings x [] = refl
  keys_free-strings x (k ∷ ks) = keys_free-strings x ks

  module _ (each : Hash → List ℕ) where
    -- The strings that the machines hold.
    abbrev pub machines_strings : List ℕ → List Text
    machines_strings [] = []
    machines_strings (f ∷ fs) =
        let fsm = m.fsms f in
        fsm.name
        ∷ (transits_strings (each fsm.transitions)
            ++ (states_strings (each fsm.states) ++ (optional fsm.init ++ machines_strings fs)))

    -- The names of their initial states.
    abbrev pub inits : List ℕ → List Text
    inits [] = []
    inits (f ∷ fs) = optional (m.fsms f).init ++ inits fs

    fsm_free-strings :
        (x : Text) (f : ℕ)
        → All (λ t. IsPlainTransit (m.transits t)) (each (m.fsms f).transitions)
        → let fsm = m.fsms f in
          freed m x (fsm_free m each (some f))
          ≡ count x (fsm.name ∷ [])
            + count x (transits_strings (each fsm.transitions))
            + count x (states_strings (each fsm.states))
    unfolding fsm_free
    fsm_free-strings x f a =
        let fsm = m.fsms f in
        let keys = keys_free m (each fsm.data_keys) in
        let r1 = key_table f ∷ object f ∷ [] in
        let r2 = state_table f ∷ (keys ++ r1) in
        let r3 = transition_table f ∷ (states_free m (each fsm.states) ++ r2) in
        omega (
          arith,
          freed-append m x (transits_free m (each fsm.transitions)) r3,
          freed-append m x (states_free m (each fsm.states)) r2,
          freed-append m x keys r1,
          transits_free-strings x (each fsm.transitions) a,
          states_free-strings x (each fsm.states),
          keys_free-strings x (each fsm.data_keys),
        )

    -- Where the transitions of the machines have no callbacks but their own, the release of the
    -- machines releases each shared string, except for those of the data keys, as often as the
    -- machines hold it, but for the names of the initial states, which are not released.
    pub parse_free-machines_strings :
        (x : Text) (fs : List ℕ)
        → All (λ f. All (λ t. IsPlainTransit (m.transits t)) (each (m.fsms f).transitions)) fs
        → count x (strings (parse_free m each fs)) + count x (inits fs)
          ≡ count x (machines_strings fs)
    unfolding parse_free
    parse_free-machines_strings x [] a = refl
    parse_free-machines_strings x (f ∷ fs) (p, a) =
        let fsm = m.fsms f in
        let transits = transits_strings (each fsm.transitions) in
        let states = states_strings (each fsm.states) in
        let first = optional fsm.init in
        let rest = machines_strings fs in
        omega (
          arith,
          freed-append m x (fsm_free m each (some f)) (parse_free m each fs),
          fsm_free-strings x f p,
          parse_free-machines_strings x fs a,
          count-append x first (inits fs),
          count-append x first rest,
          count-append x states (first ++ rest),
          count-append x transits (states ++ (first ++ rest)),
        )
