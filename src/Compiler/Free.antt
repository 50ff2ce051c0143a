-- ===== src/Compiler/Free.antt =====
-- What the compiler releases: state_free, transit_free and fsm_free of src/bin/estate_cc_misc.c, and
-- estate_cc_parser_parse_free of src/bin/estate_cc_parser.c.
pub mod Held
use estate.Base.{
  All, count, count-append, ℕ, ◌+◌, ◌≡◌, refl, sym, ap, ◌∙◌, Option, none, some, List, [], ◌∷◌,
  ◌++◌, Text, text_eq, if◌then◌else◌, arith,
}
use estate.Compiler.Data.{Cb, State, Transit, Fsm, Store, no_cb}

-- A shared string, which NULL stands for, too, one known by its address, the array of a state, an
-- object, and a hash table of the machine at an address.
pub data Freed : Type 0 where
  string : Option Text → Freed
  pointer array object : ℕ → Freed
  transition_table state_table key_table : ℕ → Freed

-- `if (s) eina_stringshare_del(s);`
abbrev string_del : Option Text → List Freed
string_del none = []
string_del (some t) = string (some t) ∷ []

abbrev array_free : ℕ → List ℕ → List Freed
array_free s [] = []
array_free s (t ∷ ts) = array s ∷ []

module _ {Hash : Type 0} (m : Store Hash) where
  unfoldable pub state_free : ℕ → List Freed
  state_free s =
      let st = m.states s in
      string_del st.enterer.func
      ++ (string_del st.enterer.value
          ++ (string_del st.exiter.func
              ++ (string_del st.exiter.value
                  ++ string (some st.name) ∷ (array_free s st.trs ++ object s ∷ []))))

  unfoldable pub transit_free : ℕ → List Freed
  transit_free t =
      let tr = m.transits t in
      string (some tr.name)
      ∷ string tr.from
      ∷ string tr.to
      ∷ (string_del tr.cb.func ++ (string_del tr.cb.value ++ object t ∷ []))

  -- eina_hash_free calls the function of the table for each element.
  unfoldable pub transits_free : List ℕ → List Freed
  transits_free [] = []
  transits_free (t ∷ ts) = transit_free t ++ transits_free ts

  unfoldable pub states_free : List ℕ → List Freed
  states_free [] = []
  states_free (s ∷ ss) = state_free s ++ states_free ss

  unfoldable pub keys_free : List ℕ → List Freed
  keys_free [] = []
  keys_free (k ∷ ks) = pointer k ∷ keys_free ks

  module _ (each : Hash → List ℕ) where
    unfoldable pub fsm_free : Option ℕ → List Freed
    fsm_free none = []
    fsm_free (some f) =
        let fsm = m.fsms f in
        string (some fsm.name)
        ∷ (transits_free (each fsm.transitions)
            ++ transition_table f
              ∷ (states_free (each fsm.states)
                  ++ state_table f
                    ∷ (keys_free (each fsm.data_keys) ++ key_table f ∷ object f ∷ [])))

    -- estate_cc_parser_parse_free on the list of machines
    unfoldable pub parse_free : List ℕ → List Freed
    parse_free [] = []
    parse_free (f ∷ fs) = fsm_free (some f) ++ parse_free fs
