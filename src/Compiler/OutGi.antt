-- ===== src/Compiler/OutGi.antt =====
-- The generator of the functions to be filled in by hand, src/bin/estate_cc_out_gi.c.
pub mod Functions
use estate.Base.{
  ℕ, ◌+◌, Bool, true, false, Option, none, some, List, [], ◌∷◌, ◌++◌, Text, length, replicate,
}
use estate.Eina.{Eina}
use estate.Compiler.Data.{Cb, State, Transit, Fsm, Store}
use estate.Compiler.OutGc.Print.{printf}

-- The loops over `l`: one blank for each character of the name, and one more.
abbrev blanks : Text → Text
blanks sh = replicate (length sh + 1) b' '

-- The body of the loop in `_gi_cb`.
unfoldable pub definition : Text → Text
definition sh =
    printf "static int\n%s(void                    *data       EINA_UNUSED,\n" (sh ∷ [])
    ++ (blanks sh
        ++ (printf "Estate_Cb_Type           type       EINA_UNUSED,\n" []
            ++ (blanks sh
                ++ printf
                    "const Estate_Transition *transition EINA_UNUSED)\n{\n   return ESTATE_CB_OK;\n}\n\n"
                    [])))

unfoldable pub gi_cb : List (Option Text) → Text
gi_cb [] = []
gi_cb (none ∷ str) = gi_cb str
gi_cb (some sh ∷ str) = definition sh ++ gi_cb str

-- The exported function of a machine.
unfoldable pub load_text : Text → Text
load_text name =
    printf
      "/* Use the prototype below to export the loading function */\nEstate_Machine *estate_fsm_%s_load(void) EINA_MALLOC;\n\nEstate_Machine *\nestate_fsm_%s_load(void)\n{\n   return _estate_fsm_%s_load();\n}\n\n"
      (name ∷ name ∷ name ∷ [])

module _ {Hash : Type 0} where
  unfoldable pub transitions_gi : Store Hash → List ℕ → Text
  transitions_gi m [] = []
  transitions_gi m (t ∷ ts) = gi_cb ((m.transits t).cb.func ∷ []) ++ transitions_gi m ts

  unfoldable pub states_gi : Store Hash → List ℕ → Text
  states_gi m [] = []
  states_gi m (s ∷ ss) =
      gi_cb ((m.states s).enterer.func ∷ (m.states s).exiter.func ∷ []) ++ states_gi m ss

module _ (E : Eina) (each : E.Hash → List ℕ) where
  -- The turn of the loop in estate_cc_out_gi for the machine `f`.
  unfoldable pub machine_gi : Store E.Hash → ℕ → Text
  machine_gi m f =
      let fsm = m.fsms f in
      load_text fsm.name
      ++ (states_gi m (each fsm.states) ++ transitions_gi m (each fsm.transitions))

  unfoldable pub machines_gi : Store E.Hash → List ℕ → Text
  machines_gi m [] = []
  machines_gi m (f ∷ fs) = machine_gi m f ++ machines_gi m fs

  -- estate_cc_out_gi: the text for the file, unless it cannot be opened
  unfoldable pub out_gi : Store E.Hash → List ℕ → Text → Bool → Option Text
  out_gi m parse header false = none
  out_gi m parse header true = some (
      printf "#include <Estate.h>\n#include \"%s\"\n\n" (header ∷ [])
      ++ (machines_gi m parse ++ printf "\n" []))
