-- ===== src/Compiler/OutGc/Print.antt =====
-- The text of the statements of src/bin/estate_cc_out_gc.c.
use Prim.Native.String.{String}
use estate.Base.{
  ◌==◌, ℕ, ◌+◌, ◌-◌, ◌%◌, ◌^◌, Bool, true, false, Option, none, some, List, [], ◌∷◌, ◌++◌, Text,
  codes, length, take, if◌then◌else◌,
}
use estate.Eina.{Eina}
use estate.Runtime.Types.{ℤ}
use estate.Compiler.Data.{Cb, Store}
use estate.Compiler.Parser.Char.{unsigned}
use estate.Compiler.OutGc.{
  Statement, prototype, end_prototypes, begin, declare_state, declare_transition, blank,
  new_machine, new_state, new_transition, init_state, init_transition, finish, machines_text,
}

-- printf with the texts of its arguments: a percent sign and the letter behind it stand for the
-- next one. The test says whether a percent sign has just been read.
unfoldable pub format : Bool → Text → List Text → Text
format conversion [] args = []
format true (letter ∷ cs) [] = format false cs []
format true (letter ∷ cs) (a ∷ args) = a ++ format false cs args
format false (c ∷ cs) args =
    let rest = format (c == b'%') cs args in if c == b'%' then rest else c ∷ rest

abbrev pub printf : String → List Text → Text
printf f args = format false (codes f) args

-- What printf writes for a NULL string.
abbrev pub shown : Option Text → Text
shown none = codes "(null)"
shown (some t) = t

-- `?: "NULL"`
abbrev pub or_null : Option Text → Text
or_null none = codes "NULL"
or_null (some t) = t

-- `_stringize_data`, with what it writes to a buffer of 128 bytes
unfoldable pub stringize_data : Option Text → Text × ℕ
stringize_data none = (codes "NULL", 0)
stringize_data (some t) = (take 127 (printf "\"%s\"" (t ∷ [])), (length t + 2) % 2 ^ 32 - 2)

-- The three lines for a constructor of a callback.
unfoldable pub ctor_text : String → Cb → Text
unfolding stringize_data
ctor_text lines cb =
    let (key, key_len) = stringize_data cb.value in
    printf lines (or_null cb.func ∷ key ∷ unsigned key_len ∷ [])

-- The elements of the array `trs`.
unfoldable pub elements : List Text → Text
elements [] = []
elements (t ∷ []) = printf "           t_%s\n" (t ∷ [])
elements (t ∷ u ∷ ts) = printf "           t_%s,\n" (t ∷ []) ++ elements (u ∷ ts)

unfoldable pub array : List Text → Text
unfolding elements
array [] =
    printf "        const Estate_Transition **trs = NULL;\n" []
    ++ printf "        const unsigned int trs_count = 0;\n" []
array (t ∷ ts) =
    printf "        const Estate_Transition *trs[] = {\n" []
    ++ (elements (t ∷ ts)
        ++ (printf "        };\n" []
            ++ printf "        const unsigned int trs_count = EINA_C_ARRAY_LENGTH(trs);\n" []))

unfoldable pub statement_text : Statement → Text
unfolding ctor_text array format
statement_text (prototype f) =
    printf "static int %s(void *data, Estate_Cb_Type type, const Estate_Transition *transition);\n"
      (f ∷ [])
statement_text end_prototypes = printf "\n\n" []
statement_text (begin name) =
    printf "static Estate_Machine *\n_estate_fsm_%s_load(void)\n{\n" (name ∷ [])
    ++ printf
        "   Estate_Machine *fsm = NULL;\n   Eina_Bool chk;\n   Estate_Cb_Ctor cb_ctor, enterer_ctor, exiter_ctor;\n\n"
        []
statement_text (declare_state n) = printf "   Estate_State *s_%s = NULL;\n" (n ∷ [])
statement_text (declare_transition n) = printf "   Estate_Transition *t_%s = NULL;\n" (n ∷ [])
statement_text blank = printf "\n" []
statement_text (new_machine s t) =
    printf "   fsm = estate_machine_new(%u, %u);\n" (unsigned s ∷ unsigned t ∷ [])
statement_text (new_state n count) =
    printf "   s_%s = estate_state_new(fsm, %u);\n" (n ∷ unsigned count ∷ [])
    ++ printf "   if (EINA_UNLIKELY(s_%s == NULL)) goto fsm_fail;\n" (n ∷ [])
statement_text (new_transition n) =
    printf "   t_%s = estate_transition_new(fsm);\n" (n ∷ [])
    ++ printf "   if (EINA_UNLIKELY(t_%s == NULL)) goto fsm_fail;\n" (n ∷ [])
statement_text (init_state n trs enterer exiter) =
    printf "     {\n" []
    ++ (array trs
        ++ (ctor_text
              "        enterer_ctor.func = %s;\n        enterer_ctor.key = %s;\n        enterer_ctor.key_len = %u;\n"
              enterer
            ++ (ctor_text
                  "        exiter_ctor.func = %s;\n        exiter_ctor.key = %s;\n        exiter_ctor.key_len = %u;\n"
                  exiter
                ++ (printf "        chk = estate_state_init(s_%s, \"%s\", trs, trs_count,\n"
                      (n ∷ n ∷ [])
                    ++ (printf
                          "                                &enterer_ctor, &exiter_ctor);\n        if (EINA_UNLIKELY(!chk)) goto fsm_fail;\n"
                          []
                        ++ (printf "        chk = estate_machine_state_add(fsm, s_%s);\n" (n ∷ [])
                            ++ printf "        if (EINA_UNLIKELY(!chk)) goto fsm_fail;\n     }\n\n"
                                []))))))
statement_text (init_transition n from to cb enterer exiter) =
    ctor_text "   cb_ctor.func = %s;\n   cb_ctor.key = %s;\n   cb_ctor.key_len = %u;\n" cb
    ++ (ctor_text
          "   enterer_ctor.func = %s;\n   enterer_ctor.key = %s;\n   enterer_ctor.key_len = %u;\n"
          enterer
        ++ (ctor_text
              "   exiter_ctor.func = %s;\n   exiter_ctor.key = %s;\n   exiter_ctor.key_len = %u;\n"
              exiter
            ++ (printf "   chk = estate_transition_init(t_%s, \"%s\", s_%s, s_%s,\n"
                  (n ∷ n ∷ shown from ∷ shown to ∷ [])
                ++ (printf
                      "                                &cb_ctor, &enterer_ctor, &exiter_ctor);\n   if (EINA_UNLIKELY(!chk)) goto fsm_fail;\n"
                      []
                    ++ (printf "   chk = estate_machine_transition_add(fsm, t_%s);\n" (n ∷ [])
                        ++ printf "   if (EINA_UNLIKELY(!chk)) goto fsm_fail;\n\n" [])))))
statement_text (finish init name) =
    printf "   estate_machine_lock(fsm, s_%s);\n\n   return fsm;\n\nfsm_fail:\n" (shown init ∷ [])
    ++ printf
        "   EINA_LOG_CRIT(\"Failed to create FSM \\\"%s\\\"\");\n   estate_machine_free(fsm);\n   return NULL;\n}\n\n"
        (name ∷ [])

unfoldable pub text : List Statement → Text
text [] = []
text (s ∷ ss) = statement_text s ++ text ss

-- estate_cc_out_gc: the text for the file, unless it cannot be opened
unfoldable pub out_gc :
    (E : Eina)
    → ((ℕ → ℕ → ℤ) → List ℕ → List ℕ)
    → (E.Hash → List ℕ)
    → Store E.Hash
    → List ℕ
    → Bool
    → Option Text
out_gc E qsort each m parse false = none
out_gc E qsort each m parse true = some (
    printf
      "/*\n * This file has been generated by estate_cc.\n * DO NOT MODIFY MANUALLY!\n */\n\n#include <Estate.h>\n\n"
      []
    ++ text (machines_text E qsort each m parse).1)
