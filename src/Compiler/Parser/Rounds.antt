-- ===== src/Compiler/Parser/Rounds.antt =====
-- The rounds of the loop of estate_cc_parser_parse, src/bin/estate_cc_parser.c, over the transitions of a
-- machine, and over what stands around them.
use estate.Base.{
  All, AreDistinct, ℕ, suc, ◌+◌, ◌<◌, ◌≡◌, ◌≢◌, refl, sym, subst, ◌∙◌, Bool, false, Option, none,
  some, List, [], ◌∷◌, Text, codes, length, text_eq, text_eq_iff, arith,
}
use estate.Eina.{Eina, EinaLaws}
use estate.Compiler.Check.Table.{HasRoom, find-put}
use estate.Compiler.Data.{Store, put, update}
use estate.Compiler.Parser.{
  sm_none, sm_fsm, sm_transitions, sm_transition_start, ok, u32, char_next_get, read, block_enter,
  block_leave, leave,
}
use estate.Compiler.Parser.Token.{token}
use estate.Compiler.Parser.Char.{
  buf_size, char, char_enter, finish_token, finish_block, body, loop, with_token, token_done,
}
use estate.Compiler.Parser.Words.{reads, loop-step}
use estate.Compiler.Parser.Clauses.{finish_token-done, described, clause_names, all_described}
use estate.Compiler.Parser.Written.{
  Written, IsWritten, clause_of, clauses_of, clauses_text, clauses_size, loop-written,
}

module _ (E : Eina) (laws : EinaLaws E) (room : HasRoom E) where
  pub described_transitions :
      (m : Store E.Hash) (f : ℕ) (n a b : Text)
      → ((described E m f n a b).fsms f).transitions ≡ put E (m.fsms f).transitions n m.next
  described_transitions m f n a b = ground arith

  -- The table of a machine does not have the names.
  abbrev pub AreFree : E.Hash → List Text → Type 0
  AreFree h ns = All (λ n. E.find h n ≡ none) ns

  pub put-AreFree :
      (h : E.Hash) (n : Text) (v : ℕ) (ns : List Text)
      → E.find h n ≡ none
      → All (λ x. n ≢ x) ns
      → AreFree h ns
      → AreFree (put E h n v) ns
  put-AreFree h n v [] e d a = tt
  put-AreFree h n v (x ∷ ns) e (d, ds) (q, a) = (
    find-put E laws room h n x v e ∙ ground (arith, q, text_eq_iff n x, d),
    put-AreFree h n v ns e ds a,
  )

  pub loop-clauses :
      (cs : List Written) (bl : List Bool) (ps : List ℕ) (f r : ℕ) (m : Store E.Hash) (rest : Text)
      (ln col : ℕ)
      → All IsWritten cs
      → AreDistinct (clause_names (clauses_of cs))
      → AreFree (m.fsms f).transitions (clause_names (clauses_of cs))
      → (l1 : ℕ) × (c1 : ℕ) × (loop E
            (clauses_size cs r)
            (reads sm_transition_start bl ps (some f) none m (clauses_text cs rest) ln false col [])
          ≡ loop E r (
              reads sm_transition_start bl ps
                (some f)
                none
                (all_described E m f (clauses_of cs))
                rest
                l1
                false
                c1
                []))
  loop-clauses [] bl ps f r m rest ln col w d a = (ln, col, refl)
  loop-clauses (c ∷ cs) bl ps f r m rest ln col (w, ws) (d, ds) (q, a) =
      let (n, x, y) = clause_of c in
      let table = (m.fsms f).transitions in
      let (l1, c1, e1) =
        loop-written E bl ps f c (clauses_size cs r) m (clauses_text cs rest) ln col w
          (room.1 m.next) q in
      let (l2, c2, e2) = loop-clauses cs bl ps f r (described E m f n x y) rest l1 c1 ws ds (
        subst (λ h. AreFree h (clause_names (clauses_of cs)))
          (sym (described_transitions m f n x y))
          (put-AreFree table n m.next (clause_names (clauses_of cs)) q d a)) in
      (l2, c2, e1 ∙ e2)

  -- The memory after the name of a machine.
  abbrev pub named : E.Hash → Store E.Hash → Text → Store E.Hash
  named h m name = record m {
    fsms =
        update m.fsms m.next
          (record { name = name; transitions = h; states = h; data_keys = h; init = none });
    next = m.next + 1;
  }

  pub named_transitions :
      (h : E.Hash) (m : Store E.Hash) (name : Text) → ((named h m name).fsms m.next).transitions ≡ h
  named_transitions h m name = ground arith

  pub new-AreFree : (h : E.Hash) (ns : List Text) → E.hash_new ≡ some h → AreFree h ns
  new-AreFree h [] made = tt
  new-AreFree h (n ∷ ns) made = (laws.find_new h n made, new-AreFree h ns made)

  pub loop-name :
      (n : ℕ) (h : E.Hash) (m : Store E.Hash) (ln : ℕ) (sw : Bool) (rest name : Text) (col : ℕ)
      → E.hash_new ≡ some h
      → length name < buf_size
      → loop E (suc n) (reads sm_none [] [] none none m (b'{' ∷ rest) ln sw col name)
        ≡ loop E n (
            reads sm_fsm
              (false ∷ [])
              (m.next ∷ [])
              (some m.next)
              none
              (named h m name)
              rest
              ln
              false
              (u32 (col + 1))
              [])
  unfolding char char_enter block_enter finish_block token
  loop-name n h m ln sw rest name col made lt =
      let l = reads sm_none (false ∷ []) [] none none m rest ln sw (u32 (col + 1)) name in
      let l' =
        reads sm_fsm (false ∷ []) (m.next ∷ []) (some m.next) none (named h m name) rest ln sw
          (u32 (col + 1)) name in
      let names : token E sm_none (with_token l) b'{' ≡ ok (with_token l') =
        rw (made, token) (rw (room.1 m.next, token) refl) in
      loop-step E n sm_none [] [] none none m ln sw rest col b'{' name (with_token l)
        (token_done (with_token l')) (token_done l') b'{' refl refl refl refl
        (finish_token-done E l (with_token l') b'{' lt names) refl

  module _ (ps : List ℕ) (f : Option ℕ) (m : Store E.Hash) where
    pub loop-transitions :
        (n ln : ℕ) (sw : Bool) (rest : Text) (col : ℕ)
        → loop E
            (suc n)
            (reads sm_fsm (false ∷ []) ps f none m (b'{' ∷ rest) ln sw col (codes "transitions"))
          ≡ loop E n (
              reads sm_transitions
                (false ∷ false ∷ [])
                ps
                f
                none
                m
                rest
                ln
                false
                (u32 (col + 1))
                [])
    unfolding char char_enter block_enter finish_block token text_eq
    loop-transitions n ln sw rest col =
        let l =
          reads sm_fsm (false ∷ false ∷ []) ps f none m rest ln sw (u32 (col + 1))
            (codes "transitions") in
        let l' =
          reads sm_transitions (false ∷ false ∷ []) ps f none m rest ln sw (u32 (col + 1))
            (codes "transitions") in
        loop-step E n sm_fsm (false ∷ []) ps f none m ln sw rest col b'{' (codes "transitions")
          (with_token l) (token_done (with_token l')) (token_done l') b'{' refl refl refl refl
          (finish_token-done E l (with_token l') b'{' (omega arith) refl) refl

    pub loop-model :
        (n ln : ℕ) (sw : Bool) (rest : Text) (col : ℕ)
        → loop E (suc n) (
            reads sm_transitions
              (false ∷ false ∷ [])
              ps
              f
              none
              m
              (b'{' ∷ rest)
              ln
              sw
              col
              (codes "model"))
          ≡ loop E n (
              reads sm_transition_start
                (false ∷ false ∷ false ∷ [])
                ps
                f
                none
                m
                rest
                ln
                false
                (u32 (col + 1))
                [])
    unfolding char char_enter block_enter finish_block token text_eq
    loop-model n ln sw rest col =
        let l =
          reads sm_transitions (false ∷ false ∷ false ∷ []) ps f none m rest ln sw (u32 (col + 1))
            (codes "model") in
        let l' =
          reads sm_transition_start (false ∷ false ∷ false ∷ []) ps f none m rest ln sw
            (u32 (col + 1)) (codes "model") in
        loop-step E n sm_transitions (false ∷ false ∷ []) ps f none m ln sw rest col b'{'
          (codes "model") (with_token l) (token_done (with_token l')) (token_done l') b'{' refl refl
          refl refl (finish_token-done E l (with_token l') b'{' (omega arith) refl) refl

    -- A closing brace in each of the three blocks.
    pub loop-close :
        (n ln : ℕ) (rest : Text) (col : ℕ)
        → (loop E (suc n) (
              reads sm_transition_start
                (false ∷ false ∷ false ∷ [])
                ps
                f
                none
                m
                (b'}' ∷ rest)
                ln
                false
                col
                [])
            ≡ loop E n (
                reads sm_transitions
                  (false ∷ false ∷ [])
                  ps
                  f
                  none
                  m
                  rest
                  ln
                  false
                  (u32 (col + 1))
                  []))
          × (loop E (suc n) (
                reads sm_transitions (false ∷ false ∷ []) ps f none m (b'}' ∷ rest) ln false col [])
              ≡ loop E n (reads sm_fsm (false ∷ []) ps f none m rest ln false (u32 (col + 1)) []))
          × (loop E (suc n) (reads sm_fsm (false ∷ []) ps f none m (b'}' ∷ rest) ln false col [])
              ≡ loop E n (reads sm_none [] ps f none m rest ln false (u32 (col + 1)) []))
    unfolding loop char finish_token finish_block block_leave leave char_next_get read body
    loop-close n ln rest col = (refl, refl, refl)

    -- The end of the file.
    pub loop-ends :
        (n ln col : ℕ)
        → loop E (suc n) (reads sm_none [] ps f none m (0 ∷ []) ln false col [])
          ≡ ok (reads sm_none [] ps f none m [] ln false col [])
    unfolding loop char_next_get read
    loop-ends n ln col = refl
