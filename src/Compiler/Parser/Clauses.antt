-- ===== src/Compiler/Parser/Clauses.antt =====
-- estate_cc_parser_parse, src/bin/estate_cc_parser.c, over the description of a transition.
use estate.Base.{
  ℕ, suc, ◌+◌, ◌<◌, ◌≡◌, refl, Bool, true, false, Option, none, some, List, [], ◌∷◌, Text, length,
  lt→ltb,
}
use estate.Eina.{Eina}
use estate.Compiler.Data.{Store, Transit, put, update, new_transit}
use estate.Compiler.Parser.{sm_transition_start, sm_transition_from, sm_transition_to, ok, u32}
use estate.Compiler.Parser.Token.{Loop, token}
use estate.Compiler.Parser.Char.{
  buf_size, char, char_colon, char_greater, char_semicolon, anonymous_start, finish_token,
  finish_block, loop, with_token, token_done,
}
use estate.Compiler.Parser.Words.{reads, IsRest, loop-step}

-- `buf` holds a whole token.
abbrev pub IsWord : Text → Type 0
IsWord [] = ⊥
IsWord (c ∷ w) = IsRest true (c ∷ w) × (length (c ∷ w) < buf_size)

module _ (E : Eina) where
  pub finish_token-done :
      (l l' : Loop E.Hash) (c : ℕ)
      → length l.buf < buf_size
      → token E l.p.sm (with_token l) c ≡ ok l'
      → finish_token E (with_token l) c ≡ ok (token_done l')
  unfolding finish_token
  finish_token-done l l' c lt e =
      rw (lt→ltb (length l.buf) buf_size lt, finish_token) (rw (e, finish_token) refl)

  -- The memory after the name of a transition.
  abbrev pub registered : Store E.Hash → ℕ → Text → Store E.Hash
  registered m f n = record m {
    transits = update m.transits m.next (new_transit n);
    next = m.next + 1;
    fsms =
        update m.fsms f (record (m.fsms f) { transitions = put E (m.fsms f).transitions n m.next });
  }

  abbrev set_transit : Store E.Hash → ℕ → Transit → Store E.Hash
  set_transit m t new = record m { transits = update m.transits t new }

  abbrev pub with_from : Store E.Hash → ℕ → Text → Store E.Hash
  with_from m t a = set_transit m t (record (m.transits t) { from = some a })

  abbrev pub with_to : Store E.Hash → ℕ → Text → Store E.Hash
  with_to m t b = set_transit m t (record (m.transits t) { to = some b })

  -- The memory after the description of a transition.
  abbrev pub described : Store E.Hash → ℕ → Text → Text → Text → Store E.Hash
  described m f n a b = with_to (with_from (registered m f n) m.next a) m.next b

  module _ (bl : List Bool) (ps : List ℕ) (f : ℕ) where
    token-colon :
        (m : Store E.Hash) (ln : ℕ) (sw : Bool) (t : Option ℕ) (rest : Text) (col x : ℕ) (w : Text)
        → E.calloc m.next ≡ true
        → E.find (m.fsms f).transitions (x ∷ w) ≡ none
        → token E sm_transition_start
            (with_token (reads sm_transition_start bl ps (some f) t m rest ln sw col (x ∷ w)))
            b':'
          ≡ ok (
              with_token (
                reads sm_transition_from bl ps
                  (some f)
                  (some m.next)
                  (registered m f (x ∷ w))
                  rest
                  ln
                  sw
                  col
                  (x ∷ w)))
    unfolding token
    token-colon m ln sw t rest col x w found e = rw (found, token) (rw (e, token) refl)

    pub loop-colon :
        (n : ℕ) (m : Store E.Hash) (ln : ℕ) (sw : Bool) (t : Option ℕ) (rest : Text) (col x : ℕ)
        (w : Text)
        → E.calloc m.next ≡ true
        → E.find (m.fsms f).transitions (x ∷ w) ≡ none
        → length (x ∷ w) < buf_size
        → loop E
            (suc n)
            (reads sm_transition_start bl ps (some f) t m (b':' ∷ rest) ln sw col (x ∷ w))
          ≡ loop E n (
              reads sm_transition_from bl ps
                (some f)
                (some m.next)
                (registered m f (x ∷ w))
                rest
                ln
                false
                (u32 (col + 1))
                [])
    unfolding char char_colon finish_block
    loop-colon n m ln sw t rest col x w found e lt =
        let l = reads sm_transition_start bl ps (some f) t m rest ln sw (u32 (col + 1)) (x ∷ w) in
        let l' =
          reads sm_transition_from bl ps (some f) (some m.next) (registered m f (x ∷ w)) rest ln sw
            (u32 (col + 1)) (x ∷ w) in
        loop-step E n sm_transition_start bl ps (some f) t m ln sw rest col b':' (x ∷ w)
          (with_token l) (token_done (with_token l')) (token_done l') b':' refl refl refl refl
          (finish_token-done l (with_token l') b':' lt
            (token-colon m ln sw t rest (u32 (col + 1)) x w found e))
          refl

    pub loop-greater :
        (n : ℕ) (m : Store E.Hash) (ln : ℕ) (sw : Bool) (t : ℕ) (rest : Text) (col x : ℕ) (w : Text)
        → length (x ∷ w) < buf_size
        → loop E
            (suc n)
            (reads sm_transition_from bl ps (some f) (some t) m (b'>' ∷ rest) ln sw col (x ∷ w))
          ≡ loop E n (
              reads sm_transition_to bl ps
                (some f)
                (some t)
                (with_from m t (x ∷ w))
                rest
                ln
                false
                (u32 (col + 1))
                [])
    unfolding char char_greater anonymous_start finish_block token
    loop-greater n m ln sw t rest col x w lt =
        let l =
          reads sm_transition_from bl ps (some f) (some t) m rest ln sw (u32 (col + 1)) (x ∷ w) in
        let l' =
          reads sm_transition_to bl ps (some f) (some t) (with_from m t (x ∷ w)) rest ln sw
            (u32 (col + 1)) (x ∷ w) in
        loop-step E n sm_transition_from bl ps (some f) (some t) m ln sw rest col b'>' (x ∷ w)
          (with_token l) (token_done (with_token l')) (token_done l') b'>' refl refl refl refl
          (finish_token-done l (with_token l') b'>' lt refl) refl

    pub loop-semicolon :
        (n : ℕ) (m : Store E.Hash) (ln : ℕ) (sw : Bool) (t : ℕ) (rest : Text) (col x : ℕ) (w : Text)
        → length (x ∷ w) < buf_size
        → loop E
            (suc n)
            (reads sm_transition_to bl ps (some f) (some t) m (b';' ∷ rest) ln sw col (x ∷ w))
          ≡ loop E n (
              reads sm_transition_start bl ps
                (some f)
                none
                (with_to m t (x ∷ w))
                rest
                ln
                false
                (u32 (col + 1))
                [])
    unfolding char char_semicolon finish_block token
    loop-semicolon n m ln sw t rest col x w lt =
        let l =
          reads sm_transition_to bl ps (some f) (some t) m rest ln sw (u32 (col + 1)) (x ∷ w) in
        let l' =
          reads sm_transition_start bl ps (some f) none (with_to m t (x ∷ w)) rest ln sw
            (u32 (col + 1)) (x ∷ w) in
        loop-step E n sm_transition_to bl ps (some f) (some t) m ln sw rest col b';' (x ∷ w)
          (with_token l) (token_done (with_token l')) (token_done l') b';' refl refl refl refl
          (finish_token-done l (with_token l') b';' lt refl) refl

-- A transition: its name, and the states that it leaves and leads to.
abbrev pub Clause : Type 0
Clause = Text × Text × Text

abbrev pub IsClause : Clause → Type 0
IsClause (n, a, b) = IsWord n × IsWord a × IsWord b

abbrev pub clause_names : List Clause → List Text
clause_names [] = []
clause_names (c ∷ cs) = c.0 ∷ clause_names cs

module _ (E : Eina) where
  -- The memory after the descriptions of some transitions.
  abbrev pub all_described : Store E.Hash → ℕ → List Clause → Store E.Hash
  all_described m f [] = m
  all_described m f ((n, a, b) ∷ cs) = all_described (described E m f n a b) f cs
