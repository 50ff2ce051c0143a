-- ===== src/Compiler/Parser/Safe.antt =====
-- The loop of src/bin/estate_cc_parser.c uses no NULL pointer, writes inside of its buffer, and
-- comes to an end.
use estate.Base.{
  ℕ, zero, suc, ◌+◌, ◌-◌, ◌≤◌, ◌<◌, ◌≡◌, inl, inr, refl, sym, subst, true, false, some, Text,
  length, arith, Bool-cases, ◌==◌,
}
use estate.Eina.{Eina}
use estate.Compiler.Data.{Store}
use estate.Compiler.Parser.{
  Comment, comment_none, comment_single_line, comment_multiple_lines, Sm, sm_none, sm_fsm,
  sm_states, sm_state, ok, ◌>>=◌, eof, char_next_get,
}
use estate.Compiler.Parser.Token.{Loop, token}
use estate.Compiler.Parser.Char.{char, finish_token, finish_block, body, loop, parser_parse}
use estate.Compiler.Parser.Ready.{
  Ready, Sound, Ensures, ReadyLike, Ensures-bind, Sound-Ensures, char_next_get-IsRead,
}
use estate.Compiler.Parser.Steps.{char-Sound, finish_block-Sound}

module _ (E : Eina) (h : E.Hash) (made : E.hash_new ≡ some h)
    (memory : (n : ℕ) → E.calloc n ≡ true) where
  token-Ready :
      (sm : Sm) (l : Loop E.Hash) (c : ℕ)
      → l.p.sm ≡ sm
      → Ready sm l
      → Ensures (ReadyLike l) (token E sm l c)
  unfolding token
  token-Ready sm_none l c e r = ground (arith, memory l.store.next)
  token-Ready sm_fsm l c e r = ground (arith, memory l.store.next)
  token-Ready sm_states l c e r = ground (arith, memory l.store.next)
  token-Ready sm_state l c e r = ground (arith, memory l.store.next)
  token-Ready _ l c e r = ground (arith, memory l.store.next)

  finish_token-Sound :
      (n : ℕ) (l : Loop E.Hash) (c : ℕ) → Sound n l → Ensures (Sound n) (finish_token E l c)
  unfolding finish_token
  finish_token-Sound n l c s = ground (arith, token-Ready l.p.sm l c refl s.ready)

  body-Sound :
      (n : ℕ) (k : Comment) (l : Loop E.Hash) (c : ℕ) → Sound n l → Ensures (Sound n) (body E k l c)
  unfolding body
  body-Sound n comment_single_line l c s = ground arith
  body-Sound n comment_multiple_lines l c s = ground (arith, char_next_get-IsRead l.p)
  body-Sound n comment_none l c s =
      Ensures-bind (λ x. Sound n x.0) (Sound n) (char E.calloc l c) _
        (char-Sound E.calloc memory n l c s)
        (λ (l1, d) s1.
          Ensures-bind (Sound n) (Sound n) (finish_token E l1 d) finish_block
            (finish_token-Sound n l1 d s1) (finish_block-Sound E.calloc memory n))

  -- The rest gets shorter in a round that goes on.
  next-Sound :
      (n : ℕ) (l : Loop E.Hash)
      → Sound n l
      → (c : ℕ) → (char_next_get l.p).1 ≡ c
      → (c == eof) ≡ false
      → Sound (n - 1) (record l { p = (char_next_get l.p).0 }) × (1 ≤ n)
  next-Sound n l s c e q = ground (arith, char_next_get-IsRead l.p)

  read_done :
      (n : ℕ) (l : Loop E.Hash) → Sound n l → Sound n (record l { p = (char_next_get l.p).0 })
  read_done n l s = ground (arith, char_next_get-IsRead l.p)

  loop_end :
      (fuel : ℕ) (l : Loop E.Hash)
      → ((char_next_get l.p).1 == eof) ≡ true
      → loop E (suc fuel) l ≡ ok (record l { p = (char_next_get l.p).0 })
  unfolding loop
  loop_end fuel l e = rw (e, loop)

  loop_go :
      (fuel : ℕ) (l : Loop E.Hash)
      → ((char_next_get l.p).1 == eof) ≡ false
      → loop E (suc fuel) l ≡ (
          body E
            (char_next_get l.p).0.comments
            (record l { p = (char_next_get l.p).0 })
            (char_next_get l.p).1
          >>= loop E fuel)
  unfolding loop
  loop_go fuel l e = rw (e, loop)

  loop-Sound :
      (fuel : ℕ) (l : Loop E.Hash) (n : ℕ)
      → Sound n l
      → n < fuel
      → Ensures (Sound n) (loop E fuel l)
  unfolding loop
  loop-Sound zero l n s le = omega arith
  loop-Sound (suc fuel) l n s le = elim (Bool-cases ((char_next_get l.p).1 == eof)) [
    | inl e ↦ subst (Ensures (Sound n)) (sym (loop_end fuel l e)) (read_done n l s)
    | inr e ↦
        let (s', one) = next-Sound n l s (char_next_get l.p).1 refl e in
        subst (Ensures (Sound n)) (sym (loop_go fuel l e)) (
          Ensures-bind (Sound (n - 1)) (Sound n)
            (body E (char_next_get l.p).0.comments (record l { p = (char_next_get l.p).0 })
              (char_next_get l.p).1)
            (loop E fuel) (body-Sound (n - 1) (char_next_get l.p).0.comments _ _ s')
            (λ l' t.
              Sound-Ensures (n - 1) n (loop E fuel l') (omega arith)
                (loop-Sound fuel l' (n - 1) t (omega arith))))
  ]

  -- If eina_hash_stringshared_new gives a table and calloc finds memory, the parser ends on every file, by a result or by a
  -- parse error: it uses no NULL pointer and no place outside of its token buffer. After a result
  -- the pointers that its state needs are set, and the token is shorter than the buffer.
  pub parser_parse-Sound :
      (m : Store E.Hash) (bytes : Text) → Ensures (Sound (length bytes)) (parser_parse E m bytes)
  unfolding parser_parse
  parser_parse-Sound m bytes =
      loop-Sound (length bytes + 1) _ (length bytes) (ground arith) (omega arith)
