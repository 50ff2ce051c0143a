-- ===== src/Compiler/Parser/Blocks.antt =====
-- The end of a block, _block_leave of src/bin/estate_cc_parser.c, against an account of the block
-- stack.
use estate.Base.{ℕ, zero, suc, ◌≡◌, refl, Bool, true, false, none, some, List, [], ◌∷◌}
use estate.Compiler.Parser.{Sm, leave, parent}

-- The blocks without those on top that an abbreviation, a dot, has opened.
abbrev pub without_dots : List Bool → List Bool
without_dots [] = []
without_dots (true ∷ bs) = without_dots bs
without_dots (false ∷ bs) = false ∷ bs

abbrev pub dots : List Bool → ℕ
dots [] = 0
dots (true ∷ bs) = suc (dots bs)
dots (false ∷ bs) = 0

-- The state that many blocks up.
abbrev pub ancestor : ℕ → Sm → Sm
ancestor zero sm = sm
ancestor (suc n) sm = ancestor n (parent sm)

-- The end of a block closes it and the blocks right around it that a dot opened, goes to the parent
-- state once for each, and succeeds if and only if a block is open.
pub leave-without_dots :
    (bs : List Bool) (sm : Sm)
    → (leave [] sm ≡ none)
      × ((b : Bool) → leave (b ∷ bs) sm ≡ some (without_dots bs, ancestor (suc (dots bs)) sm))
unfolding leave
leave-without_dots [] sm = (refl, λ b. refl)
leave-without_dots (true ∷ bs) sm = (refl, λ b. (leave-without_dots bs (parent sm)).1 true)
leave-without_dots (false ∷ bs) sm = (refl, λ b. refl)
