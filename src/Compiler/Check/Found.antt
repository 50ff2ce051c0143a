-- ===== src/Compiler/Check/Found.antt =====
-- What _state_deduction_cb of src/bin/estate_cc_check.c does to the table of states for one end of a
-- transition.
use estate.Base.{◌≢◌, ℕ, ◌≡◌, none, some, Text}
use estate.Eina.{Eina, EinaLaws}
use estate.Compiler.Data.{Store}
use estate.Compiler.Check.Table.{
  reached, counted_from, counted_to, Alike, Alike-trans, recount-Alike, bump, HasRoom, Counted,
  reached-Named, leave-Counted, recount-Counted,
}

module _ (E : Eina) where
  module _ (laws : EinaLaws E) (room : HasRoom E) where
    -- What has become of a state that a transition names.
    pub record Found (m m' : Store E.Hash) (f : ℕ) (n : Text) (c : Text → ℕ) : Type 0 where
      pub found : (s : ℕ) × (E.find (m'.fsms f).states n ≡ some s)
      pub counted : Counted E m' f c
      pub transits : m'.transits ≡ m.transits
      pub init : (m'.fsms f).init ≡ (m.fsms f).init
      pub transitions : (m'.fsms f).transitions ≡ (m.fsms f).transitions
      pub alike : (p : ℕ) → Alike (m.states p) (m'.states p)
      pub keeps :
          (x : Text) (p : ℕ)
          → E.find (m.fsms f).states x ≡ some p
          → E.find (m'.fsms f).states x ≡ some p
      pub only :
          (x : Text)
          → n ≢ x
          → E.find (m.fsms f).states x ≡ none
          → E.find (m'.fsms f).states x ≡ none

    pub counted_from-Found :
        (m : Store E.Hash) (f : ℕ) (n : Text) (c : Text → ℕ)
        → Counted E m f c
        → Found m (counted_from E m f n) f n c
    unfolding counted_from
    counted_from-Found m f n c w =
        let a = reached-Named E laws room m f n c w in
        let (m', s) = reached E m f n in
        record {
          found = (s, a.found);
          counted = leave-Counted E laws room m' f n s _ c a.found a.counted;
          transits = a.transits;
          init = a.init;
          transitions = a.transitions;
          alike = λ p.
              Alike-trans (m.states p) (m'.states p) ((counted_from E m f n).states p) (a.alike p)
                (recount-Alike E laws room m' s _ _ p);
          keeps = a.keeps;
          only = a.only;
        }

    pub counted_to-Found :
        (m : Store E.Hash) (f : ℕ) (n : Text) (c : Text → ℕ)
        → Counted E m f c
        → Found m (counted_to E m f n) f n (bump n c)
    unfolding counted_to
    counted_to-Found m f n c w =
        let a = reached-Named E laws room m f n c w in
        let (m', s) = reached E m f n in
        record {
          found = (s, a.found);
          counted = recount-Counted E laws room m' f n s c a.found a.counted;
          transits = a.transits;
          init = a.init;
          transitions = a.transitions;
          alike = λ p.
              Alike-trans (m.states p) (m'.states p) ((counted_to E m f n).states p) (a.alike p)
                (recount-Alike E laws room m' s _ _ p);
          keeps = a.keeps;
          only = a.only;
        }
