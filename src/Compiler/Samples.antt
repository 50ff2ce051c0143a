-- ===== src/Compiler/Samples.antt =====
-- Data for the tests of the compiler: a hash table and an empty memory.
pub mod Foreach
use estate.Base.{true, ℕ, Option, none, some, List, [], ◌∷◌, Text, text_eq, if◌then◌else◌}
use estate.Eina.{Eina}
use estate.Runtime.Types.{ℤ}
use estate.Compiler.Data.{Store, new_state, new_transit}

abbrev pub lookup : List (Text × ℕ) → Text → Option ℕ
lookup [] k = none
lookup ((j, v) ∷ h) k = if text_eq j k then some v else lookup h k

abbrev pub plain : Eina
plain = record {
  Hash = List (Text × ℕ);
  hash_new = some [];
  find = lookup;
  add = λ h k v. some ((k, v) ∷ h);
  IsShared = λ t. Unit;
  addr = λ t. 0;
  calloc = λ n. true;
}

abbrev pub blank : Store (List (Text × ℕ))
blank = record {
  fsms = λ p. record { name = []; transitions = []; states = []; data_keys = []; init = none };
  transits = λ p. new_transit [];
  states = λ p. new_state [];
  next = 1;
}

-- No text is shared, so that the laws of addresses hold.
abbrev pub table : Eina
table = record plain { IsShared = λ t. ⊥ }

-- The elements of a table.
abbrev pub values : List (Text × ℕ) → List ℕ
values [] = []
values ((n, a) ∷ h) = a ∷ values h

-- A sort that leaves the order as it is.
abbrev pub in_place : (ℕ → ℕ → ℤ) → List ℕ → List ℕ
in_place c xs = xs
