-- ===== src/Eina.antt =====
-- What the code relies on of the Eina library, whose source is not part of the repository:
-- string-keyed hash tables and shared strings; and whether calloc finds memory.
use estate.Base.{Bool, ℕ, ◌<◌, ◌^◌, ◌≡◌, Option, none, some, Text, text_eq, if◌then◌else◌}

-- A hash table maps texts to pointers. `IsShared` tells the finitely many texts that the process
-- shares, and `addr` gives the address of the copy of such a text.
pub record Eina : Type 1 where
  pub Hash : Type 0
  -- eina_hash_stringshared_new; `none` is NULL
  pub hash_new : Option Hash
  -- eina_hash_find
  pub find : Hash → Text → Option ℕ
  -- eina_hash_add; `none` is EINA_FALSE
  pub add : Hash → Text → ℕ → Option Hash
  pub IsShared : Text → Type 0
  -- eina_stringshare_add
  pub addr : Text → ℕ
  -- calloc of the C library: whether it finds memory for the object that is to stand at an address
  pub calloc : ℕ → Bool

-- The documented behaviour of these functions.
pub record EinaLaws (E : Eina) : Type 0 where
  pub find_new : (h : E.Hash) (k : Text) → E.hash_new ≡ some h → E.find h k ≡ none
  pub find_add :
      (h h' : E.Hash) (k j : Text) (v : ℕ)
      → E.add h k v ≡ some h'
      → E.find h k ≡ none
      → E.find h' j ≡ (if text_eq k j then some v else E.find h j)
  pub addr_injective : (a b : Text) → E.IsShared a → E.IsShared b → E.addr a ≡ E.addr b → a ≡ b
  pub addr_range : (a : Text) → E.IsShared a → E.addr a < 2 ^ 64
