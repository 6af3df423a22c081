-- ===== src/UtHash.antt =====
-- The hash table of uthash that src/rpc.c keeps its calls in: not the repository's code, so a
-- parameter with the documented behaviour of its macros, stated on the list of its entries.
use libkrossbar.Prelude.{ℕ, ◌≡◌, Option, none, some, List, [], ◌∷◌, ◌==◌, if◌then◌else◌}

module _ {Entry : Type 0} (id_of : Entry → ℕ) where
  -- The first entry with an id, and the entries without it.
  abbrev pub lookup : ℕ → List Entry → Option Entry
  lookup id [] = none
  lookup id (entry ∷ entries) = if id_of entry == id then some entry else lookup id entries

  abbrev pub without : ℕ → List Entry → List Entry
  without id [] = []
  without id (entry ∷ entries) = if id_of entry == id then entries else entry ∷ without id entries

-- A table of entries under their `int` ids, given by their 32 bits.
pub record UtHash (Entry : Type 0) (id_of : Entry → ℕ) : Type 1 where
  pub Table : Type 0
  pub entries : Table → List Entry
  pub empty : Table
  -- `HASH_ADD_INT`, `HASH_FIND_INT` and `HASH_DEL` of the entry that was found
  pub add : Entry → Table → Table
  pub find : ℕ → Table → Option Entry
  pub del : ℕ → Table → Table
  pub empty_entries : entries empty ≡ []
  pub add_entries : (entry : Entry) (t : Table) → entries (add entry t) ≡ entry ∷ entries t
  pub find_entries : (id : ℕ) (t : Table) → find id t ≡ lookup id_of id (entries t)
  pub del_entries : (id : ℕ) (t : Table) → entries (del id t) ≡ without id_of id (entries t)
