-- ===== src/Builder.antt =====
-- The writer of libbson that src/document_writer.c and src/array_writer.c build documents with: not
-- the repository's code, so a parameter, with the documented behaviour of the `bson_append` functions
-- on one document and the sizes of elements in BSON.
use libkrossbar.Prelude.{ℕ, ◌+◌, ◌≤◌, ◌≡◌, Bool, true, List, [], ◌∷◌, ◌++◌, length}
use libkrossbar.Bson.{Element}

-- The bytes of an element behind its type and its key.
abbrev pub value_size : Element → ℕ
value_size Element.null = 0
value_size (Element.boolean _) = 1
value_size (Element.int32 _) = 4
value_size (Element.int64 _) = 8
value_size (Element.double _) = 8
value_size (Element.utf8 s) = length s + 5
value_size (Element.binary s) = length s + 5
value_size Element.other = 0
value_size Element.document = 5
value_size Element.array = 5

abbrev pub element_size : List ℕ → Element → ℕ
element_size key e = 2 + length key + value_size e

-- A `bson_t` and a `bson_array_builder_t` are pointers, 0 for `NULL`.
pub record Builder : Type 1 where
  pub World : Type 0
  -- `bson_new_from_buffer` on a buffer of the size, which cannot grow
  pub new_from_buffer : ℕ → World → ℕ × World
  pub new : World → ℕ × World
  pub destroy : ℕ → World → World
  pub len : ℕ → World → ℕ
  -- `bson_append_null`, `bson_append_bool` and so on, by the element
  pub append : ℕ → List ℕ → Element → World → Bool × World
  pub document_begin : (parent : ℕ) → List ℕ → (child : ℕ) → World → Bool × World
  pub document_end : (parent child : ℕ) → World → Bool × World
  -- with the builder that they store
  pub array_begin : (parent : ℕ) → List ℕ → World → (Bool × ℕ) × World
  pub array_end : (parent builder : ℕ) → World → Bool × World
  -- the functions `bson_array_builder_append_…`
  pub array_append : (builder : ℕ) → Element → World → Bool × World
  pub array_document_begin : (builder child : ℕ) → World → Bool × World
  pub array_document_end : (builder child : ℕ) → World → Bool × World
  pub array_array_begin : (builder : ℕ) → World → (Bool × ℕ) × World
  pub array_array_end : (builder child : ℕ) → World → Bool × World
  -- the elements of a document, and the bytes that its buffer has
  pub fields : ℕ → World → List (List ℕ × Element)
  pub capacity : ℕ → World → ℕ
  pub append_fits :
      (d : ℕ) (key : List ℕ) (e : Element) (w : World)
      → len d w + element_size key e ≤ capacity d w
      → ((append d key e w).0 ≡ true)
        × (fields d (append d key e w).1 ≡ fields d w ++ ((key, e) ∷ []))
        × (len d (append d key e w).1 ≡ len d w + element_size key e)
        × (capacity d (append d key e w).1 ≡ capacity d w)
