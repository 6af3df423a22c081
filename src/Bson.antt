-- ===== src/Bson.antt =====
-- The iterator of libbson that src/document.c and src/rpc.c read documents with: not the
-- repository's code, so a parameter with the documented behaviour of `bson_iter_find` and of the
-- accessors on an element of their own type.
use libkrossbar.Prelude.{
  ℕ, ◌≡◌, Bool, true, false, Option, none, some, List, [], ◌∷◌, ◌==◌, if◌then◌else◌, ◌&&◌,
}

-- `bson_type_t`, the types that the repository names, and all others.
pub data BsonType : Type 0 where
  type_null type_bool type_int32 type_int64 type_double type_utf8 type_binary type_document
        type_array type_other :
      BsonType

-- An element's value. Numbers are their bits.
pub data Element : Type 0 where
  null other document array : Element
  boolean : Bool → Element
  int32 int64 double : ℕ → Element
  utf8 binary : List ℕ → Element

unfoldable pub element_type : Element → BsonType
element_type null = type_null
element_type other = type_other
element_type document = type_document
element_type array = type_array
element_type (boolean _) = type_bool
element_type (int32 _) = type_int32
element_type (int64 _) = type_int64
element_type (double _) = type_double
element_type (utf8 _) = type_utf8
element_type (binary _) = type_binary

-- Keys are compared byte by byte.
abbrev pub same_key : List ℕ → List ℕ → Bool
same_key [] [] = true
same_key [] (_ ∷ _) = false
same_key (_ ∷ _) [] = false
same_key (a ∷ k) (b ∷ l) = (a == b) && same_key k l

-- The next element with the key among those ahead, and what is ahead after it.
abbrev pub seek : List ℕ → List (List ℕ × Element) → Option Element × List (List ℕ × Element)
seek k [] = (none, [])
seek k ((l, e) ∷ fields) = if same_key l k then (some e, fields) else seek k fields

pub record Bson : Type 1 where
  pub Iter : Type 0
  -- the elements ahead of the iterator
  pub ahead : Iter → List (List ℕ × Element)
  -- `bson_iter_init_from_data` of the document's bytes
  pub init : List ℕ → Option Iter
  -- `bson_iter_find`, with the iterator after it
  pub find : List ℕ → Iter → Bool × Iter
  pub type : Iter → BsonType
  pub read_bool : Iter → Bool
  pub read_int32 : Iter → ℕ
  pub read_int64 : Iter → ℕ
  pub read_double : Iter → ℕ
  pub read_utf8 : Iter → List ℕ
  pub read_binary : Iter → List ℕ
  pub find_none : (k : List ℕ) (i : Iter) → (seek k (ahead i)).0 ≡ none → (find k i).0 ≡ false
  pub find_some :
      (k : List ℕ) (i : Iter) (e : Element)
      → (seek k (ahead i)).0 ≡ some e
      → ((find k i).0 ≡ true) × (type (find k i).1 ≡ element_type e)
  pub find_ahead : (k : List ℕ) (i : Iter) → ahead (find k i).1 ≡ (seek k (ahead i)).1
  pub bool_found :
      (k : List ℕ) (i : Iter) (b : Bool)
      → (seek k (ahead i)).0 ≡ some (boolean b)
      → read_bool (find k i).1 ≡ b
  pub int32_found :
      (k : List ℕ) (i : Iter) (n : ℕ)
      → (seek k (ahead i)).0 ≡ some (int32 n)
      → read_int32 (find k i).1 ≡ n
  pub int64_found :
      (k : List ℕ) (i : Iter) (n : ℕ)
      → (seek k (ahead i)).0 ≡ some (int64 n)
      → read_int64 (find k i).1 ≡ n
  pub double_found :
      (k : List ℕ) (i : Iter) (n : ℕ)
      → (seek k (ahead i)).0 ≡ some (double n)
      → read_double (find k i).1 ≡ n
  pub utf8_found :
      (k : List ℕ) (i : Iter) (s : List ℕ)
      → (seek k (ahead i)).0 ≡ some (utf8 s)
      → read_utf8 (find k i).1 ≡ s
  pub binary_found :
      (k : List ℕ) (i : Iter) (s : List ℕ)
      → (seek k (ahead i)).0 ≡ some (binary s)
      → read_binary (find k i).1 ≡ s
