-- ===== src/Document/Lookup.antt =====
-- What the operations of src/document.c return, by the elements that are ahead of the reader.
use libkrossbar.Prelude.{
  ℕ, ◌≡◌, refl, ap, ◌∙◌, Bool, true, false, Option, none, some, List, [], ◌∷◌, length,
}
use libkrossbar.Bson.{Bson, Element, element_type, null, other, document, array, seek, same_key}
use libkrossbar.Document.{
  Value, ValueType, unset, value_null, value_bool, value_int32, value_int64, value_double,
  value_string, value_binary, value_document, value_array, does_not_exist, value_at, type_at,
  write_low_half, document_has_field, document_get_value, document_value_type, document_get_int32,
  document_get_utf8,
}

-- The value of an element, and of a key that no element ahead has.
pub value_of : Option Element → Value
value_of none = unset does_not_exist
value_of (some null) = unset value_null
value_of (some other) = unset does_not_exist
value_of (some document) = unset value_document
value_of (some array) = unset value_array
value_of (some (Element.boolean b)) = Value.boolean b
value_of (some (Element.int32 n)) = Value.int32 n
value_of (some (Element.int64 n)) = Value.int64 n
value_of (some (Element.double n)) = Value.double n
value_of (some (Element.utf8 s)) = Value.utf8 s
value_of (some (Element.binary s)) = Value.binary s

-- The 32-bit integer of an element, and whether it is one.
pub int32_of : Option Element → ℕ × Bool
int32_of (some (Element.int32 n)) = (n, true)
int32_of _ = (0, false)

-- The member `type` of a value.
pub value_type : Value → ValueType
value_type (unset t) = t
value_type (Value.boolean _) = value_bool
value_type (Value.int32 _) = value_int32
value_type (Value.int64 _) = value_int64
value_type (Value.double _) = value_double
value_type (Value.utf8 _) = value_string
value_type (Value.binary _) = value_binary

module _ (b : Bson) (i : b.Iter) (key : List ℕ) where
  value_of_found :
      (v : Element)
      → (seek key (b.ahead i)).0 ≡ some v
      → (document_get_value b i key).0 ≡ value_at b (element_type v) (b.find key i).1
  unfolding document_get_value
  value_of_found v e = rw ((b.find_some key i v e).0, (b.find_some key i v e).1)

  element_value :
      (v : Element)
      → (seek key (b.ahead i)).0 ≡ some v
      → value_at b (element_type v) (b.find key i).1 ≡ value_of (some v)
  unfolding value_at value_of element_type
  element_value null e = refl
  element_value other e = refl
  element_value document e = refl
  element_value array e = refl
  element_value (Element.boolean x) e = ap Value.boolean (b.bool_found key i x e)
  element_value (Element.int32 n) e = ap Value.int32 (b.int32_found key i n e)
  element_value (Element.int64 n) e = ap Value.int64 (b.int64_found key i n e)
  element_value (Element.double n) e = ap Value.double (b.double_found key i n e)
  element_value (Element.utf8 s) e = ap Value.utf8 (b.utf8_found key i s e)
  element_value (Element.binary s) e = ap Value.binary (b.binary_found key i s e)

  value_lookup :
      (o : Option Element)
      → (seek key (b.ahead i)).0 ≡ o
      → (document_get_value b i key).0 ≡ value_of o
  unfolding document_get_value value_of
  value_lookup none e = rw (b.find_none key i e)
  value_lookup (some v) e = value_of_found v e ∙ element_value v e

  -- `document_get_value` returns the next element with the key among those ahead, whatever its type
  -- is, and leaves ahead what stands behind that element.
  pub get_value-seek :
      ((document_get_value b i key).0 ≡ value_of (seek key (b.ahead i)).0)
      × (b.ahead (document_get_value b i key).1 ≡ (seek key (b.ahead i)).1)
  unfolding document_get_value
  get_value-seek = (value_lookup _ refl, b.find_ahead key i)

  int32_lookup :
      (o : Option Element)
      → (seek key (b.ahead i)).0 ≡ o
      → (document_get_int32 b i key).0 ≡ int32_of o
  unfolding document_get_int32 int32_of element_type
  int32_lookup none e = rw (b.find_none key i e)
  int32_lookup (some (Element.int32 n)) e =
      rw ((b.find_some key i _ e).0, (b.find_some key i _ e).1, b.int32_found key i n e)
  int32_lookup (some null) e = rw ((b.find_some key i _ e).0, (b.find_some key i _ e).1)
  int32_lookup (some other) e = rw ((b.find_some key i _ e).0, (b.find_some key i _ e).1)
  int32_lookup (some document) e = rw ((b.find_some key i _ e).0, (b.find_some key i _ e).1)
  int32_lookup (some array) e = rw ((b.find_some key i _ e).0, (b.find_some key i _ e).1)
  int32_lookup (some (Element.boolean x)) e =
      rw ((b.find_some key i _ e).0, (b.find_some key i _ e).1)
  int32_lookup (some (Element.int64 x)) e =
      rw ((b.find_some key i _ e).0, (b.find_some key i _ e).1)
  int32_lookup (some (Element.double x)) e =
      rw ((b.find_some key i _ e).0, (b.find_some key i _ e).1)
  int32_lookup (some (Element.utf8 x)) e = rw ((b.find_some key i _ e).0, (b.find_some key i _ e).1)
  int32_lookup (some (Element.binary x)) e =
      rw ((b.find_some key i _ e).0, (b.find_some key i _ e).1)

  -- `document_get_int32` succeeds exactly when the next element with the key is a 32-bit integer,
  -- with its value, and moves over that element even when it fails.
  pub get_int32-seek :
      ((document_get_int32 b i key).0 ≡ int32_of (seek key (b.ahead i)).0)
      × (b.ahead (document_get_int32 b i key).1 ≡ (seek key (b.ahead i)).1)
  unfolding document_get_int32
  get_int32-seek = (int32_lookup _ refl, b.find_ahead key i)

  type_of_value :
      (o : Option Element)
      → (seek key (b.ahead i)).0 ≡ o
      → (document_value_type b i key).0 ≡ value_type (document_get_value b i key).0
  unfolding document_value_type document_get_value value_at type_at value_type element_type
  type_of_value none e = rw (b.find_none key i e)
  type_of_value (some null) e = rw ((b.find_some key i _ e).0, (b.find_some key i _ e).1)
  type_of_value (some other) e = rw ((b.find_some key i _ e).0, (b.find_some key i _ e).1)
  type_of_value (some document) e = rw ((b.find_some key i _ e).0, (b.find_some key i _ e).1)
  type_of_value (some array) e = rw ((b.find_some key i _ e).0, (b.find_some key i _ e).1)
  type_of_value (some (Element.boolean x)) e =
      rw ((b.find_some key i _ e).0, (b.find_some key i _ e).1)
  type_of_value (some (Element.int32 x)) e =
      rw ((b.find_some key i _ e).0, (b.find_some key i _ e).1)
  type_of_value (some (Element.int64 x)) e =
      rw ((b.find_some key i _ e).0, (b.find_some key i _ e).1)
  type_of_value (some (Element.double x)) e =
      rw ((b.find_some key i _ e).0, (b.find_some key i _ e).1)
  type_of_value (some (Element.utf8 x)) e =
      rw ((b.find_some key i _ e).0, (b.find_some key i _ e).1)
  type_of_value (some (Element.binary x)) e =
      rw ((b.find_some key i _ e).0, (b.find_some key i _ e).1)

  -- `document_value_type` reports the type of the value that `document_get_value` would return.
  pub value_type-get_value :
      (document_value_type b i key).0 ≡ value_type (document_get_value b i key).0
  value_type-get_value = type_of_value _ refl

  -- When the next element with the key is a string, `document_get_utf8` returns it; of the caller's
  -- size it sets the low 32 bits to the string's length and keeps the high ones.
  get_utf8-found :
      (bytes : List ℕ) (size : ℕ)
      → (seek key (b.ahead i)).0 ≡ some (Element.utf8 bytes)
      → (document_get_utf8 b i key size).0 ≡ (some bytes, write_low_half size (length bytes), true)
  unfolding document_get_utf8 element_type
  get_utf8-found bytes size e =
      rw ((b.find_some key i _ e).0, (b.find_some key i _ e).1, b.utf8_found key i bytes e)

-- The keys of the elements ahead do not have the key.
abbrev pub IsUnused : List ℕ → List (List ℕ × Element) → Type 0
IsUnused key [] = Unit
IsUnused key ((l, e) ∷ fields) = (same_key l key ≡ false) × IsUnused key fields

seek-IsUnused :
    (key : List ℕ) (fields : List (List ℕ × Element))
    → IsUnused key fields
    → (seek key fields).0 ≡ none
seek-IsUnused key [] u = refl
seek-IsUnused key ((l, e) ∷ fields) u = rw u.0 (seek-IsUnused key fields u.1)

-- `document_get_value` of a key, after `document_has_field` of the same key, reports that the field
-- does not exist, when at most one element ahead of the reader has the key.
pub has_field-then-get_value :
    (b : Bson) (i : b.Iter) (key : List ℕ)
    → IsUnused key (seek key (b.ahead i)).1
    → (document_get_value b (document_has_field b i key).1 key).0 ≡ unset does_not_exist
unfolding document_has_field value_of
has_field-then-get_value b i key u =
    (get_value-seek b (b.find key i).1 key).0
    ∙ rw (b.find_ahead key i, seek-IsUnused key (seek key (b.ahead i)).1 u)
