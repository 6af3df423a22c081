-- ===== src/Document.antt =====
-- The reader of a received document (src/document.c). A reader is its iterator: every operation
-- moves it, and none moves it back.
pub mod Lookup
pub mod Tests
use libkrossbar.Prelude.{
  ℕ, ◌+◌, ◌*◌, ◌/◌, ◌%◌, ◌^◌, Bool, true, false, Option, none, some, List, [], length,
  if◌then◌else◌,
}
use libkrossbar.Bson.{
  Bson, BsonType, type_null, type_bool, type_int32, type_int64, type_double, type_utf8, type_binary,
  type_document, type_array, type_other,
}

-- `kb_value_type_e`
pub data ValueType : Type 0 where
  value_null value_bool value_int32 value_int64 value_double value_string value_binary
        value_document value_array does_not_exist :
      ValueType

-- `kb_value_s`: the type, and the member of the union that was set, if any.
pub data Value : Type 0 where
  unset : ValueType → Value
  boolean : Bool → Value
  int32 int64 double : ℕ → Value
  utf8 binary : List ℕ → Value

-- The test `bson_iter_type(...) != BSON_TYPE_...` of the getters, the other way round.
abbrev pub same_type : BsonType → BsonType → Bool
same_type type_bool type_bool = true
same_type type_int32 type_int32 = true
same_type type_int64 type_int64 = true
same_type type_double type_double = true
same_type type_utf8 type_utf8 = true
same_type type_binary type_binary = true
same_type _ _ = false

-- What a 32-bit write at the address of a `size_t` leaves in it.
pub write_low_half : (old len : ℕ) → ℕ
write_low_half old len = old / 2 ^ 32 * 2 ^ 32 + len % 2 ^ 32

module _ (b : Bson) where
  -- `allocated` tells whether `malloc` returns memory.
  pub document_from_data : (allocated : Bool) → List ℕ → Option b.Iter
  document_from_data allocated bytes = if allocated then b.init bytes else none

  pub document_has_field : b.Iter → List ℕ → Bool × b.Iter
  document_has_field i key = b.find key i

  -- The switch of `document_get_value`.
  pub value_at : BsonType → b.Iter → Value
  value_at type_null i = unset value_null
  value_at type_bool i = boolean (b.read_bool i)
  value_at type_int32 i = int32 (b.read_int32 i)
  value_at type_int64 i = int64 (b.read_int64 i)
  value_at type_double i = double (b.read_double i)
  value_at type_utf8 i = utf8 (b.read_utf8 i)
  value_at type_binary i = binary (b.read_binary i)
  value_at type_document i = unset value_document
  value_at type_array i = unset value_array
  value_at type_other i = unset does_not_exist

  pub document_get_value : b.Iter → List ℕ → Value × b.Iter
  document_get_value i key =
      let (found, i') = b.find key i in
      (if found then value_at (b.type i') i' else unset does_not_exist, i')

  -- The switch of `document_value_type`.
  pub type_at : BsonType → ValueType
  type_at type_null = value_null
  type_at type_bool = value_bool
  type_at type_int32 = value_int32
  type_at type_int64 = value_int64
  type_at type_double = value_double
  type_at type_utf8 = value_string
  type_at type_binary = value_binary
  type_at type_document = value_document
  type_at type_array = value_array
  type_at type_other = does_not_exist

  pub document_value_type : b.Iter → List ℕ → ValueType × b.Iter
  document_value_type i key =
      let (found, i') = b.find key i in (if found then type_at (b.type i') else does_not_exist, i')

  -- The getters: the result, `success`, and the iterator.
  pub document_get_bool : b.Iter → List ℕ → (Bool × Bool) × b.Iter
  document_get_bool i key =
      let (found, i') = b.find key i in
      (
        (if found
            then (if same_type (b.type i') type_bool
                then (b.read_bool i', true)
                else (false, false))
            else (false, false)),
        i',
      )

  pub document_get_int32 : b.Iter → List ℕ → (ℕ × Bool) × b.Iter
  document_get_int32 i key =
      let (found, i') = b.find key i in
      (
        (if found
            then (if same_type (b.type i') type_int32 then (b.read_int32 i', true) else (0, false))
            else (0, false)),
        i',
      )

  pub document_get_int64 : b.Iter → List ℕ → (ℕ × Bool) × b.Iter
  document_get_int64 i key =
      let (found, i') = b.find key i in
      (
        (if found
            then (if same_type (b.type i') type_int64 then (b.read_int64 i', true) else (0, false))
            else (0, false)),
        i',
      )

  -- The bits of the double 0.0 are 0.
  pub document_get_double : b.Iter → List ℕ → (ℕ × Bool) × b.Iter
  document_get_double i key =
      let (found, i') = b.find key i in
      (
        (if found
            then (if same_type (b.type i') type_double
                then (b.read_double i', true)
                else (0, false))
            else (0, false)),
        i',
      )

  -- With the caller's `size`, which the accessor writes as 32 bits; `none` is `NULL`.
  pub document_get_utf8 : b.Iter → List ℕ → (size : ℕ) → (Option (List ℕ) × ℕ × Bool) × b.Iter
  document_get_utf8 i key size =
      let (found, i') = b.find key i in
      (
        (if found
            then (if same_type (b.type i') type_utf8
                then (some (b.read_utf8 i'), write_low_half size (length (b.read_utf8 i')), true)
                else (none, size, false))
            else (none, size, false)),
        i',
      )

  pub document_get_binary : b.Iter → List ℕ → (size : ℕ) → (Option (List ℕ) × ℕ × Bool) × b.Iter
  document_get_binary i key size =
      let (found, i') = b.find key i in
      (
        (if found
            then (if same_type (b.type i') type_binary
                then (
                  some (b.read_binary i'),
                  write_low_half size (length (b.read_binary i')),
                  true,
                )
                else (none, size, false))
            else (none, size, false)),
        i',
      )
