-- ===== src/Document/Tests.antt =====
-- An iterator of libbson for src/document.c: the element it stands at, and those ahead.
use libkrossbar.Prelude.{ℕ, ◌≡◌, refl, ap, Bool, true, false, Option, none, some, List, [], ◌∷◌}
use libkrossbar.Bson.{Bson, Element, element_type, seek}
use libkrossbar.Document.{
  unset, does_not_exist, document_has_field, document_get_value, document_value_type,
}
use libkrossbar.Document.Lookup.{
  value_of, value_type, get_value-seek, value_type-get_value, has_field-then-get_value,
}

abbrev Fields : Type 0
Fields = List (List ℕ × Element)

abbrev Place : Type 0
Place = Element × Fields

abbrev found_at : Element → Option Element × Fields → Bool × Place
found_at c (none, fields) = (false, (c, fields))
found_at c (some e, fields) = (true, (e, fields))

abbrev as_bool : Element → Bool
as_bool (Element.boolean b) = b
as_bool _ = false

abbrev as_number : Element → ℕ
as_number (Element.int32 n) = n
as_number (Element.int64 n) = n
as_number (Element.double n) = n
as_number _ = 0

abbrev as_bytes : Element → List ℕ
as_bytes (Element.utf8 s) = s
as_bytes (Element.binary s) = s
as_bytes _ = []

pub at_none : (c : Element) (r : Option Element × Fields) → r.0 ≡ none → (found_at c r).0 ≡ false
at_none c (none, fields) e = refl
at_none c (some v, fields) e = absurd (cc)

pub at_some :
    (c v : Element) (r : Option Element × Fields)
    → r.0 ≡ some v
    → ((found_at c r).0 ≡ true) × ((found_at c r).1.0 ≡ v)
at_some c v (none, fields) e = absurd (cc)
at_some c v (some u, fields) e = (refl, ap (λ o. elim o [ some x ↦ x | none ↦ u ]) e)

pub at_ahead : (c : Element) (r : Option Element × Fields) → (found_at c r).1.1 ≡ r.1
at_ahead c (none, fields) = refl
at_ahead c (some v, fields) = refl

abbrev pub reader : Bson
reader = record {
  Iter = Place;
  ahead = λ i. i.1;
  init = λ bytes. none;
  find = λ k i. found_at i.0 (seek k i.1);
  type = λ i. element_type i.0;
  read_bool = λ i. as_bool i.0;
  read_int32 = λ i. as_number i.0;
  read_int64 = λ i. as_number i.0;
  read_double = λ i. as_number i.0;
  read_utf8 = λ i. as_bytes i.0;
  read_binary = λ i. as_bytes i.0;
  find_none = λ k i e. at_none i.0 (seek k i.1) e;
  find_some = λ k i v e.
      ((at_some i.0 v (seek k i.1) e).0, ap element_type (at_some i.0 v (seek k i.1) e).1);
  find_ahead = λ k i. at_ahead i.0 (seek k i.1);
  bool_found = λ k i b e. ap as_bool (at_some i.0 (Element.boolean b) (seek k i.1) e).1;
  int32_found = λ k i n e. ap as_number (at_some i.0 (Element.int32 n) (seek k i.1) e).1;
  int64_found = λ k i n e. ap as_number (at_some i.0 (Element.int64 n) (seek k i.1) e).1;
  double_found = λ k i n e. ap as_number (at_some i.0 (Element.double n) (seek k i.1) e).1;
  utf8_found = λ k i s e. ap as_bytes (at_some i.0 (Element.utf8 s) (seek k i.1) e).1;
  binary_found = λ k i s e. ap as_bytes (at_some i.0 (Element.binary s) (seek k i.1) e).1;
}

-- The fields `a: 7` and `b: "hi"`.
abbrev start : Place
start = (Element.null, ((97 ∷ [], Element.int32 7) ∷ (98 ∷ [], Element.utf8 (104 ∷ 105 ∷ [])) ∷ []))

get_value-seek_example :
    ((document_get_value reader start (98 ∷ [])).0
      ≡ value_of (some (Element.utf8 (104 ∷ 105 ∷ []))))
    × ((document_get_value reader start (98 ∷ [])).1.1 ≡ [])
get_value-seek_example = get_value-seek reader start (98 ∷ [])

value_type-get_value_example :
    (document_value_type reader start (97 ∷ [])).0
    ≡ value_type (document_get_value reader start (97 ∷ [])).0
value_type-get_value_example = value_type-get_value reader start (97 ∷ [])

has_field-then-get_value_example :
    (document_get_value reader (document_has_field reader start (97 ∷ [])).1 (97 ∷ [])).0
    ≡ unset does_not_exist
has_field-then-get_value_example = has_field-then-get_value reader start (97 ∷ []) (refl, tt)
