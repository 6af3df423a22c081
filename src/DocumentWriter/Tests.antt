-- ===== src/DocumentWriter/Tests.antt =====
-- A writer of libbson that has one document, for src/document_writer.c: its capacity and its fields.
use libkrossbar.Prelude.{
  ℕ, ◌+◌, ◌≤◌, ◌≡◌, refl, ap, ◌∙◌, Bool, true, false, List, [], ◌∷◌, ◌++◌, arith, leb,
  if◌then◌else◌,
}
use libkrossbar.Bson.{Element, seek}
use libkrossbar.Builder.{Builder, element_size}
use libkrossbar.Document.{document_get_value}
use libkrossbar.Document.Lookup.{value_of}
use libkrossbar.Document.Tests.{reader}
use libkrossbar.DocumentWriter.{
  DocumentWriter, doc_writer_data_size, doc_writer_append_bool, doc_writer_append_utf8,
  doc_writer_append_int32,
}
use libkrossbar.DocumentWriter.Fields.{
  Leaf, boolean, int32, utf8, append_leaves, append_leaves-get_value, elements,
}

abbrev pub Buffer : Type 0
Buffer = ℕ × List (List ℕ × Element)

abbrev pub data_size : List (List ℕ × Element) → ℕ
data_size [] = 5
data_size ((key, e) ∷ fields) = element_size key e + data_size fields

abbrev pub append_field : List ℕ → Element → Buffer → Bool × Buffer
append_field key e (capacity, fields) =
    if leb (data_size fields + element_size key e) capacity
    then (true, (capacity, fields ++ ((key, e) ∷ [])))
    else (false, (capacity, fields))

pub data_size-append :
    (key : List ℕ) (e : Element) (fields : List (List ℕ × Element))
    → data_size (fields ++ ((key, e) ∷ [])) ≡ data_size fields + element_size key e
data_size-append key e [] = omega arith
data_size-append key e ((k, f) ∷ fields) = omega (arith, data_size-append key e fields)

pub append_field_fits :
    (key : List ℕ) (e : Element) (w : Buffer)
    → data_size w.1 + element_size key e ≤ w.0
    → append_field key e w ≡ (true, (w.0, w.1 ++ ((key, e) ∷ [])))
append_field_fits key e (capacity, fields) le =
    ap
      (λ c.
        if c then (true, (capacity, fields ++ ((key, e) ∷ []))) else (false, (capacity, fields)))
      fits
  where
    fits : leb (data_size fields + element_size key e) capacity ≡ true
    fits = ground (arith, le)

abbrev pub builder : Builder
builder = record {
  World = Buffer;
  new_from_buffer = λ size w. (1, (size, []));
  new = λ w. (0, w);
  destroy = λ d w. w;
  len = λ d w. data_size w.1;
  append = λ d key e w. append_field key e w;
  document_begin = λ d key c w. (false, w);
  document_end = λ d c w. (false, w);
  array_begin = λ d key w. ((false, 0), w);
  array_end = λ d a w. (false, w);
  array_append = λ a e w. (false, w);
  array_document_begin = λ a c w. (false, w);
  array_document_end = λ a c w. (false, w);
  array_array_begin = λ a w. ((false, 0), w);
  array_array_end = λ a c w. (false, w);
  fields = λ d w. w.1;
  capacity = λ d w. w.0;
  append_fits = λ d key e w le.
      let done = append_field_fits key e w le in
      (
        ap (λ r. r.0) done,
        ap (λ r. r.1.1) done,
        ap (λ r. data_size r.1.1) done ∙ data_size-append key e w.1,
        ap (λ r. r.1.0) done,
      );
}

abbrev root : DocumentWriter
root = record { bson = 1; parent_document = 0; parent_array = 0 }

abbrev values : List (List ℕ × Leaf)
values = (97 ∷ [], int32 7) ∷ (98 ∷ [], utf8 (104 ∷ 105 ∷ [])) ∷ (99 ∷ [], boolean true) ∷ []

append_leaves-get_value_example :
    ((append_leaves builder root values (64, [])).0 ≡ true)
    × (doc_writer_data_size builder root (append_leaves builder root values (64, [])).1
        ≡ doc_writer_data_size builder root (64, []) + 21)
    × ((document_get_value reader (Element.null, elements values) (98 ∷ [])).0
        ≡ value_of (seek (98 ∷ []) (elements values)).0)
unfolding doc_writer_data_size doc_writer_append_bool doc_writer_append_utf8 doc_writer_append_int32
append_leaves-get_value_example =
    append_leaves-get_value builder reader root values (64, []) (Element.null, elements values)
      (98 ∷ []) refl (omega arith) refl
