-- ===== src/DocumentWriter/Fields.antt =====
-- What is written with src/document_writer.c and then read with src/document.c.
use libkrossbar.Prelude.{
  ℕ, ◌+◌, ◌≤◌, ◌≡◌, refl, sym, ap, ◌∙◌, Bool, true, ◌&&◌, List, [], ◌∷◌, ◌++◌, arith, length,
  take-all, append-nil, append_assoc,
}
use libkrossbar.Bson.{Bson, Element, seek}
use libkrossbar.Builder.{Builder, element_size}
use libkrossbar.Document.{document_get_value}
use libkrossbar.Document.Lookup.{value_of, get_value-seek}
use libkrossbar.DocumentWriter.{
  DocumentWriter, doc_writer_data_size, doc_writer_append_binary, doc_writer_append_utf8,
  doc_writer_append_null, doc_writer_append_bool, doc_writer_append_double, doc_writer_append_int32,
  doc_writer_append_int64,
}

-- A value that the writer appends by itself.
pub data Leaf : Type 0 where
  null : Leaf
  boolean : Bool → Leaf
  int32 int64 double : ℕ → Leaf
  utf8 binary : List ℕ → Leaf

abbrev pub element : Leaf → Element
element null = Element.null
element (boolean x) = Element.boolean x
element (int32 x) = Element.int32 x
element (int64 x) = Element.int64 x
element (double x) = Element.double x
element (utf8 x) = Element.utf8 x
element (binary x) = Element.binary x

abbrev pub elements : List (List ℕ × Leaf) → List (List ℕ × Element)
elements [] = []
elements ((key, v) ∷ kvs) = (key, element v) ∷ elements kvs

abbrev pub total_size : List (List ℕ × Leaf) → ℕ
total_size [] = 0
total_size ((key, v) ∷ kvs) = element_size key (element v) + total_size kvs

module _ (b : Builder) (writer : DocumentWriter) where
  -- The function for the value's type.
  abbrev pub append_leaf : List ℕ → Leaf → b.World → Bool × b.World
  append_leaf key null w = doc_writer_append_null b writer key w
  append_leaf key (boolean x) w = doc_writer_append_bool b writer key x w
  append_leaf key (int32 x) w = doc_writer_append_int32 b writer key x w
  append_leaf key (int64 x) w = doc_writer_append_int64 b writer key x w
  append_leaf key (double x) w = doc_writer_append_double b writer key x w
  append_leaf key (utf8 x) w = doc_writer_append_utf8 b writer key x (length x) w
  append_leaf key (binary x) w = doc_writer_append_binary b writer key x (length x) w

  -- One append for each, and whether all have succeeded.
  abbrev pub append_leaves : List (List ℕ × Leaf) → b.World → Bool × b.World
  append_leaves [] w = (true, w)
  append_leaves ((key, v) ∷ kvs) w =
      let (success, w') = append_leaf key v w in
      let (successes, w'') = append_leaves kvs w' in (success && successes, w'')

  pub append_leaf_lem :
      (key : List ℕ) (v : Leaf) (w : b.World)
      → append_leaf key v w ≡ b.append writer.bson key (element v) w
  unfolding doc_writer_append_null doc_writer_append_bool doc_writer_append_int32
      doc_writer_append_int64 doc_writer_append_double doc_writer_append_utf8
      doc_writer_append_binary
  append_leaf_lem key null w = refl
  append_leaf_lem key (boolean x) w = refl
  append_leaf_lem key (int32 x) w = refl
  append_leaf_lem key (int64 x) w = refl
  append_leaf_lem key (double x) w = refl
  append_leaf_lem key (utf8 x) w =
      ap (λ s. b.append writer.bson key (Element.utf8 s) w) (take-all (length x) x (omega arith))
  append_leaf_lem key (binary x) w =
      ap (λ s. b.append writer.bson key (Element.binary s) w) (take-all (length x) x (omega arith))

  -- What the appends have done to the document.
  pub record Appended (kvs : List (List ℕ × Leaf)) (w : b.World) : Type 0 where
    pub succeeded : (append_leaves kvs w).0 ≡ true
    pub fields :
        b.fields writer.bson (append_leaves kvs w).1 ≡ b.fields writer.bson w ++ elements kvs
    pub size :
        doc_writer_data_size b writer (append_leaves kvs w).1
        ≡ doc_writer_data_size b writer w + total_size kvs

  append_leaves-Appended :
      (kvs : List (List ℕ × Leaf)) (w : b.World)
      → doc_writer_data_size b writer w + total_size kvs ≤ b.capacity writer.bson w
      → Appended kvs w
  unfolding doc_writer_data_size
  append_leaves-Appended [] w room = record {
    succeeded = refl;
    fields = sym (append-nil (b.fields writer.bson w));
    size = omega arith;
  }
  append_leaves-Appended ((key, v) ∷ kvs) w room =
      let one = b.append_fits writer.bson key (element v) w (omega (arith, room)) in
      let w1 = (b.append writer.bson key (element v) w).1 in
      let rest : Appended kvs w1 =
        append_leaves-Appended kvs w1 (omega (arith, one.2, one.3, room)) in
      record {
        succeeded = rw (append_leaf_lem key v w, one.0) rest.succeeded;
        fields = rw (append_leaf_lem key v w) (
            rest.fields
            ∙ ap (λ l. l ++ elements kvs) one.1
            ∙ append_assoc (b.fields writer.bson w) ((key, element v) ∷ []) (elements kvs));
        size = rw (append_leaf_lem key v w) (omega (arith, rest.size, one.2));
      }

-- On a writer of a document without fields whose buffer has room for the elements: all appends
-- succeed, the size of the data grows by the sizes of the elements, and a reader of the document
-- finds under each key the value that was appended first with it.
pub append_leaves-get_value :
    (b : Builder) (r : Bson) (writer : DocumentWriter) (kvs : List (List ℕ × Leaf)) (w : b.World)
    (i : r.Iter) (key : List ℕ)
    → b.fields writer.bson w ≡ []
    → doc_writer_data_size b writer w + total_size kvs ≤ b.capacity writer.bson w
    → r.ahead i ≡ b.fields writer.bson (append_leaves b writer kvs w).1
    → ((append_leaves b writer kvs w).0 ≡ true)
      × (doc_writer_data_size b writer (append_leaves b writer kvs w).1
          ≡ doc_writer_data_size b writer w + total_size kvs)
      × ((document_get_value r i key).0 ≡ value_of (seek key (elements kvs)).0)
append_leaves-get_value b r writer kvs w i key new room read =
    let done = append_leaves-Appended b writer kvs w room in
    (
      done.succeeded,
      done.size,
      (get_value-seek r i key).0
          ∙ ap (λ l. value_of (seek key l).0)
              (read ∙ done.fields ∙ ap (λ l. l ++ elements kvs) new),
    )
