-- ===== src/DocumentWriter.antt =====
-- The writers of documents and arrays (src/document_writer.c, src/array_writer.c,
-- src/writers_private.h) over the writer of libbson, a parameter. `memory` is what `malloc` returns:
-- `none` for `NULL`, or else a structure with whatever was there.
pub mod Arrays
pub mod Fields
pub mod Trees
pub mod Nested
pub mod Tests
use libkrossbar.Prelude.{
  ℕ, Bool, true, false, not, ◌&&◌, ◌||◌, Option, none, some, List, take, ◌==◌, if◌then◌else◌,
}
use libkrossbar.Memory.{null}
use libkrossbar.Bson.{Element}
use libkrossbar.Builder.{Builder}

-- `kb_document_writer_s`
pub record DocumentWriter : Type 0 where
  pub bson : ℕ
  pub parent_document : ℕ
  pub parent_array : ℕ

-- `kb_array_writer_s`
pub record ArrayWriter : Type 0 where
  pub builder : ℕ
  pub parent_document : ℕ
  pub parent_array : ℕ

module _ (b : Builder) where
  -- The pointer that the caller finds, and the structure. On success the function ends without a
  -- return statement: `returned` is what its caller finds in place of a result.
  pub doc_writer_from_buffer :
      (returned : ℕ)
      → Option DocumentWriter
      → (size : ℕ) → b.World
      → ℕ × Option DocumentWriter × b.World
  doc_writer_from_buffer returned none size w = (null, none, w)
  doc_writer_from_buffer returned (some memory) size w =
      let (bson, w') = b.new_from_buffer size w in
      (
        (if bson == null then null else returned),
        some (record { bson = bson; parent_document = null; parent_array = null }),
        w',
      )

  -- `none` for the failed assertion that the writer has no parent.
  pub doc_writer_destroy : DocumentWriter → b.World → Option b.World
  doc_writer_destroy writer w =
      if (writer.parent_document == null) && (writer.parent_array == null)
      then some (b.destroy writer.bson w)
      else none

  pub doc_writer_data_size : DocumentWriter → b.World → ℕ
  doc_writer_data_size writer w = b.len writer.bson w

  -- A length below 2^31, which libbson takes as an `int`.
  pub doc_writer_append_binary :
      DocumentWriter → List ℕ → (binary : List ℕ) → (length : ℕ) → b.World → Bool × b.World
  doc_writer_append_binary writer key binary length w =
      b.append writer.bson key (Element.binary (take length binary)) w

  pub doc_writer_append_utf8 :
      DocumentWriter → List ℕ → (value : List ℕ) → (length : ℕ) → b.World → Bool × b.World
  doc_writer_append_utf8 writer key value length w =
      b.append writer.bson key (Element.utf8 (take length value)) w

  pub doc_writer_append_null : DocumentWriter → List ℕ → b.World → Bool × b.World
  doc_writer_append_null writer key w = b.append writer.bson key Element.null w

  pub doc_writer_append_bool : DocumentWriter → List ℕ → Bool → b.World → Bool × b.World
  doc_writer_append_bool writer key value w = b.append writer.bson key (Element.boolean value) w

  pub doc_writer_append_double : DocumentWriter → List ℕ → ℕ → b.World → Bool × b.World
  doc_writer_append_double writer key value w = b.append writer.bson key (Element.double value) w

  pub doc_writer_append_int32 : DocumentWriter → List ℕ → ℕ → b.World → Bool × b.World
  doc_writer_append_int32 writer key value w = b.append writer.bson key (Element.int32 value) w

  pub doc_writer_append_int64 : DocumentWriter → List ℕ → ℕ → b.World → Bool × b.World
  doc_writer_append_int64 writer key value w = b.append writer.bson key (Element.int64 value) w
