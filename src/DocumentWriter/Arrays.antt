-- ===== src/DocumentWriter/Arrays.antt =====
-- The writers of arrays and of what is nested (src/array_writer.c, and the second half of
-- src/document_writer.c). A new structure keeps in the fields that are not set what `malloc` found
-- there. `none` as the result of an `…_end` is a failed assertion.
use libkrossbar.Prelude.{ℕ, Bool, false, ◌&&◌, Option, none, some, List, take, ◌==◌, if◌then◌else◌}
use libkrossbar.Memory.{null}
use libkrossbar.Bson.{Element}
use libkrossbar.Builder.{Builder}
use libkrossbar.DocumentWriter.{DocumentWriter, ArrayWriter}

module _ (b : Builder) where
  unfoldable pub arr_writer_create :
      Option ArrayWriter → DocumentWriter → List ℕ → b.World → Option ArrayWriter × b.World
  arr_writer_create none document key w = (none, w)
  arr_writer_create (some memory) document key w =
      let ((success, builder), w') = b.array_begin document.bson key w in
      (
        (if success
            then some (record {
              builder = builder;
              parent_document = document.bson;
              parent_array = document.parent_array;
            })
            else none),
        w',
      )

  unfoldable pub arr_writer_finish : ArrayWriter → b.World → Option (Bool × b.World)
  arr_writer_finish writer w =
      if (writer.parent_document == null) && (writer.parent_array == null)
      then none
      else if writer.parent_document == null
      then some (b.array_array_end writer.parent_array writer.builder w)
      else some (b.array_end writer.parent_document writer.builder w)

  unfoldable pub arr_writer_append_binary :
      ArrayWriter → List ℕ → (binary : List ℕ) → (length : ℕ) → b.World → Bool × b.World
  arr_writer_append_binary writer key binary length w =
      b.array_append writer.builder (Element.binary (take length binary)) w

  unfoldable pub arr_writer_append_utf8 :
      ArrayWriter → List ℕ → (value : List ℕ) → (length : ℕ) → b.World → Bool × b.World
  arr_writer_append_utf8 writer key value length w =
      b.array_append writer.builder (Element.utf8 (take length value)) w

  unfoldable pub arr_writer_append_null : ArrayWriter → List ℕ → b.World → Bool × b.World
  arr_writer_append_null writer key w = b.array_append writer.builder Element.null w

  unfoldable pub arr_writer_append_bool : ArrayWriter → List ℕ → Bool → b.World → Bool × b.World
  arr_writer_append_bool writer key value w =
      b.array_append writer.builder (Element.boolean value) w

  unfoldable pub arr_writer_append_double : ArrayWriter → List ℕ → ℕ → b.World → Bool × b.World
  arr_writer_append_double writer key value w =
      b.array_append writer.builder (Element.double value) w

  unfoldable pub arr_writer_append_int32 : ArrayWriter → List ℕ → ℕ → b.World → Bool × b.World
  arr_writer_append_int32 writer key value w = b.array_append writer.builder (Element.int32 value) w

  unfoldable pub arr_writer_append_int64 : ArrayWriter → List ℕ → ℕ → b.World → Bool × b.World
  arr_writer_append_int64 writer key value w = b.array_append writer.builder (Element.int64 value) w

  unfoldable pub doc_writer_document_begin :
      Option DocumentWriter → DocumentWriter → List ℕ → b.World → Option DocumentWriter × b.World
  doc_writer_document_begin none writer key w = (none, w)
  doc_writer_document_begin (some memory) writer key w =
      let (bson, w') = b.new w in
      let (success, w'') = b.document_begin writer.bson key bson w' in
      if bson == null then (none, w') else (
        (if success
            then some (record {
              bson = bson;
              parent_document = writer.bson;
              parent_array = memory.parent_array;
            })
            else none),
        w'',
      )

  unfoldable pub doc_writer_document_end : DocumentWriter → b.World → Bool × b.World
  doc_writer_document_end writer w =
      if writer.parent_document == null
      then (false, w)
      else b.document_end writer.parent_document writer.bson w

  unfoldable pub doc_writer_array_begin :
      Option ArrayWriter → DocumentWriter → List ℕ → b.World → Option ArrayWriter × b.World
  doc_writer_array_begin memory writer key w = arr_writer_create memory writer key w

  unfoldable pub doc_writer_array_end : ArrayWriter → b.World → Option (Bool × b.World)
  doc_writer_array_end writer w = arr_writer_finish writer w

  -- The items of an array have no key.
  unfoldable pub arr_writer_document_begin :
      Option DocumentWriter → ArrayWriter → List ℕ → b.World → Option DocumentWriter × b.World
  arr_writer_document_begin none writer key w = (none, w)
  arr_writer_document_begin (some memory) writer key w =
      let (bson, w') = b.new w in
      let (success, w'') = b.array_document_begin writer.builder bson w' in
      if bson == null then (none, w') else (
        (if success
            then some (record {
              bson = bson;
              parent_document = memory.parent_document;
              parent_array = writer.builder;
            })
            else none),
        w'',
      )

  unfoldable pub arr_writer_document_end : DocumentWriter → b.World → Option (Bool × b.World)
  arr_writer_document_end writer w =
      if writer.parent_array == null
      then none
      else some (b.array_document_end writer.parent_array writer.bson w)

  unfoldable pub arr_writer_array_begin :
      Option ArrayWriter → ArrayWriter → List ℕ → b.World → Option ArrayWriter × b.World
  arr_writer_array_begin none writer key w = (none, w)
  arr_writer_array_begin (some memory) writer key w =
      let ((success, builder), w') = b.array_array_begin writer.builder w in
      if writer.builder == null then (none, w) else (
        (if success
            then some (record {
              builder = builder;
              parent_document = memory.parent_document;
              parent_array = writer.builder;
            })
            else none),
        w',
      )

  unfoldable pub arr_writer_array_end : ArrayWriter → b.World → Option (Bool × b.World)
  arr_writer_array_end writer w =
      if writer.parent_array == null
      then none
      else some (b.array_array_end writer.parent_array writer.builder w)
