-- ===== src/DocumentWriter/Nested.antt =====
-- Documents of any depth, written with src/document_writer.c and src/array_writer.c: the calls of a
-- client that writes a tree, and what libbson then keeps.
pub mod Written
pub mod RoundTrip
mod Tests
use libkrossbar.Prelude.{ℕ, Bool, true, false, Option, none, some, List, [], length}
use libkrossbar.Builder.{Builder}
use libkrossbar.DocumentWriter.{DocumentWriter, ArrayWriter}
use libkrossbar.DocumentWriter.Arrays.{
  arr_writer_append_null, arr_writer_append_bool, arr_writer_append_int32, arr_writer_append_int64,
  arr_writer_append_double, arr_writer_append_utf8, arr_writer_append_binary,
  doc_writer_document_begin, doc_writer_document_end, doc_writer_array_begin, doc_writer_array_end,
  arr_writer_document_begin, arr_writer_document_end, arr_writer_array_begin, arr_writer_array_end,
}
use libkrossbar.DocumentWriter.Fields.{Leaf, append_leaf}
use libkrossbar.DocumentWriter.Trees.{
  Tree, leaf, document, array, Fields, end, field, Items, nil, item,
}

abbrev pub and_then : {A B : Type 0} → Option A → (A → Option B) → Option B
and_then none k = none
and_then (some a) k = k a

-- What a client makes of a result: it goes on after `true` only.
abbrev pub done : {A : Type 0} → Bool × A → Option A
done (true, w) = some w
done (false, w) = none

abbrev pub ended : {A : Type 0} → Option (Bool × A) → Option A
ended r = and_then r done

module _ (b : Builder) (document_memory : b.World → DocumentWriter)
    (array_memory : b.World → ArrayWriter) where
  abbrev pub append_item : ArrayWriter → Leaf → b.World → Bool × b.World
  append_item writer Leaf.null w = arr_writer_append_null b writer [] w
  append_item writer (Leaf.boolean x) w = arr_writer_append_bool b writer [] x w
  append_item writer (Leaf.int32 x) w = arr_writer_append_int32 b writer [] x w
  append_item writer (Leaf.int64 x) w = arr_writer_append_int64 b writer [] x w
  append_item writer (Leaf.double x) w = arr_writer_append_double b writer [] x w
  append_item writer (Leaf.utf8 x) w = arr_writer_append_utf8 b writer [] x (length x) w
  append_item writer (Leaf.binary x) w = arr_writer_append_binary b writer [] x (length x) w

  abbrev pub begin_document : DocumentWriter → List ℕ → b.World → Option DocumentWriter × b.World
  begin_document writer key w = doc_writer_document_begin b (some (document_memory w)) writer key w

  abbrev pub begin_array : DocumentWriter → List ℕ → b.World → Option ArrayWriter × b.World
  begin_array writer key w = doc_writer_array_begin b (some (array_memory w)) writer key w

  abbrev pub begin_item_document : ArrayWriter → b.World → Option DocumentWriter × b.World
  begin_item_document writer w = arr_writer_document_begin b (some (document_memory w)) writer [] w

  abbrev pub begin_item_array : ArrayWriter → b.World → Option ArrayWriter × b.World
  begin_item_array writer w = arr_writer_array_begin b (some (array_memory w)) writer [] w

  unfoldable mutual
    pub write_field : DocumentWriter → List ℕ → Tree → b.World → Option b.World
    write_field writer key (leaf v) w = done (append_leaf b writer key v w)
    write_field writer key (document fs) w =
        let (sub, w') = begin_document writer key w in
        and_then sub
          (λ s. and_then (write_fields s fs w') (λ w''. done (doc_writer_document_end b s w'')))
    write_field writer key (array xs) w =
        let (sub, w') = begin_array writer key w in
        and_then sub
          (λ s. and_then (write_items s xs w') (λ w''. ended (doc_writer_array_end b s w'')))

    pub write_fields : DocumentWriter → Fields → b.World → Option b.World
    write_fields writer end w = some w
    write_fields writer (field key t fs) w =
        and_then (write_field writer key t w) (λ w'. write_fields writer fs w')

    pub write_item : ArrayWriter → Tree → b.World → Option b.World
    write_item writer (leaf v) w = done (append_item writer v w)
    write_item writer (document fs) w =
        let (sub, w') = begin_item_document writer w in
        and_then sub
          (λ s. and_then (write_fields s fs w') (λ w''. ended (arr_writer_document_end b s w'')))
    write_item writer (array xs) w =
        let (sub, w') = begin_item_array writer w in
        and_then sub
          (λ s. and_then (write_items s xs w') (λ w''. ended (arr_writer_array_end b s w'')))

    pub write_items : ArrayWriter → Items → b.World → Option b.World
    write_items writer nil w = some w
    write_items writer (item t xs) w =
        and_then (write_item writer t w) (λ w'. write_items writer xs w')
