-- ===== src/DocumentWriter/Nested/RoundTrip.antt =====
-- A document that is written by src/document_writer.c and src/array_writer.c is the document that
-- the client meant, to any depth.
use libkrossbar.Prelude.{
  ℕ, ◌+◌, ◌≤◌, ◌≡◌, ◌≢◌, refl, ap, ◌∙◌, false, some, List, [], length, nonzero, arith,
}
use libkrossbar.Memory.{null}
use libkrossbar.Builder.{Builder, value_size}
use libkrossbar.DocumentWriter.{DocumentWriter, ArrayWriter}
use libkrossbar.DocumentWriter.Fields.{element, append_leaf_lem}
use libkrossbar.DocumentWriter.Arrays.{
  doc_writer_document_end, doc_writer_array_end, arr_writer_document_end, arr_writer_array_end,
  arr_writer_finish,
}
use libkrossbar.DocumentWriter.Trees.{
  Tree, leaf, document, array, Fields, end, field, Items, nil, item, append_fields, append_items,
  append_fields_assoc, append_items_assoc, append_fields-end, append_items-nil, Place, empty_place,
  with_field, with_item, Keeps, Nesting, cost_of, fields_cost, items_cost,
}
use libkrossbar.DocumentWriter.Nested.{
  done, ended, write_field, write_fields, write_item, write_items,
}
use libkrossbar.DocumentWriter.Nested.Written.{
  Wrote, unchanged, appended, nested, followed, equal, begin_document_lem, begin_array_lem,
  begin_item_document_lem, begin_item_array_lem, append_item_lem,
}

module _ (b : Builder) (n : Nesting b) (document_memory : b.World → DocumentWriter)
    (array_memory : b.World → ArrayWriter) where
  document_end_lem :
      (writer : DocumentWriter) (w : b.World)
      → writer.parent_document ≢ null
      → done (doc_writer_document_end b writer w)
        ≡ done (b.document_end writer.parent_document writer.bson w)
  unfolding doc_writer_document_end
  document_end_lem writer w h = rw (nonzero writer.parent_document h) refl

  array_end_lem :
      (writer : ArrayWriter) (w : b.World)
      → writer.parent_document ≢ null
      → ended (doc_writer_array_end b writer w)
        ≡ done (b.array_end writer.parent_document writer.builder w)
  unfolding doc_writer_array_end arr_writer_finish
  array_end_lem writer w h = rw (nonzero writer.parent_document h) refl

  item_document_end_lem :
      (writer : DocumentWriter) (w : b.World)
      → writer.parent_array ≢ null
      → ended (arr_writer_document_end b writer w)
        ≡ done (b.array_document_end writer.parent_array writer.bson w)
  unfolding arr_writer_document_end
  item_document_end_lem writer w h = rw (nonzero writer.parent_array h) refl

  item_array_end_lem :
      (writer : ArrayWriter) (w : b.World)
      → writer.parent_array ≢ null
      → ended (arr_writer_array_end b writer w)
        ≡ done (b.array_array_end writer.parent_array writer.builder w)
  unfolding arr_writer_array_end
  item_array_end_lem writer w h = rw (nonzero writer.parent_array h) refl

  mutual
    unfolding write_field cost_of

    write_field-Wrote :
        (t : Tree) (writer : DocumentWriter) (key : List ℕ) (w : b.World) (p : Place)
        → writer.bson ≢ null
        → n.at writer.bson w ≡ some p
        → p.busy ≡ false
        → cost_of (length key) t ≤ n.room w
        → Wrote b n
            (cost_of (length key) t)
            writer.bson
            p
            (append_fields p.fields (field key t end))
            p.items
            w
            (write_field b document_memory array_memory writer key t w)
    write_field-Wrote (leaf v) writer key w p d≢0 found free fits =
        rw (append_leaf_lem b writer key v w) (
          appended b n writer.bson w p found free (2 + length key + value_size (element v))
            (λ p. with_field p key (leaf v)) (b.append writer.bson key (element v) w)
            (append_fields p.fields (field key (leaf v) end)) p.items (n.append writer.bson key v w)
            fits (refl, refl, refl, refl))
    write_field-Wrote (document fs) writer key w p d≢0 found free fits =
        let o = n.document_begin writer.bson key w (omega (arith, fits)) p found free in
        let c = (b.new w).0 in
        let w' = (b.document_begin writer.bson key c (b.new w).1).1 in
        let sub : DocumentWriter = record {
          bson = c;
          parent_document = writer.bson;
          parent_array = (document_memory w).parent_array;
        } in
        rw (begin_document_lem b document_memory array_memory writer key w o.1 o.0) (
          nested b n writer.bson w p found free (7 + length key) (fields_cost fs) c key
            (λ p q. with_field p p.key (document q.fields))
            (b.document_begin writer.bson key c (b.new w).1) (n.document_begin writer.bson key w)
            (omega (arith, fits))
            (write_fields-Wrote fs sub w' (empty_place writer.bson) o.1 o.4 refl
              (omega (arith, fits, o.6)))
            (λ w''. done (doc_writer_document_end b sub w'')) (b.document_end writer.bson c)
            (λ w''. document_end_lem sub w'' d≢0) (λ w''. n.document_end writer.bson c w'')
            (append_fields p.fields (field key (document fs) end)) p.items
            (λ q e is.
              (ap (λ x. append_fields p.fields (field key (document x) end)) e, refl, refl, refl)))
    write_field-Wrote (array xs) writer key w p d≢0 found free fits =
        let o = n.array_begin writer.bson key w (omega (arith, fits)) p found free in
        let r = b.array_begin writer.bson key w in
        let sub : ArrayWriter = record {
          builder = r.0.1;
          parent_document = writer.bson;
          parent_array = writer.parent_array;
        } in
        rw (begin_array_lem b document_memory array_memory writer key w o.0) (
          nested b n writer.bson w p found free (7 + length key) (items_cost xs) r.0.1 key
            (λ p q. with_field p p.key (array q.items)) (r.0.0, r.1)
            (n.array_begin writer.bson key w) (omega (arith, fits))
            (write_items-Wrote xs sub r.1 (empty_place writer.bson) o.1 o.4 refl
              (omega (arith, fits, o.6)))
            (λ w''. ended (doc_writer_array_end b sub w'')) (b.array_end writer.bson r.0.1)
            (λ w''. array_end_lem sub w'' d≢0) (λ w''. n.array_end writer.bson r.0.1 w'')
            (append_fields p.fields (field key (array xs) end)) p.items
            (λ q fs e.
              (ap (λ x. append_fields p.fields (field key (array x) end)) e, refl, refl, refl)))

    write_fields-Wrote :
        (fs : Fields) (writer : DocumentWriter) (w : b.World) (p : Place)
        → writer.bson ≢ null
        → n.at writer.bson w ≡ some p
        → p.busy ≡ false
        → fields_cost fs ≤ n.room w
        → Wrote b n
            (fields_cost fs)
            writer.bson
            p
            (append_fields p.fields fs)
            p.items
            w
            (write_fields b document_memory array_memory writer fs w)
    write_fields-Wrote end writer w p d≢0 found free fits =
        rw (append_fields-end p.fields) (unchanged b n writer.bson w p found free)
    write_fields-Wrote (field key t fs) writer w p d≢0 found free fits =
        followed b n (write_field-Wrote t writer key w p d≢0 found free (omega (arith, fits)))
          (λ w'. write_fields b document_memory array_memory writer fs w')
          (λ w' q there is left.
            equal b n
              (ap (λ f. append_fields f fs) is.0
                ∙ append_fields_assoc p.fields (field key t end) fs)
              is.1 (write_fields-Wrote fs writer w' q d≢0 there is.3 (omega (arith, fits, left))))

    write_item-Wrote :
        (t : Tree) (writer : ArrayWriter) (w : b.World) (p : Place)
        → writer.builder ≢ null
        → n.at writer.builder w ≡ some p
        → p.busy ≡ false
        → cost_of 10 t ≤ n.room w
        → Wrote b n
            (cost_of 10 t)
            writer.builder
            p
            p.fields
            (append_items p.items (item t nil))
            w
            (write_item b document_memory array_memory writer t w)
    write_item-Wrote (leaf v) writer w p d≢0 found free fits =
        rw (append_item_lem b document_memory array_memory writer v w) (
          appended b n writer.builder w p found free (12 + value_size (element v))
            (λ p. with_item p (leaf v)) (b.array_append writer.builder (element v) w) p.fields
            (append_items p.items (item (leaf v) nil)) (n.array_append writer.builder v w) fits
            (refl, refl, refl, refl))
    write_item-Wrote (document fs) writer w p d≢0 found free fits =
        let o = n.array_document_begin writer.builder w (omega (arith, fits)) p found free in
        let c = (b.new w).0 in
        let r = b.array_document_begin writer.builder c (b.new w).1 in
        let sub : DocumentWriter = record {
          bson = c;
          parent_document = (document_memory w).parent_document;
          parent_array = writer.builder;
        } in
        rw (begin_item_document_lem b document_memory array_memory writer w o.1 o.0) (
          nested b n writer.builder w p found free 17 (fields_cost fs) c []
            (λ p q. with_item p (document q.fields)) r (n.array_document_begin writer.builder w)
            (omega (arith, fits))
            (write_fields-Wrote fs sub r.1 (empty_place writer.builder) o.1 o.4 refl
              (omega (arith, fits, o.6)))
            (λ w''. ended (arr_writer_document_end b sub w''))
            (b.array_document_end writer.builder c) (λ w''. item_document_end_lem sub w'' d≢0)
            (λ w''. n.array_document_end writer.builder c w'') p.fields
            (append_items p.items (item (document fs) nil))
            (λ q e is.
              (refl, ap (λ x. append_items p.items (item (document x) nil)) e, refl, refl)))
    write_item-Wrote (array xs) writer w p d≢0 found free fits =
        let o = n.array_array_begin writer.builder w (omega (arith, fits)) p found free in
        let r = b.array_array_begin writer.builder w in
        let sub : ArrayWriter = record {
          builder = r.0.1;
          parent_document = (array_memory w).parent_document;
          parent_array = writer.builder;
        } in
        rw (begin_item_array_lem b document_memory array_memory writer w d≢0 o.0) (
          nested b n writer.builder w p found free 17 (items_cost xs) r.0.1 []
            (λ p q. with_item p (array q.items)) (r.0.0, r.1) (n.array_array_begin writer.builder w)
            (omega (arith, fits))
            (write_items-Wrote xs sub r.1 (empty_place writer.builder) o.1 o.4 refl
              (omega (arith, fits, o.6)))
            (λ w''. ended (arr_writer_array_end b sub w'')) (b.array_array_end writer.builder r.0.1)
            (λ w''. item_array_end_lem sub w'' d≢0)
            (λ w''. n.array_array_end writer.builder r.0.1 w'') p.fields
            (append_items p.items (item (array xs) nil))
            (λ q fs e. (refl, ap (λ x. append_items p.items (item (array x) nil)) e, refl, refl)))

    write_items-Wrote :
        (xs : Items) (writer : ArrayWriter) (w : b.World) (p : Place)
        → writer.builder ≢ null
        → n.at writer.builder w ≡ some p
        → p.busy ≡ false
        → items_cost xs ≤ n.room w
        → Wrote b n
            (items_cost xs)
            writer.builder
            p
            p.fields
            (append_items p.items xs)
            w
            (write_items b document_memory array_memory writer xs w)
    write_items-Wrote nil writer w p d≢0 found free fits =
        rw (append_items-nil p.items) (unchanged b n writer.builder w p found free)
    write_items-Wrote (item t xs) writer w p d≢0 found free fits =
        followed b n (write_item-Wrote t writer w p d≢0 found free (omega (arith, fits)))
          (λ w'. write_items b document_memory array_memory writer xs w')
          (λ w' q there is left.
            equal b n is.0
              (ap (λ i. append_items i xs) is.1 ∙ append_items_assoc p.items (item t nil) xs)
              (write_items-Wrote xs writer w' q d≢0 there is.3 (omega (arith, fits, left))))

-- On the writer of a document that nothing is nested in at the time, whatever `malloc` left in the
-- writers that the nested documents and arrays get: when libbson has room for the bytes that the
-- fields take at most, 10 for the key of an array's item, writing fields of any depth succeeds in
-- every call, and the document then has those fields behind the ones that it had; every other open
-- document or array is as it was.
pub write_fields_lem :
    (b : Builder) (n : Nesting b) (document_memory : b.World → DocumentWriter)
    (array_memory : b.World → ArrayWriter) (writer : DocumentWriter) (fs : Fields) (w : b.World)
    (p : Place)
    → writer.bson ≢ null
    → n.at writer.bson w ≡ some p
    → p.busy ≡ false
    → fields_cost fs ≤ n.room w
    → (w' : b.World) × (q : Place) × (write_fields b document_memory array_memory writer fs w
        ≡ some w')
      × (n.at writer.bson w' ≡ some q)
      × (q.fields ≡ append_fields p.fields fs)
      × (q.busy ≡ false)
      × Keeps n.at writer.bson w w'
write_fields_lem b n document_memory array_memory writer fs w p d≢0 found free fits =
    let r = write_fields-Wrote b n document_memory array_memory fs writer w p d≢0 found free fits in
    (r.after, r.place, r.returned, r.there, r.becomes.0, r.becomes.3, r.keeps)
