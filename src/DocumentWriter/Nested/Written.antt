-- ===== src/DocumentWriter/Nested/Written.antt =====
-- What the calls that write a tree leave in the place of the writer
-- (src/document_writer.c, src/array_writer.c).
use libkrossbar.Prelude.{
  ℕ, ◌+◌, ◌≤◌, ◌≡◌, ◌≢◌, refl, ap, ◌∙◌, Bool, true, false, Option, none, some, List, arith, length,
  take-all, nonzero,
}
use libkrossbar.Memory.{null}
use libkrossbar.Bson.{Element}
use libkrossbar.Builder.{Builder}
use libkrossbar.DocumentWriter.{DocumentWriter, ArrayWriter}
use libkrossbar.DocumentWriter.Fields.{Leaf, element}
use libkrossbar.DocumentWriter.Arrays.{
  arr_writer_append_null, arr_writer_append_bool, arr_writer_append_int32, arr_writer_append_int64,
  arr_writer_append_double, arr_writer_append_utf8, arr_writer_append_binary,
  doc_writer_document_begin, doc_writer_array_begin, arr_writer_document_begin,
  arr_writer_array_begin, arr_writer_create,
}
use libkrossbar.DocumentWriter.Trees.{
  Fields, Items, Place, empty_place, Keeps, IsAppend, IsBegin, IsEnd, Nesting,
}
use libkrossbar.DocumentWriter.Nested.{
  and_then, done, append_item, begin_document, begin_array, begin_item_document, begin_item_array,
}

some≢none : {A : Type 0} {o : Option A} {a : A} → o ≡ some a → o ≢ none
some≢none p q = cc

done-true : {A : Type 0} (r : Bool × A) → r.0 ≡ true → done r ≡ some r.1
done-true (true, w) e = refl
done-true (false, w) e = cc

-- What the place has become.
abbrev pub Becomes : Place → Fields → Items → Place → Type 0
Becomes p fields items q =
    (q.fields ≡ fields) × (q.items ≡ items) × (q.parent ≡ p.parent) × (q.busy ≡ false)

module _ (b : Builder) (n : Nesting b) where
  -- The tree is appended to the place at `d`, which is free again, and the others are kept.
  pub record Wrote (cost d : ℕ) (p : Place) (fields : Fields) (items : Items) (w : b.World)
      (r : Option b.World) : Type 0 where
    pub after : b.World
    pub place : Place
    pub returned : r ≡ some after
    pub there : n.at d after ≡ some place
    pub becomes : Becomes p fields items place
    pub keeps : Keeps n.at d w after
    pub left : n.room w ≤ n.room after + cost

  module _ (d : ℕ) (w : b.World) (p : Place) (found : n.at d w ≡ some p)
      (free : p.busy ≡ false) where
    pub unchanged : Wrote 0 d p p.fields p.items w (some w)
    unchanged = record {
      after = w;
      place = p;
      returned = refl;
      there = found;
      becomes = (refl, refl, refl, free);
      keeps = λ x q x≢d at. at;
      left = omega arith;
    }

    pub appended :
        (cost : ℕ) (change : Place → Place) (r : Bool × b.World) (fields : Fields) (items : Items)
        → IsAppend n.at n.room cost d change w r
        → cost ≤ n.room w
        → Becomes p fields items (change p)
        → Wrote cost d p fields items w (done r)
    appended cost change r fields items law fits changed =
        let l = law fits p found free in
        record {
          after = r.1;
          place = change p;
          returned = done-true r l.0;
          there = l.1;
          becomes = changed;
          keeps = l.2;
          left = l.3;
        }

    -- A document or an array between the begin and the end.
    pub nested :
        (cost inside c : ℕ) (key : List ℕ) (change : Place → Place → Place) (begun : Bool × b.World)
        → IsBegin n.at n.room cost d key c w begun
        → cost ≤ n.room w
        → {fs : Fields} {is : Items} {r : Option b.World}
        → Wrote inside c (empty_place d) fs is begun.1 r
        → (close : b.World → Option b.World) (ends : b.World → Bool × b.World)
        → ((w' : b.World) → close w' ≡ done (ends w'))
        → ((w' : b.World) → IsEnd n.at n.room d c change w' (ends w'))
        → (fields : Fields) (items : Items)
        → ((q : Place)
            → q.fields ≡ fs
            → q.items ≡ is
            → Becomes p fields items (change (record p { busy = true; key = key }) q))
        → Wrote (cost + inside) d p fields items w (and_then r close)
    nested cost inside c key change begun opens fits inner close ends closes law fields items
          changed =
        let p' = record p { busy = true; key = key } in
        let o = opens fits p found free in
        let d≢c : d ≢ c = λ e. some≢none found (ap (λ x. n.at x w) e ∙ o.2) in
        let kept = inner.keeps d p' d≢c o.3 in
        let q = inner.becomes in
        let l = law inner.after p' inner.place kept inner.there refl q.3 q.2 in
        record {
          after = (ends inner.after).1;
          place = change p' inner.place;
          returned =
              ap (λ o. and_then o close) inner.returned
              ∙ closes inner.after
              ∙ done-true (ends inner.after) l.0;
          there = l.1;
          becomes = changed inner.place q.0 q.1;
          keeps = λ x q x≢d at.
              let x≢c : x ≢ c = λ e. some≢none at (ap (λ x. n.at x w) e ∙ o.2) in
              l.2 x q x≢d x≢c (inner.keeps x q x≢c (o.5 x q x≢d at));
          left = omega (arith, o.6, inner.left, l.3);
        }

  pub equal :
      {cost d : ℕ} {p : Place} {fs fs' : Fields} {is is' : Items} {w : b.World} {r : Option b.World}
      → fs ≡ fs'
      → is ≡ is'
      → Wrote cost d p fs is w r
      → Wrote cost d p fs' is' w r
  equal e f wrote =
      let k = wrote.becomes in
      record {
        after = wrote.after;
        place = wrote.place;
        returned = wrote.returned;
        there = wrote.there;
        becomes = (k.0 ∙ e, k.1 ∙ f, k.2, k.3);
        keeps = wrote.keeps;
        left = wrote.left;
      }

  -- One call after another.
  pub followed :
      {one_cost two_cost d : ℕ} {p : Place} {fs : Fields} {is : Items} {w : b.World}
      {r : Option b.World} {fields : Fields} {items : Items}
      → Wrote one_cost d p fs is w r
      → (k : b.World → Option b.World)
      → ((w' : b.World) (q : Place)
          → n.at d w' ≡ some q
          → Becomes p fs is q
          → n.room w ≤ n.room w' + one_cost
          → Wrote two_cost d q fields items w' (k w'))
      → Wrote (one_cost + two_cost) d p fields items w (and_then r k)
  followed one k two =
      let t = two one.after one.place one.there one.becomes one.left in
      record {
        after = t.after;
        place = t.place;
        returned = ap (λ o. and_then o k) one.returned ∙ t.returned;
        there = t.there;
        becomes = (t.becomes.0, t.becomes.1, t.becomes.2 ∙ one.becomes.2, t.becomes.3);
        keeps = λ x q x≢d at. t.keeps x q x≢d (one.keeps x q x≢d at);
        left = omega (arith, one.left, t.left);
      }

module _ (b : Builder) (document_memory : b.World → DocumentWriter)
    (array_memory : b.World → ArrayWriter) where
  pub begin_document_lem :
      (writer : DocumentWriter) (key : List ℕ) (w : b.World)
      → (b.new w).0 ≢ null
      → (b.document_begin writer.bson key (b.new w).0 (b.new w).1).0 ≡ true
      → begin_document b document_memory array_memory writer key w ≡ (
        some (record {
          bson = (b.new w).0;
          parent_document = writer.bson;
          parent_array = (document_memory w).parent_array;
        }),
        (b.document_begin writer.bson key (b.new w).0 (b.new w).1).1,
      )
  unfolding doc_writer_document_begin
  begin_document_lem writer key w c≢0 e = rw (nonzero (b.new w).0 c≢0, e) refl

  pub begin_array_lem :
      (writer : DocumentWriter) (key : List ℕ) (w : b.World)
      → (b.array_begin writer.bson key w).0.0 ≡ true
      → begin_array b document_memory array_memory writer key w ≡ (
        some (record {
          builder = (b.array_begin writer.bson key w).0.1;
          parent_document = writer.bson;
          parent_array = writer.parent_array;
        }),
        (b.array_begin writer.bson key w).1,
      )
  unfolding doc_writer_array_begin arr_writer_create
  begin_array_lem writer key w e = rw e refl

  pub begin_item_document_lem :
      (writer : ArrayWriter) (w : b.World)
      → (b.new w).0 ≢ null
      → (b.array_document_begin writer.builder (b.new w).0 (b.new w).1).0 ≡ true
      → begin_item_document b document_memory array_memory writer w ≡ (
        some (record {
          bson = (b.new w).0;
          parent_document = (document_memory w).parent_document;
          parent_array = writer.builder;
        }),
        (b.array_document_begin writer.builder (b.new w).0 (b.new w).1).1,
      )
  unfolding arr_writer_document_begin
  begin_item_document_lem writer w c≢0 e = rw (nonzero (b.new w).0 c≢0, e) refl

  pub begin_item_array_lem :
      (writer : ArrayWriter) (w : b.World)
      → writer.builder ≢ null
      → (b.array_array_begin writer.builder w).0.0 ≡ true
      → begin_item_array b document_memory array_memory writer w ≡ (
        some (record {
          builder = (b.array_array_begin writer.builder w).0.1;
          parent_document = (array_memory w).parent_document;
          parent_array = writer.builder;
        }),
        (b.array_array_begin writer.builder w).1,
      )
  unfolding arr_writer_array_begin
  begin_item_array_lem writer w d≢0 e = rw (nonzero writer.builder d≢0, e) refl

  pub append_item_lem :
      (writer : ArrayWriter) (v : Leaf) (w : b.World)
      → append_item b document_memory array_memory writer v w
        ≡ b.array_append writer.builder (element v) w
  unfolding arr_writer_append_null arr_writer_append_bool arr_writer_append_int32
      arr_writer_append_int64 arr_writer_append_double arr_writer_append_utf8
      arr_writer_append_binary
  append_item_lem writer Leaf.null w = refl
  append_item_lem writer (Leaf.boolean x) w = refl
  append_item_lem writer (Leaf.int32 x) w = refl
  append_item_lem writer (Leaf.int64 x) w = refl
  append_item_lem writer (Leaf.double x) w = refl
  append_item_lem writer (Leaf.utf8 x) w =
      ap (λ s. b.array_append writer.builder (Element.utf8 s) w)
        (take-all (length x) x (omega arith))
  append_item_lem writer (Leaf.binary x) w =
      ap (λ s. b.array_append writer.builder (Element.binary s) w)
        (take-all (length x) x (omega arith))
