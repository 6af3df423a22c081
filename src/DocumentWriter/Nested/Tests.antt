-- ===== src/DocumentWriter/Nested/Tests.antt =====
-- A writer of libbson without a bound, for src/document_writer.c and src/array_writer.c: its documents
-- and arrays stand in one list, and the pointers are the positions in it from 1.
use libkrossbar.Prelude.{
  ℕ, zero, suc, ◌+◌, ◌≤◌, ◌≡◌, ◌≢◌, refl, ap, ◌∙◌, true, false, Option, none, some, List, [], ◌∷◌,
  ◌++◌, arith, length,
}
use libkrossbar.Bson.{Element}
use libkrossbar.Builder.{Builder, element_size}
use libkrossbar.DocumentWriter.{DocumentWriter, ArrayWriter}
use libkrossbar.DocumentWriter.Fields.{Leaf, element}
use libkrossbar.DocumentWriter.Trees.{
  leaf, document, array, Fields, end, field, nil, item, Place, empty_place, with_field, with_item,
  Keeps, IsAppend, IsBegin, IsEnd, Nesting, fields_cost,
}
use libkrossbar.DocumentWriter.Nested.{write_fields}
use libkrossbar.DocumentWriter.Nested.RoundTrip.{write_fields_lem}

abbrev Places : Type 0
Places = List Place

abbrev nth : List Place → ℕ → Option Place
nth [] n = none
nth (p ∷ w) zero = some p
nth (p ∷ w) (suc n) = nth w n

abbrev update : ℕ → (Place → Place) → List Place → List Place
update n f [] = []
update zero f (p ∷ w) = f p ∷ w
update (suc n) f (p ∷ w) = p ∷ update n f w

abbrev place_at : ℕ → List Place → Option Place
place_at zero w = none
place_at (suc n) w = nth w n

abbrev change : ℕ → (Place → Place) → List Place → List Place
change zero f w = w
change (suc n) f w = update n f w

abbrev finish : ℕ → Option Place → (Place → Place → Place) → List Place → List Place
finish d none f w = w
finish d (some q) f w = change d (λ p. f p q) w

abbrev begin : ℕ → List ℕ → List Place → List Place
begin d key w = change d (λ p. record p { busy = true; key = key }) (w ++ (empty_place d ∷ []))

nth-update :
    (w : List Place) (n : ℕ) (f : Place → Place) (p : Place)
    → nth w n ≡ some p
    → nth (update n f w) n ≡ some (f p)
nth-update [] n f p found = cc
nth-update (q ∷ w) zero f p found = cc
nth-update (q ∷ w) (suc n) f p found = nth-update w n f p found

nth-update_other :
    (w : List Place) (n m : ℕ) (f : Place → Place) → m ≢ n → nth (update n f w) m ≡ nth w m
nth-update_other [] n m f ne = refl
nth-update_other (q ∷ w) zero zero f ne = elim (ne refl) [ ]
nth-update_other (q ∷ w) zero (suc m) f ne = refl
nth-update_other (q ∷ w) (suc n) zero f ne = refl
nth-update_other (q ∷ w) (suc n) (suc m) f ne = nth-update_other w n m f (λ e. ne (ap suc e))

nth-append :
    (w : List Place) (n : ℕ) (p q : Place) → nth w n ≡ some p → nth (w ++ (q ∷ [])) n ≡ some p
nth-append [] n p q found = cc
nth-append (r ∷ w) zero p q found = found
nth-append (r ∷ w) (suc n) p q found = nth-append w n p q found

nth-length : (w : List Place) → nth w (length w) ≡ none
nth-length [] = refl
nth-length (p ∷ w) = nth-length w

nth-append_length : (w : List Place) (q : Place) → nth (w ++ (q ∷ [])) (length w) ≡ some q
nth-append_length [] q = refl
nth-append_length (p ∷ w) q = nth-append_length w q

place_at-change :
    (w : List Place) (d : ℕ) (f : Place → Place) (p : Place)
    → place_at d w ≡ some p
    → place_at d (change d f w) ≡ some (f p)
place_at-change w zero f p found = cc
place_at-change w (suc d) f p found = nth-update w d f p found

place_at-change_other :
    (w : List Place) (d x : ℕ) (f : Place → Place)
    → x ≢ d
    → place_at x (change d f w) ≡ place_at x w
place_at-change_other w zero x f ne = refl
place_at-change_other w (suc d) zero f ne = refl
place_at-change_other w (suc d) (suc x) f ne = nth-update_other w d x f (λ e. ne (ap suc e))

place_at-append :
    (w : List Place) (d : ℕ) (p q : Place)
    → place_at d w ≡ some p
    → place_at d (w ++ (q ∷ [])) ≡ some p
place_at-append w zero p q found = cc
place_at-append w (suc d) p q found = nth-append w d p q found

-- The room that stays.
abbrev room : List Place → ℕ
room w = 1000

change-IsAppend :
    (d : ℕ) (f : Place → Place) (w : List Place) (cost : ℕ)
    → IsAppend place_at room cost d f w (true, change d f w)
change-IsAppend d f w cost fits p found free = (
  refl,
  place_at-change w d f p found,
  λ x q ne there. place_at-change_other w d x f ne ∙ there,
  omega arith,
)

begin-IsBegin :
    (d : ℕ) (key : List ℕ) (w : List Place) (cost : ℕ)
    → IsBegin place_at room cost d key (suc (length w)) w (true, begin d key w)
begin-IsBegin d key w cost fits p found free =
    let opened = λ (p : Place). record p { busy = true; key = key } in
    let ne : suc (length w) ≢ d = λ e. let fresh = nth-length w in cc in
    (
      refl,
      omega arith,
      nth-length w,
      place_at-change (w ++ (empty_place d ∷ [])) d opened p
          (place_at-append w d p (empty_place d) found),
      place_at-change_other (w ++ (empty_place d ∷ [])) d (suc (length w)) opened ne
          ∙ nth-append_length w (empty_place d),
      λ x q ne' there.
          place_at-change_other (w ++ (empty_place d ∷ [])) d x opened ne'
          ∙ place_at-append w x q (empty_place d) there,
      omega arith,
    )

finish-IsEnd :
    (d c : ℕ) (f : Place → Place → Place) (w : List Place)
    → IsEnd place_at room d c f w (true, finish d (place_at c w) f w)
finish-IsEnd d c f w p q found inner busy free parent = rw inner (
  refl,
  place_at-change w d (λ p. f p q) p found,
  λ x r ne ne' there. place_at-change_other w d x (λ p. f p q) ne ∙ there,
  omega arith,
)

abbrev leaf_of : Element → Leaf
leaf_of (Element.boolean x) = Leaf.boolean x
leaf_of (Element.int32 x) = Leaf.int32 x
leaf_of (Element.int64 x) = Leaf.int64 x
leaf_of (Element.double x) = Leaf.double x
leaf_of (Element.utf8 x) = Leaf.utf8 x
leaf_of (Element.binary x) = Leaf.binary x
leaf_of _ = Leaf.null

leaf_of-element : (v : Leaf) → leaf_of (element v) ≡ v
leaf_of-element Leaf.null = refl
leaf_of-element (Leaf.boolean x) = refl
leaf_of-element (Leaf.int32 x) = refl
leaf_of-element (Leaf.int64 x) = refl
leaf_of-element (Leaf.double x) = refl
leaf_of-element (Leaf.utf8 x) = refl
leaf_of-element (Leaf.binary x) = refl

full : (key : List ℕ) (e : Element) → ¬ (5 + element_size key e ≤ 0)
full key e le = omega (arith, le)

-- There is no use of a capacity in it.
abbrev builder : Builder
builder = record {
  World = List Place;
  new_from_buffer = λ size w. (suc (length w), w ++ (empty_place 0 ∷ []));
  new = λ w. (suc (length w), w);
  destroy = λ d w. w;
  len = λ d w. 5;
  append = λ d key e w. (true, change d (λ p. with_field p key (leaf (leaf_of e))) w);
  document_begin = λ d key c w. (true, begin d key w);
  document_end =
      λ d c w. (true, finish d (place_at c w) (λ p q. with_field p p.key (document q.fields)) w);
  array_begin = λ d key w. ((true, suc (length w)), begin d key w);
  array_end =
      λ d c w. (true, finish d (place_at c w) (λ p q. with_field p p.key (array q.items)) w);
  array_append = λ d e w. (true, change d (λ p. with_item p (leaf (leaf_of e))) w);
  array_document_begin = λ d c w. (true, begin d [] w);
  array_document_end =
      λ d c w. (true, finish d (place_at c w) (λ p q. with_item p (document q.fields)) w);
  array_array_begin = λ d w. ((true, suc (length w)), begin d [] w);
  array_array_end = λ d c w. (true, finish d (place_at c w) (λ p q. with_item p (array q.items)) w);
  fields = λ d w. [];
  capacity = λ d w. 0;
  append_fits = λ d key e w le. elim (full key e le) [ ];
}

abbrev nesting : Nesting builder
nesting = record {
  at = place_at;
  room = room;
  append =
      λ d key v w. rw (leaf_of-element v) (change-IsAppend d (λ p. with_field p key (leaf v)) w _);
  document_begin = λ d key w. begin-IsBegin d key w _;
  document_end = λ d c w. finish-IsEnd d c (λ p q. with_field p p.key (document q.fields)) w;
  array_begin = λ d key w. begin-IsBegin d key w _;
  array_end = λ d c w. finish-IsEnd d c (λ p q. with_field p p.key (array q.items)) w;
  array_append =
      λ d v w. rw (leaf_of-element v) (change-IsAppend d (λ p. with_item p (leaf v)) w _);
  array_document_begin = λ d w. begin-IsBegin d [] w _;
  array_document_end = λ d c w. finish-IsEnd d c (λ p q. with_item p (document q.fields)) w;
  array_array_begin = λ d w. begin-IsBegin d [] w _;
  array_array_end = λ d c w. finish-IsEnd d c (λ p q. with_item p (array q.items)) w;
}

abbrev document_memory : List Place → DocumentWriter
document_memory w = record { bson = 9; parent_document = 8; parent_array = 7 }

abbrev array_memory : List Place → ArrayWriter
array_memory w = record { builder = 6; parent_document = 0; parent_array = 5 }

abbrev root : DocumentWriter
root = record { bson = 1; parent_document = 0; parent_array = 0 }

-- `{ "a": [7, { "b": [null] }], "c": true }`
abbrev tree : Fields
tree =
    field (97 ∷ [])
      (array (
        item (leaf (Leaf.int32 7))
          (item (document (field (98 ∷ []) (array (item (leaf Leaf.null) nil)) end)) nil)))
      (field (99 ∷ []) (leaf (Leaf.boolean true)) end)

fits : fields_cost tree ≤ 1000
unfolding fields_cost
fits = omega arith

write_fields_lem_example :
    (w : List Place) × (q : Place) × (write_fields builder document_memory array_memory root tree
        (empty_place 0 ∷ [])
      ≡ some w)
    × (place_at 1 w ≡ some q)
    × (q.fields ≡ tree)
    × (q.busy ≡ false)
    × Keeps place_at 1 (empty_place 0 ∷ []) w
write_fields_lem_example =
    write_fields_lem builder nesting document_memory array_memory root tree (empty_place 0 ∷ [])
      (empty_place 0) (omega arith) refl refl fits
