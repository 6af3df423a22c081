-- ===== src/DocumentWriter/Trees.antt =====
-- Documents as trees, and the writer of libbson on nested documents and arrays: the parameter of
-- src/document_writer.c and src/array_writer.c, with the documented behaviour of its functions where
-- buffers have room.
use libkrossbar.Prelude.{
  ℕ, ◌+◌, ◌≤◌, ◌≡◌, ◌≢◌, refl, Bool, true, false, Option, none, some, List, [], length,
}
use libkrossbar.Memory.{null}
use libkrossbar.Builder.{Builder, value_size}
use libkrossbar.DocumentWriter.Fields.{Leaf, element}

mutual
  pub data Tree : Type 0 where
    leaf : Leaf → Tree
    document : Fields → Tree
    array : Items → Tree

  pub data Fields : Type 0 where
    end : Fields
    field : List ℕ → Tree → Fields → Fields

  pub data Items : Type 0 where
    nil : Items
    item : Tree → Items → Items

abbrev pub append_fields : Fields → Fields → Fields
append_fields end gs = gs
append_fields (field key t fs) gs = field key t (append_fields fs gs)

abbrev pub append_items : Items → Items → Items
append_items nil ys = ys
append_items (item t xs) ys = item t (append_items xs ys)

pub append_fields_assoc :
    (fs gs hs : Fields)
    → append_fields (append_fields fs gs) hs ≡ append_fields fs (append_fields gs hs)
append_fields_assoc end gs hs = refl
append_fields_assoc (field key t fs) gs hs = rw (append_fields_assoc fs gs hs) refl

pub append_fields-end : (fs : Fields) → append_fields fs end ≡ fs
append_fields-end end = refl
append_fields-end (field key t fs) = rw (append_fields-end fs) refl

pub append_items_assoc :
    (xs ys zs : Items) → append_items (append_items xs ys) zs ≡ append_items xs (append_items ys zs)
append_items_assoc nil ys zs = refl
append_items_assoc (item t xs) ys zs = rw (append_items_assoc xs ys zs) refl

pub append_items-nil : (xs : Items) → append_items xs nil ≡ xs
append_items-nil nil = refl
append_items-nil (item t xs) = rw (append_items-nil xs) refl

-- What libbson keeps of an open `bson_t` or `bson_array_builder_t`: what was appended so far, the one
-- that it stands in, and whether one stands in it, with its key.
pub record Place : Type 0 where
  pub fields : Fields
  pub items : Items
  pub parent : ℕ
  pub busy : Bool
  pub key : List ℕ

abbrev pub empty_place : ℕ → Place
empty_place parent = record { fields = end; items = nil; parent = parent; busy = false; key = [] }

abbrev pub with_field : Place → List ℕ → Tree → Place
with_field p key t = record p { fields = append_fields p.fields (field key t end); busy = false }

abbrev pub with_item : Place → Tree → Place
with_item p t = record p { items = append_items p.items (item t nil); busy = false }

-- The shapes of the laws, of an operation on the place at `d`.
module _ {World : Type 0} (at : ℕ → World → Option Place) where
  -- The other places are as they were.
  abbrev pub Keeps : ℕ → World → World → Type 0
  Keeps d w w' = (x : ℕ) (p : Place) → x ≢ d → at x w ≡ some p → at x w' ≡ some p

  abbrev pub KeepsBut : ℕ → ℕ → World → World → Type 0
  KeepsBut d c w w' = (x : ℕ) (p : Place) → x ≢ d → x ≢ c → at x w ≡ some p → at x w' ≡ some p

-- An operation of a given cost on a buffer with that much room, of which it leaves the rest.
module _ {World : Type 0} (at : ℕ → World → Option Place) (room : World → ℕ) where
  abbrev pub IsAppend : (cost : ℕ) → ℕ → (Place → Place) → World → Bool × World → Type 0
  IsAppend cost d change w r =
      cost ≤ room w
      → (p : Place) → at d w ≡ some p
      → p.busy ≡ false
      → (r.0 ≡ true) × (at d r.1 ≡ some (change p)) × Keeps at d w r.1 × (room w ≤ room r.1 + cost)

  abbrev pub IsBegin : (cost : ℕ) → ℕ → List ℕ → (c : ℕ) → World → Bool × World → Type 0
  IsBegin cost d key c w r =
      cost ≤ room w
      → (p : Place) → at d w ≡ some p
      → p.busy ≡ false
      → (r.0 ≡ true)
        × (c ≢ null)
        × (at c w ≡ none)
        × (at d r.1 ≡ some (record p { busy = true; key = key }))
        × (at c r.1 ≡ some (empty_place d))
        × Keeps at d w r.1
        × (room w ≤ room r.1 + cost)

  abbrev pub IsEnd : ℕ → ℕ → (Place → Place → Place) → World → Bool × World → Type 0
  IsEnd d c change w r =
      (p q : Place)
      → at d w ≡ some p
      → at c w ≡ some q
      → p.busy ≡ true
      → q.busy ≡ false
      → q.parent ≡ d
      → (r.0 ≡ true) × (at d r.1 ≡ some (change p q)) × KeepsBut at d c w r.1 × (room w ≤ room r.1)

-- The bytes that a tree takes at most under a key of `n` bytes; the keys of the items of an array are
-- numbers below 2^32, of 10 digits at most.
unfoldable mutual
  pub cost_of : (n : ℕ) → Tree → ℕ
  cost_of n (leaf v) = 2 + n + value_size (element v)
  cost_of n (document fs) = 7 + n + fields_cost fs
  cost_of n (array xs) = 7 + n + items_cost xs

  pub fields_cost : Fields → ℕ
  fields_cost end = 0
  fields_cost (field key t fs) = cost_of (length key) t + fields_cost fs

  pub items_cost : Items → ℕ
  items_cost nil = 0
  items_cost (item t xs) = cost_of 10 t + items_cost xs

-- What libbson's functions promise on a place that no other one stands in: what each leaves at the place
-- that it works on. `room` is the number of bytes for which every buffer has room, and memory that
-- `bson_new` and the array builders ask for is there.
pub record Nesting (b : Builder) : Type 1 where
  pub at : ℕ → b.World → Option Place
  pub room : b.World → ℕ
  pub append :
      (d : ℕ) (key : List ℕ) (v : Leaf) (w : b.World)
      → IsAppend at room
          (2 + length key + value_size (element v))
          d
          (λ p. with_field p key (leaf v))
          w
          (b.append d key (element v) w)
  pub document_begin :
      (d : ℕ) (key : List ℕ) (w : b.World)
      → IsBegin at room
          (7 + length key)
          d
          key
          (b.new w).0
          w
          (b.document_begin d key (b.new w).0 (b.new w).1)
  pub document_end :
      (d c : ℕ) (w : b.World)
      → IsEnd at room d c (λ p q. with_field p p.key (document q.fields)) w (b.document_end d c w)
  pub array_begin :
      (d : ℕ) (key : List ℕ) (w : b.World)
      → IsBegin at room
          (7 + length key)
          d
          key
          (b.array_begin d key w).0.1
          w
          ((b.array_begin d key w).0.0, (b.array_begin d key w).1)
  pub array_end :
      (d c : ℕ) (w : b.World)
      → IsEnd at room d c (λ p q. with_field p p.key (array q.items)) w (b.array_end d c w)
  pub array_append :
      (d : ℕ) (v : Leaf) (w : b.World)
      → IsAppend at room
          (12 + value_size (element v))
          d
          (λ p. with_item p (leaf v))
          w
          (b.array_append d (element v) w)
  pub array_document_begin :
      (d : ℕ) (w : b.World)
      → IsBegin at room 17 d [] (b.new w).0 w (b.array_document_begin d (b.new w).0 (b.new w).1)
  pub array_document_end :
      (d c : ℕ) (w : b.World)
      → IsEnd at room d c (λ p q. with_item p (document q.fields)) w (b.array_document_end d c w)
  pub array_array_begin :
      (d : ℕ) (w : b.World)
      → IsBegin at room 17 d []
          (b.array_array_begin d w).0.1
          w
          ((b.array_array_begin d w).0.0, (b.array_array_begin d w).1)
  pub array_array_end :
      (d c : ℕ) (w : b.World)
      → IsEnd at room d c (λ p q. with_item p (array q.items)) w (b.array_array_end d c w)
