-- ===== src/Allocator/Layout.antt =====
-- How blocks fill the region of src/shmem/allocator.c: each block stands right behind the one
-- before it, and carries its size and type in its header and in its footer.
use libkrossbar.Prelude.{
  ℕ, ◌+◌, ◌-◌, ◌%◌, ◌≤◌, ◌<◌, ◌≡◌, refl, ◌⊎◌, inl, inr, Bool, true, false, ◌||◌, List, [], ◌∷◌,
  ◌++◌, arith, ◌==◌, if◌then◌else◌, ap, Bool-cases, ◌&&◌,
}
use libkrossbar.Memory.{Memory, write, low_half, alignment}
use libkrossbar.Allocator.Fields.{BlockType, free, allocated, code, Allocator}
use libkrossbar.Allocator.FreeList.{has}

pub record Block : Type 0 where
  pub size : ℕ
  pub type : BlockType

abbrev pub block : ℕ → BlockType → Block
block s t = record { size = s; type = t }

-- The block `b` stands at `x`.
pub record HasBlock (a : Allocator) (m : Memory) (x : ℕ) (b : Block) : Type 0 where
  pub big : 48 ≤ b.size
  pub aligned : (x - a.header) % alignment ≡ 0
  pub size_tag : m x ≡ b.size
  pub type_tag : low_half (m (x + 8)) ≡ code b.type
  pub footer_size : m (x + b.size - 16) ≡ b.size
  pub footer_type : low_half (m (x + b.size - 16 + 8)) ≡ code b.type

-- The blocks `bs` fill the region from `p` to `e`.
abbrev pub Tiled : Allocator → Memory → ℕ → List Block → ℕ → Type 0
Tiled a m p [] e = p ≡ e
Tiled a m p (b ∷ bs) e = HasBlock a m p b × Tiled a m (p + b.size) bs e

abbrev pub is_free : Block → Bool
is_free b = elim b.type [ free ↦ true | allocated ↦ false ]

-- the addresses of the free blocks
abbrev pub frees : ℕ → List Block → List ℕ
frees p [] = []
frees p (b ∷ bs) = let rest = frees (p + b.size) bs in if is_free b then p ∷ rest else rest

-- The word `q` is no tag of a block of `bs`.
abbrev pub Spares : ℕ → ℕ → List Block → Type 0
Spares q p [] = Unit
Spares q p (b ∷ bs) =
    ((q < p) ⊎ (p + b.size ≤ q) ⊎ (p + 16 ≤ q) × (q + 16 < p + b.size)) × Spares q (p + b.size) bs

module _ (a : Allocator) (m : Memory) (e : ℕ) where
  pub Tiled-le : (p : ℕ) (bs : List Block) {e : ℕ} → Tiled a m p bs e → p ≤ e
  Tiled-le p [] t = omega arith
  Tiled-le p (b ∷ bs) t = omega (arith, Tiled-le (p + b.size) bs t.1)

  -- A change outside the region does not concern its blocks.
  pub Tiled-frame :
      (m' : Memory) (p : ℕ) (bs : List Block)
      → Tiled a m p bs e
      → ((y : ℕ) → p ≤ y → y < e → m' y ≡ m y)
      → Tiled a m' p bs e
  Tiled-frame m' p [] t same = t
  Tiled-frame m' p (b ∷ bs) t same =
      (HasBlock-same, Tiled-frame m' (p + b.size) bs t.1 λ y lo hi. same y (omega arith) hi)
    where
      le : p + b.size ≤ e
      le = Tiled-le (p + b.size) bs t.1

      HasBlock-same : HasBlock a m' p b
      HasBlock-same =
          ground
            (arith, le, same p, same (p + 8), same (p + b.size - 16), same (p + b.size - 16 + 8))

  -- Nor does a write to a word that is no tag.
  pub Tiled-write :
      (q v p : ℕ) (bs : List Block)
      → Tiled a m p bs e
      → Spares q p bs
      → Tiled a (write m q v) p bs e
  Tiled-write q v p [] t s = t
  Tiled-write q v p (b ∷ bs) t s = (HasBlock-same, Tiled-write q v (p + b.size) bs t.1 s.1)
    where
      HasBlock-same : HasBlock a (write m q v) p b
      HasBlock-same = unfold write in ground arith

  pub Spares-left : (q p : ℕ) (bs : List Block) → Tiled a m p bs e → q < p → Spares q p bs
  Spares-left q p [] t h = tt
  Spares-left q p (b ∷ bs) t h = (inl h, Spares-left q (p + b.size) bs t.1 (omega arith))

  pub frees-bounds :
      (x p : ℕ) (bs : List Block)
      → Tiled a m p bs e
      → has x (frees p bs) ≡ true
      → (p ≤ x) × (x + 48 ≤ e)
  frees-bounds x p [] t h = cc
  frees-bounds x p (b ∷ bs) t h =
      ground (arith, Tiled-le (p + b.size) bs t.1, frees-bounds x (p + b.size) bs t.1)

  -- The `next_free_block_offset` of a free block is no tag.
  pub Spares-next :
      (x p : ℕ) (bs : List Block)
      → Tiled a m p bs e
      → has x (frees p bs) ≡ true
      → Spares (x + 16) p bs
  Spares-next x p [] t h = tt
  Spares-next x p (b ∷ bs) t h = ground (
    arith,
    frees-bounds x (p + b.size) bs t.1,
    Spares-next x (p + b.size) bs t.1,
    Spares-left (x + 16) (p + b.size) bs t.1,
  )

  pub Tiled-append :
      (p : ℕ) (xs ys : List Block) (x : ℕ)
      → Tiled a m p xs x
      → Tiled a m x ys e
      → Tiled a m p (xs ++ ys) e
  Tiled-append p [] ys x t u = rw t u
  Tiled-append p (b ∷ xs) ys x t u = (t.0, Tiled-append (p + b.size) xs ys x t.1 u)

  pub has-frees-append :
      (y p : ℕ) (xs ys : List Block) (x : ℕ)
      → Tiled a m p xs x
      → has y (frees p (xs ++ ys)) ≡ (has y (frees p xs) || has y (frees x ys))
  has-frees-append y p [] ys x t = rw t
  has-frees-append y p (b ∷ xs) ys x t = ground (arith, has-frees-append y (p + b.size) xs ys x t.1)

  pub Tiled-drop :
      (p : ℕ) (xs ys : List Block) (x : ℕ)
      → Tiled a m p xs x
      → Tiled a m p (xs ++ ys) e
      → Tiled a m x ys e
  Tiled-drop p [] ys x t u = rw t at u
  Tiled-drop p (b ∷ xs) ys x t u = Tiled-drop (p + b.size) xs ys x t.1 u.1

  pub Spares-take : (q p : ℕ) (xs ys : List Block) → Spares q p (xs ++ ys) → Spares q p xs
  Spares-take q p [] ys s = tt
  Spares-take q p (b ∷ xs) ys s = (s.0, Spares-take q (p + b.size) xs ys s.1)

  pub Spares-drop :
      (q p : ℕ) (xs ys : List Block) (x : ℕ)
      → Tiled a m p xs x
      → Spares q p (xs ++ ys)
      → Spares q x ys
  Spares-drop q p [] ys x t s = rw t at s
  Spares-drop q p (b ∷ xs) ys x t s = Spares-drop q (p + b.size) xs ys x t.1 s.1

-- A free block stands at `x` among the blocks `bs` that fill a region from `p` on.
pub record FreeCut (a : Allocator) (m : Memory) (p : ℕ) (bs : List Block) (x : ℕ) : Type 0 where
  pub before : List Block
  pub size : ℕ
  pub after : List Block
  pub whole : bs ≡ before ++ (block size free ∷ after)
  pub front : Tiled a m p before x

FreeCut-cons :
    (a : Allocator) (m : Memory) (p : ℕ) (b : Block) (bs : List Block) (x : ℕ)
    → HasBlock a m p b
    → FreeCut a m (p + b.size) bs x
    → FreeCut a m p (b ∷ bs) x
FreeCut-cons a m p b bs x h c = record {
  before = b ∷ c.before;
  size = c.size;
  after = c.after;
  whole = ap (λ l. b ∷ l) c.whole;
  front = (h, c.front);
}

-- The free block at a listed address.
pub FreeCut-has :
    (a : Allocator) (m : Memory) (e x p : ℕ) (bs : List Block)
    → Tiled a m p bs e
    → has x (frees p bs) ≡ true
    → FreeCut a m p bs x
FreeCut-has a m e x p [] t h = absurd (cc)
FreeCut-has a m e x p (b ∷ bs) t h = elim (Bool-cases (is_free b && (p == x))) [
  | inl here ↦ record {
    before = [];
    size = b.size;
    after = bs;
    whole = ground arith;
    front = ground arith;
  }
  | inr beyond ↦
      FreeCut-cons a m p b bs x t.0 (FreeCut-has a m e x (p + b.size) bs t.1 (ground arith))
]

-- The blocks before `x`, in any memory where they start a filled region.
pub Tiled-front :
    (a : Allocator) (m m' : Memory) (p e x : ℕ) (xs ys : List Block)
    → Tiled a m p xs x
    → Tiled a m' p (xs ++ ys) e
    → Tiled a m' p xs x
Tiled-front a m m' p e x [] ys t u = t
Tiled-front a m m' p e x (b ∷ xs) ys t u = (u.0, Tiled-front a m m' (p + b.size) e x xs ys t.1 u.1)

-- Where the blocks `xs` end, in front of `ys`.
pub Tiled-split :
    (a : Allocator) (m : Memory) (p e : ℕ) (xs ys : List Block)
    → Tiled a m p (xs ++ ys) e
    → (x : ℕ) × Tiled a m p xs x × Tiled a m x ys e
Tiled-split a m p e [] ys t = (p, refl, t)
Tiled-split a m p e (b ∷ xs) ys t =
    let (x, front, back) = Tiled-split a m (p + b.size) e xs ys t.1 in (x, (t.0, front), back)
