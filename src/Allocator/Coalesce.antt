-- ===== src/Allocator/Coalesce.antt =====
-- `allocator_coalesce_free_blocks` makes a block that has just joined the free list one with its
-- free neighbours, and keeps the invariant (src/shmem/allocator.c).
use libkrossbar.Prelude.{
  ℕ, ◌+◌, ◌≤◌, ◌<◌, ◌≡◌, refl, sym, ◌⊎◌, inl, inr, true, false, List, [], ◌∷◌, ◌++◌, arith, ◌==◌,
  ◌∙◌, subst, length, append_assoc,
}
use libkrossbar.Memory.{Memory, ok, null}
use libkrossbar.Allocator.Fields.{BlockType, Allocator, free, allocated, next_free_of}
use libkrossbar.Allocator.{coalesce_next, coalesce_free_blocks, prev_adjacent_free_block}
use libkrossbar.Allocator.Layout.{Block, block, HasBlock, Tiled, Tiled-front, Tiled-split, Tiled-le}
use libkrossbar.Allocator.Unlink.{remove}
use libkrossbar.Allocator.Payload.{in_payload, payload-join}
use libkrossbar.Allocator.Validity.{first_block, IsValid, back}
use libkrossbar.Allocator.Neighbours.{
  prev_adjacent_first, prev_adjacent_free, prev_adjacent_allocated, next_adjacent_lem,
}
use libkrossbar.Allocator.Merge.{
  merged, merged_payload, merge_blocks_lem, merged-IsValid, merged_header,
}

-- What becomes of a free block of `s` bytes in front of a block of `t` bytes.
abbrev pub joined : (s t : ℕ) → BlockType → List Block → List Block
joined s t free after = block (s + t) free ∷ after
joined s t allocated after = block s free ∷ block t allocated ∷ after

pub payload-joined :
    (a : Allocator) (m : Memory) (y : ℕ) (before after : List Block) (x s t : ℕ) (type : BlockType)
    → Tiled a m (first_block a) before x
    → in_payload y (first_block a) (before ++ joined s t type after)
      ≡ in_payload y (first_block a) (before ++ (block s free ∷ block t type ∷ after))
payload-joined a m y before after x s t free front =
    payload-join a m y (first_block a) before after x s t front
payload-joined a m y before after x s t allocated front = refl

length-remove : (x : ℕ) (fs : List ℕ) → length (remove x fs) ≤ length fs
length-remove x [] = omega arith
length-remove x (f ∷ fs) = ground (arith, length-remove x fs)

-- No free block ends where `before` ends: it is empty and the free list's head is the first block,
-- or its last block is allocated.
abbrev pub IsBusy : Allocator → Memory → List Block → Type 0
IsBusy a m before =
    ((before ≡ []) × (m (next_free_of a) ≡ 40))
    ⊎ ((b : List Block) × (r : ℕ) × (before ≡ b ++ (block r allocated ∷ [])))

-- A step of `allocator_free` that leaves the free block at `x` merged with what stands behind it.
pub record Coalesced (a : Allocator) (e : ℕ) (m : Memory) (blocks : List Block) (m' : Memory)
    : Type 0 where
  pub list : List ℕ
  pub valid : IsValid a m' e blocks list
  pub header : (y : ℕ) → y < a.header + 32 → m' y ≡ m y
  pub kept : (y : ℕ) → in_payload y (first_block a) blocks ≡ true → m' y ≡ m y

pub coalesce_next_lem :
    (a : Allocator) (m : Memory) (e : ℕ) (before after : List Block) (fs : List ℕ) (x s t : ℕ)
    (type : BlockType) (fuel : ℕ)
    → IsValid a m e (before ++ (block s free ∷ block t type ∷ after)) fs
    → Tiled a m (first_block a) before x
    → length fs ≤ fuel
    → (m' : Memory) × (coalesce_next fuel a x m ≡ ok tt m')
      × Coalesced a e m (before ++ joined s t type after) m'
unfolding coalesce_next
coalesce_next_lem a m e before after fs x s t free fuel v front h = (
  merged a m e before after fs x s t v front,
  rw (next_adjacent_lem a m e before after fs x s t free free v front, some_block)
      (merge_blocks_lem a m e before after fs x s t v front fuel h),
  record {
    list = remove (x + s) fs;
    valid = merged-IsValid a m e before after fs x s t v front;
    header = merged_header a m e before after fs x s t v front;
    kept = λ y h.
        merged_payload a m e before after fs x s t v front y
          (sym (payload-joined a m y before after x s t free front) ∙ h);
  },
)
  where
    some_block : (x + s == null) ≡ false
    some_block = ground (arith, Tiled-le a m x (first_block a) before front)
coalesce_next_lem a m e before after fs x s t allocated fuel v front h = (
  m,
  rw (next_adjacent_lem a m e before after fs x s t free allocated v front),
  record { list = fs; valid = v; header = λ y lt. refl; kept = λ y h. refl },
)

-- No free block stands in front.
module _ (a : Allocator) (m : Memory) (e : ℕ) (before rest : List Block) (fs : List ℕ) (x s : ℕ)
    (v : IsValid a m e (before ++ (block s free ∷ rest)) fs)
    (front : Tiled a m (first_block a) before x) where
  x_here : HasBlock a m x (block s free)
  x_here = (back a m e before rest fs x (block s free) v front).0

  nonnull : (x == null) ≡ false
  nonnull = ground (arith, Tiled-le a m x (first_block a) before front)

  prev_busy : IsBusy a m before → prev_adjacent_free_block a x m ≡ ok null m
  prev_busy (inl (none, head)) =
      subst (λ z. prev_adjacent_free_block a z m ≡ ok null m)
        (subst (λ l. Tiled a m (first_block a) l x) none front) (prev_adjacent_first a m head)
  prev_busy (inr (b, r, some')) =
      let (y, front', last) =
        Tiled-split a m (first_block a) x b (block r allocated ∷ [])
          (subst (λ l. Tiled a m (first_block a) l x) some' front) in
      subst (λ z. prev_adjacent_free_block a z m ≡ ok null m) last.1
        (prev_adjacent_allocated a m e b (block s free ∷ rest) fs y r allocated
          (subst (λ l. IsValid a m e l fs)
            (append_assoc b (block r allocated ∷ []) (block s free ∷ rest))
            (subst (λ l. IsValid a m e (l ++ (block s free ∷ rest)) fs) some' v))
          front' refl)

  pub coalesce_busy-next :
      (fuel : ℕ) → IsBusy a m before → coalesce_free_blocks fuel a x m ≡ coalesce_next fuel a x m
  unfolding coalesce_free_blocks
  coalesce_busy-next fuel busy = rw (nonnull, x_here.type_tag, prev_busy busy)

  pub coalesce_busy :
      (t : ℕ) (type : BlockType) (after : List Block) (fuel : ℕ)
      → rest ≡ block t type ∷ after
      → length fs ≤ fuel
      → IsBusy a m before
      → (m' : Memory) × (coalesce_free_blocks fuel a x m ≡ ok tt m')
        × Coalesced a e m (before ++ joined s t type after) m'
  coalesce_busy t type after fuel is h busy =
      let done =
        coalesce_next_lem a m e before after fs x s t type fuel
          (subst (λ l. IsValid a m e (before ++ (block s free ∷ l)) fs) is v) front h in
      (done.0, coalesce_busy-next fuel busy ∙ done.1, done.2)

-- A free block of `r` bytes stands in front, at `y`.
module _ (a : Allocator) (m : Memory) (e : ℕ) (before rest : List Block) (fs : List ℕ) (y r s : ℕ)
    (v : IsValid a m e (before ++ (block r free ∷ block s free ∷ rest)) fs)
    (front : Tiled a m (first_block a) before y) (fuel : ℕ) (h : length fs ≤ fuel) where
  y_here : Tiled a m y (block r free ∷ block s free ∷ rest) e
  y_here = back a m e before (block s free ∷ rest) fs y (block r free) v front

  y_low : first_block a ≤ y
  y_low = Tiled-le a m y (first_block a) before front

  abbrev pub widened : Memory
  widened = merged a m e before rest fs y r s v front

  pub widened-IsValid :
      IsValid a widened e (before ++ (block (r + s) free ∷ rest)) (remove (y + r) fs)
  widened-IsValid = merged-IsValid a m e before rest fs y r s v front

  pub widened-front : Tiled a widened (first_block a) before y
  widened-front = Tiled-front a m widened (first_block a) e y before _ front widened-IsValid.tiled

  pub coalesce_free-next : coalesce_free_blocks fuel a (y + r) m ≡ coalesce_next fuel a y widened
  unfolding coalesce_free_blocks
  coalesce_free-next =
      rw
        (
          nonnull',
          y_here.1.0.type_tag,
          prev_adjacent_free a m e before (block s free ∷ rest) fs y r free v front refl,
          nonnull'',
          merge_blocks_lem a m e before rest fs y r s v front fuel h,
        )
        refl
    where
      nonnull' : (y + r == null) ≡ false
      nonnull' = ground (arith, y_low)

      nonnull'' : (y == null) ≡ false
      nonnull'' = ground (arith, y_low)

  pub coalesce_free :
      (t : ℕ) (type : BlockType) (after : List Block)
      → rest ≡ block t type ∷ after
      → (m' : Memory) × (coalesce_free_blocks fuel a (y + r) m ≡ ok tt m')
        × Coalesced a e m (before ++ joined (r + s) t type after) m'
  coalesce_free t type after is =
      let done =
        coalesce_next_lem a widened e before after (remove (y + r) fs) y (r + s) t type fuel
          (subst (λ l. IsValid a widened e (before ++ (block (r + s) free ∷ l)) (remove (y + r) fs))
            is widened-IsValid)
          widened-front (omega (arith, length-remove (y + r) fs)) in
      (
        done.0,
        coalesce_free-next ∙ done.1,
        record {
          list = done.2.list;
          valid = done.2.valid;
          header =
              λ q lt. done.2.header q lt ∙ merged_header a m e before rest fs y r s v front q lt;
          kept = λ q i.
              done.2.kept q i
              ∙ merged_payload a m e before rest fs y r s v front q (
                  sym (payload-join a m q (first_block a) before rest y r s front)
                  ∙ subst
                      (λ l.
                        in_payload q (first_block a) (before ++ (block (r + s) free ∷ l)) ≡ true)
                      (sym is)
                      (sym (payload-joined a m q before after y (r + s) t type front) ∙ i));
        },
      )
