-- ===== src/Allocator/Released.antt =====
-- `allocator_free` of any block but the last one, whatever stands around it
-- (src/shmem/allocator.c).
use libkrossbar.Prelude.{
  ℕ, ◌+◌, ◌<◌, ◌≡◌, refl, sym, ap, ◌∙◌, subst, ◌⊎◌, inl, inr, List, [], ◌∷◌, ◌++◌, length,
  append_assoc,
}
use libkrossbar.Memory.{Memory, ok}
use libkrossbar.Allocator.Fields.{BlockType, Allocator, allocated, free, futex_of}
use libkrossbar.Allocator.{allocator_free}
use libkrossbar.Allocator.Layout.{Block, block, Tiled, Tiled-split}
use libkrossbar.Allocator.Validity.{first_block, IsValid}
use libkrossbar.Allocator.Payload.{in_payload, payload-join}
use libkrossbar.Allocator.Coalesce.{joined, payload-joined}
use libkrossbar.Allocator.Release.{NotFree, Freed, free-busy, free-joins}

nil_or_last :
    (bs : List Block)
    → (bs ≡ []) ⊎ ((b : List Block) × (r : ℕ) × (t : BlockType) × (bs ≡ b ++ (block r t ∷ [])))
nil_or_last [] = inl refl
nil_or_last (c ∷ bs) = elim (nil_or_last bs) [
  | inl none ↦ inr ([], c.size, c.type, ap (λ l. c ∷ l) none)
  | inr (b, r, t, is) ↦ inr (c ∷ b, r, t, ap (λ l. c ∷ l) is)
]

-- What a release comes to: the blocks afterwards hold the payloads of the blocks that stay.
pub record Released (a : Allocator) (m : Memory) (e fuel x s : ℕ) (others : List Block)
    : Type 0 where
  pub after : Memory
  pub blocks : List Block
  pub runs : allocator_free fuel a (x + 24) m ≡ ok tt after
  pub freed : Freed a m e s blocks after
  pub same : (y : ℕ) → in_payload y (first_block a) blocks ≡ in_payload y (first_block a) others

module _ (a : Allocator) (m : Memory) (e s t : ℕ) (type : BlockType) (after : List Block)
    (fs : List ℕ) (unlocked : m (futex_of a) ≡ 0) (fuel : ℕ) (enough : length fs < fuel) where
  Released-joins :
      (b : List Block) (y r x : ℕ)
      → IsValid a m e ((b ++ (block r free ∷ [])) ++ (block s allocated ∷ block t type ∷ after)) fs
      → Tiled a m (first_block a) b y
      → y + r ≡ x
      → Released a m e fuel x s
          ((b ++ (block r free ∷ [])) ++ (block s free ∷ block t type ∷ after))
  Released-joins b y r x v front at =
      subst
        (λ z.
          Released a m e fuel z s
            ((b ++ (block r free ∷ [])) ++ (block s free ∷ block t type ∷ after)))
        at
        (let done =
            free-joins a m e b after fs y r s t type fuel
              (subst (λ l. IsValid a m e l fs)
                (append_assoc b (block r free ∷ []) (block s allocated ∷ block t type ∷ after)) v)
              front unlocked enough in
          record {
            after = done.0;
            blocks = b ++ joined (r + s) t type after;
            runs = done.1;
            freed = done.2;
            same = λ q.
                payload-joined a m q b after y (r + s) t type front
                ∙ payload-join a m q (first_block a) b (block t type ∷ after) y r s front
                ∙ ap (in_payload q (first_block a)) (
                    sym (append_assoc b (block r free ∷ []) (block s free ∷ block t type ∷ after)));
          })

  Released-busy :
      (before : List Block) (x : ℕ)
      → IsValid a m e (before ++ (block s allocated ∷ block t type ∷ after)) fs
      → Tiled a m (first_block a) before x
      → NotFree before
      → Released a m e fuel x s (before ++ (block s free ∷ block t type ∷ after))
  Released-busy before x v front busy =
      let done =
        free-busy a m e before (block t type ∷ after) fs x s v front unlocked fuel t type after refl
          busy enough in
      record {
        after = done.0;
        blocks = before ++ joined s t type after;
        runs = done.1;
        freed = done.2;
        same = λ q. payload-joined a m q before after x s t type front;
      }

  Released-last :
      (b : List Block) (r : ℕ) (u : BlockType) (x : ℕ)
      → IsValid a m e ((b ++ (block r u ∷ [])) ++ (block s allocated ∷ block t type ∷ after)) fs
      → Tiled a m (first_block a) (b ++ (block r u ∷ [])) x
      → Released a m e fuel x s ((b ++ (block r u ∷ [])) ++ (block s free ∷ block t type ∷ after))
  Released-last b r free x v front =
      let (y, front', last) = Tiled-split a m (first_block a) x b (block r free ∷ []) front in
      Released-joins b y r x v front' last.1
  Released-last b r allocated x v front =
      Released-busy (b ++ (block r allocated ∷ [])) x v front (inr (b, r, refl))

  -- On a valid, unlocked region with more fuel than free blocks: freeing any allocated block but
  -- the last one returns, whatever stands around it. The region is valid again, the account of free
  -- bytes is more by the block's size, the lock is released, and the payloads of the allocated
  -- blocks that stay are as they were.
  pub free-Released :
      (before : List Block) (x : ℕ)
      → IsValid a m e (before ++ (block s allocated ∷ block t type ∷ after)) fs
      → Tiled a m (first_block a) before x
      → Released a m e fuel x s (before ++ (block s free ∷ block t type ∷ after))
  free-Released before x v front = elim (nil_or_last before) [
    | inl none ↦ Released-busy before x v front (inl none)
    | inr (b, r, u, is) ↦
        subst (λ l. Released a m e fuel x s (l ++ (block s free ∷ block t type ∷ after))) (sym is)
          (Released-last b r u x
            (subst (λ l. IsValid a m e (l ++ (block s allocated ∷ block t type ∷ after)) fs) is v)
            (subst (λ l. Tiled a m (first_block a) l x) is front))
  ]
