-- ===== src/Allocator/Unlink.antt =====
-- The free list after a block has left it or has joined it (src/shmem/allocator.c).
use libkrossbar.Prelude.{
  ℕ, ◌+◌, ◌≤◌, ◌<◌, ◌≡◌, refl, ◌≢◌, ◌⊎◌, inl, inr, true, false, not, ◌&&◌, List, [], ◌∷◌, arith,
  ◌==◌, if◌then◌else◌, Bool-cases, ap, sym,
}
use libkrossbar.Memory.{Memory, write, null_offset}
use libkrossbar.Allocator.Fields.{Allocator, free, allocated, total_size_of, next_of}
use libkrossbar.Allocator.Tags.{
  tagged, tagged_ne, tagged_size, tagged_type, tagged_footer_size, tagged_footer_type,
}
use libkrossbar.Allocator.FreeList.{has, Chain, link_of, unlinked}
use libkrossbar.Allocator.Layout.{block, HasBlock}

abbrev pub Distinct : List ℕ → Type 0
Distinct [] = Unit
Distinct (f ∷ fs) = (has f fs ≡ false) × Distinct fs

abbrev pub remove : ℕ → List ℕ → List ℕ
remove x [] = []
remove x (f ∷ fs) = if f == x then fs else f ∷ remove x fs

pub has-remove :
    (y x : ℕ) (fs : List ℕ) → Distinct fs → has y (remove x fs) ≡ (has y fs && not (x == y))
has-remove y x [] d = refl
has-remove y x (f ∷ fs) d = ground (arith, has-remove y x fs d.1)

pub remove-Distinct : (x : ℕ) (fs : List ℕ) → Distinct fs → Distinct (remove x fs)
remove-Distinct x [] d = tt
remove-Distinct x (f ∷ fs) d = ground (arith, remove-Distinct x fs d.1, has-remove f x fs d.1)

-- The words from `x` on, `s` of them, do not hold `q`.
abbrev pub Outside : (x s q : ℕ) → Type 0
Outside x s q = (q < x) ⊎ (x + s ≤ q)

-- Each listed block is `x` itself or lies outside it, and none lies below `low`.
abbrev pub Apart : (low x s : ℕ) → List ℕ → Type 0
Apart low x s [] = Unit
Apart low x s (f ∷ fs) = (low ≤ f) × ((f ≡ x) ⊎ (f + 48 ≤ x) ⊎ (x + s ≤ f)) × Apart low x s fs

module _ (m : Memory) (link x s : ℕ) (hs : m x ≡ s) (big : 48 ≤ s) (out : Outside x s link) where
  relinked : Memory
  relinked = write (write m link (m (next_of x))) (next_of x) null_offset

  relinked_size : relinked x ≡ s
  unfolding relinked write
  relinked_size = ground arith

  relinked_ne : (y : ℕ) → y ≢ link → Outside x s y → relinked y ≡ m y
  unfolding relinked write
  relinked_ne y ne o = ground arith

  relinked-link : relinked link ≡ m (x + 16)
  unfolding relinked write
  relinked-link = ground arith

  unlinked-tagged : unlinked m link x ≡ tagged relinked x s allocated
  unfolding unlinked relinked
  unlinked-tagged = ap (λ n. tagged relinked x n allocated) relinked_size

  tagged_Outside : (y : ℕ) → Outside x s y → unlinked m link x y ≡ relinked y
  tagged_Outside y o = rw unlinked-tagged (ground (arith, tagged_ne relinked x s allocated y))

  -- Outside the block the change is one write.
  pub unlinked-write : (y : ℕ) → Outside x s y → unlinked m link x y ≡ write m link (m (x + 16)) y
  unfolding relinked write
  unlinked-write y o = ground (arith, tagged_Outside y)

  pub unlinked_ne : (y : ℕ) → y ≢ link → Outside x s y → unlinked m link x y ≡ m y
  unlinked_ne y ne o = ground (arith, tagged_Outside y, relinked_ne y)

  pub unlinked-link : unlinked m link x link ≡ m (x + 16)
  unlinked-link = ground (arith, tagged_Outside link, relinked-link)

  pub unlinked-HasBlock :
      (a : Allocator)
      → HasBlock a m x (block s free)
      → HasBlock a (unlinked m link x) x (block s allocated)
  unlinked-HasBlock a h = record {
    big = big;
    aligned = h.aligned;
    size_tag = rw unlinked-tagged (tagged_size relinked x s allocated (omega arith));
    type_tag = rw unlinked-tagged (tagged_type relinked x s allocated (omega arith));
    footer_size = rw unlinked-tagged (tagged_footer_size relinked x s allocated (omega arith));
    footer_type = rw unlinked-tagged (tagged_footer_type relinked x s allocated (omega arith));
  }

ne_of_has : (f y : ℕ) (fs : List ℕ) → has f fs ≡ true → has y fs ≡ false → f ≢ y
ne_of_has f y fs i h e = cc

module _ (a : Allocator) (m : Memory) (x s : ℕ) where
  pub link_of_ne :
      (prior f : ℕ) (fs : List ℕ) → has prior (f ∷ fs) ≡ false → link_of (f + 16) fs x ≢ prior + 16
  unfolding link_of
  link_of_ne prior f [] h = ground arith
  link_of_ne prior f (g ∷ gs) h = ground (arith, link_of_ne prior g gs)

  pub link_of-cases :
      (link : ℕ) (fs : List ℕ)
      → (link_of link fs x ≡ link) ⊎ ((g : ℕ) × (has g fs ≡ true) × (link_of link fs x ≡ g + 16))
  unfolding link_of
  link_of-cases link [] = inl refl
  link_of-cases link (f ∷ fs) = elim (link_of-cases (f + 16) fs) [
    | inl e ↦ elim (Bool-cases (f == x)) [
      | inl q ↦ inl (rw q)
      | inr q ↦ inr (f, ground arith, rw q e)
    ]
    | inr (g, i, e) ↦ elim (Bool-cases (f == x)) [
      | inl q ↦ inl (rw q)
      | inr q ↦ inr (g, ground arith, rw q e)
    ]
  ]

  pub link_of-Outside :
      (low low' prior : ℕ) (fs : List ℕ)
      → low ≤ prior
      → low ≤ low'
      → Outside x s (prior + 16)
      → Apart low' x s fs
      → has x fs ≡ true
      → 48 ≤ s
      → Outside x s (link_of (prior + 16) fs x) × (low + 16 ≤ link_of (prior + 16) fs x)
  unfolding link_of
  link_of-Outside low low' prior [] hl hh ho ap' hi big = absurd (cc)
  link_of-Outside low low' prior (f ∷ fs) hl hh ho ap' hi big =
      ground (arith, link_of-Outside low low' f fs)

  -- A list that the change does not touch.
  pub Chain-frame :
      (m' : Memory) (offset : ℕ) (fs : List ℕ)
      → Chain a m offset fs
      → m' (total_size_of a) ≡ m (total_size_of a)
      → ((f : ℕ) → has f fs ≡ true → m' (f + 16) ≡ m (f + 16))
      → Chain a m' offset fs
  Chain-frame m' offset [] c ht same = c
  Chain-frame m' offset (f ∷ fs) c ht same = (
    c.0,
    c.1,
    rw ht c.2,
    rw (same f (ground arith)) (Chain-frame m' (m (f + 16)) fs c.3 ht λ g i. same g (ground arith)),
  )

  pub Apart-has :
      (low f : ℕ) (fs : List ℕ)
      → Apart low x s fs
      → has f fs ≡ true
      → (low ≤ f) × ((f ≡ x) ⊎ (f + 48 ≤ x) ⊎ (x + s ≤ f))
  Apart-has low f [] p h = absurd (cc)
  Apart-has low f (g ∷ gs) p h = ground (arith, Apart-has low f gs p.2)

  module _ (hs : m x ≡ s) (big : 48 ≤ s) (hx : a.header + 40 ≤ x) where
    Chain-unlinked_head :
        (prior : ℕ) (fs : List ℕ)
        → a.header + 16 ≤ prior
        → Outside x s (prior + 16)
        → Chain a m (m (x + 16)) fs
        → Apart (a.header + 40) x s fs
        → has x fs ≡ false
        → has prior fs ≡ false
        → let m' = unlinked m (prior + 16) x in Chain a m' (m' (prior + 16)) fs
    Chain-unlinked_head prior fs hp out c apart hn hi =
        rw (unlinked-link m (prior + 16) x s hs big out) (
          Chain-frame (unlinked m (prior + 16) x) (m (x + 16)) fs c
            (unlinked_ne m (prior + 16) x s hs big out _ (omega arith) (inl (omega arith)))
            λ f i. ground (
              arith,
              unlinked_ne m (prior + 16) x s hs big out (f + 16),
              ne_of_has f x fs i hn,
              ne_of_has f prior fs i hi,
              Apart-has (a.header + 40) f fs apart i,
            ))

    -- Unlinking takes `x` off the list that the word behind `prior` leads to.
    pub Chain-unlinked :
        (prior : ℕ) (fs : List ℕ)
        → a.header + 16 ≤ prior
        → Outside x s (prior + 16)
        → Chain a m (m (prior + 16)) fs
        → Apart (a.header + 40) x s fs
        → Distinct fs
        → has prior fs ≡ false
        → has x fs ≡ true
        → let m' = unlinked m (link_of (prior + 16) fs x) x in
          Chain a m' (m' (prior + 16)) (remove x fs)
    unfolding link_of
    Chain-unlinked prior [] hp out c apart d hn hi = absurd (cc)
    Chain-unlinked prior (f ∷ fs) hp out c apart d hn hi = elim (Bool-cases (f == x)) [
      | inl e ↦
          rw (e, link_of)
            (let same : f ≡ x = ground arith in
              Chain-unlinked_head prior fs hp out (rw same at (c.3)) apart.2 (rw same at (d.0))
                (ground arith))
      | inr ne ↦
          rw (ne, link_of)
            (let link = link_of (f + 16) fs x in
              let o =
                link_of-Outside (a.header + 16) (a.header + 40) f fs (omega arith) (omega arith)
                  (ground arith) apart.2 (ground arith) big in
              let kept : unlinked m link x (prior + 16) ≡ m (prior + 16) =
                unlinked_ne m link x s hs big o.0 (prior + 16)
                  (λ e. link_of_ne prior f fs hn (sym e)) out in
              let total : unlinked m link x (total_size_of a) ≡ m (total_size_of a) =
                unlinked_ne m link x s hs big o.0 (total_size_of a) (omega arith)
                  (inl (omega arith)) in
              rw (kept, total)
                (
                  c.0,
                  c.1,
                  c.2,
                  Chain-unlinked f fs (omega arith) (ground arith) c.3 apart.2 d.1 d.0
                      (ground arith),
                ))
    ]
