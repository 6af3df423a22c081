-- ===== src/Allocator/Fuel.antt =====
-- How long the walks over the free list of src/shmem/allocator.c are: fuel for as many steps as the
-- region has bytes is enough, since listed blocks are apart from one another.
use libkrossbar.Prelude.{
  ℕ, ◌+◌, ◌*◌, ◌≤◌, ◌<◌, ◌≡◌, ◌≢◌, ◌∙◌, sym, true, List, [], ◌∷◌, arith, length,
}
use libkrossbar.Memory.{Memory}
use libkrossbar.Allocator.Fields.{Allocator}
use libkrossbar.Allocator.FreeList.{has}
use libkrossbar.Allocator.Layout.{Block, Tiled, frees}
use libkrossbar.Allocator.Unlink.{Distinct, remove}
use libkrossbar.Allocator.Validity.{first_block, IsValid}

length-remove : (x : ℕ) (fs : List ℕ) → has x fs ≡ true → length fs ≡ length (remove x fs) + 1
length-remove x [] h = absurd (cc)
length-remove x (f ∷ fs) h = ground (arith, length-remove x fs)

has-remove_ne : (y x : ℕ) (fs : List ℕ) → y ≢ x → has y fs ≡ true → has y (remove x fs) ≡ true
has-remove_ne y x [] ne h = h
has-remove_ne y x (f ∷ fs) ne h = ground (arith, has-remove_ne y x fs ne)

-- A list without repetitions is no longer than a list that has its elements.
Distinct-length :
    (fs gs : List ℕ)
    → Distinct fs
    → ((y : ℕ) → has y fs ≡ true → has y gs ≡ true)
    → length fs ≤ length gs
Distinct-length [] gs d h = omega arith
Distinct-length (f ∷ fs) gs d h = omega (
  arith,
  length-remove f gs (h f (ground arith)),
  Distinct-length fs (remove f gs) d.1 λ y i.
      has-remove_ne y f gs (λ same. absurd (ground (arith, d.0, i, same)))
        (h y (ground (arith, i))),
)

length-frees :
    (a : Allocator) (m : Memory) (e p : ℕ) (bs : List Block)
    → Tiled a m p bs e
    → p + 48 * length (frees p bs) ≤ e
length-frees a m e p [] t = omega arith
length-frees a m e p (b ∷ bs) t = ground (arith, t.0.big, length-frees a m e (p + b.size) bs t.1)

list_length :
    (a : Allocator) (m : Memory) (e : ℕ) (bs : List Block) (fs : List ℕ)
    → IsValid a m e bs fs
    → first_block a + 48 * length fs ≤ e
list_length a m e bs fs v = omega (
  arith,
  length-frees a m e (first_block a) bs v.tiled,
  Distinct-length fs (frees (first_block a) bs) v.distinct λ y i. sym (v.listed y) ∙ i,
)

-- The fuel that a region up to `e` wants.
pub enough_fuel :
    (a : Allocator) (m : Memory) (e : ℕ) (bs : List Block) (fs : List ℕ) (fuel : ℕ)
    → IsValid a m e bs fs
    → e ≤ fuel
    → length fs < fuel
enough_fuel a m e bs fs fuel v le = omega (arith, list_length a m e bs fs v, v.header_pos)
