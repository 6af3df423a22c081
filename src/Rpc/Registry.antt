-- ===== src/Rpc/Registry.antt =====
-- The registry of outgoing calls and what a response does to it (src/rpc.c).
use libkrossbar.Prelude.{
  ℕ, ◌≡◌, ◌≢◌, refl, subst, false, none, List, [], ◌∷◌, ◌==◌, arith, Bool-cases, inl, inr,
}
use libkrossbar.UtHash.{lookup, without}
use libkrossbar.Rpc.{CallEntry, call_id}

-- The registered entries have distinct ids.
abbrev pub IsAbsent : ℕ → List CallEntry → Type 0
IsAbsent k [] = Unit
IsAbsent k (entry ∷ entries) = (entry.id ≢ k) × IsAbsent k entries

abbrev pub IsDistinct : List CallEntry → Type 0
IsDistinct [] = Unit
IsDistinct (entry ∷ entries) = IsAbsent entry.id entries × IsDistinct entries

pub find_absent : (id : ℕ) (es : List CallEntry) → IsAbsent id es → lookup call_id id es ≡ none
find_absent id [] h = refl
find_absent id (e ∷ es) h = let rest = find_absent id es h.1 in ground (arith, h.0)

pub del-IsAbsent :
    (k id : ℕ) (es : List CallEntry) → IsAbsent k es → IsAbsent k (without call_id id es)
del-IsAbsent k id [] h = h
del-IsAbsent k id (e ∷ es) h = elim (Bool-cases (e.id == id)) [
  | inl same ↦ rw same h.1
  | inr other ↦ rw other (h.0, del-IsAbsent k id es h.1)
]

pub del-IsDistinct :
    (id : ℕ) (es : List CallEntry) → IsDistinct es → IsDistinct (without call_id id es)
del-IsDistinct id [] d = d
del-IsDistinct id (e ∷ es) d = elim (Bool-cases (e.id == id)) [
  | inl same ↦ rw same d.1
  | inr other ↦ rw other (del-IsAbsent e.id id es d.0, del-IsDistinct id es d.1)
]

pub find_deleted :
    (id : ℕ) (es : List CallEntry)
    → IsDistinct es
    → lookup call_id id (without call_id id es) ≡ none
find_deleted id [] d = refl
find_deleted id (e ∷ es) d = elim (Bool-cases (e.id == id)) [
  | inl same ↦
      let at : e.id ≡ id = ground arith in
      rw same (find_absent id es (subst (λ k. IsAbsent k es) at d.0))
  | inr other ↦ rw (other, other) (find_deleted id es d.1)
]

pub find_kept :
    (id k : ℕ) (es : List CallEntry)
    → id ≢ k
    → lookup call_id k (without call_id id es) ≡ lookup call_id k es
find_kept id k [] n = refl
find_kept id k (e ∷ es) n = elim (Bool-cases (e.id == id)) [
  | inl same ↦ let at : (e.id == k) ≡ false = ground (arith, n) in rw (same, at) refl
  | inr other ↦ rw other (rw (find_kept id k es n) refl)
]
