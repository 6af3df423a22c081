-- ===== src/Lock/Exclusion.antt =====
-- How many processes have the lock (src/shmem/transport_shm.c, src/shmem/allocator.c).
use libkrossbar.Prelude.{
  ℕ, ◌+◌, ◌≤◌, ◌≡◌, inl, inr, refl, ap, subst, map, true, false, List, [], ◌∷◌, ◌++◌, arith, ◌==◌,
  Bool-cases,
}
use libkrossbar.Lock.{
  Process, outside, inside, trying, waiting, sleeping, woken, others, wait, waits, System, enter,
  leave, Step, starts, enters, leaves, Steps, start, later,
}

abbrev pub has_lock : Process → ℕ
has_lock inside = 1
has_lock outside = 0
has_lock (trying z) = 0
has_lock (waiting z) = 0
has_lock (sleeping z) = 0

-- how many processes have the lock
abbrev pub holders : List Process → ℕ
holders [] = 0
holders (p ∷ ps) = has_lock p + holders ps

-- The variable `zero` holds 0.
abbrev pub IsZero : Process → Type 0
IsZero outside = Unit
IsZero inside = Unit
IsZero (trying z) = z ≡ 0
IsZero (waiting z) = z ≡ 0
IsZero (sleeping z) = z ≡ 0

abbrev pub AreZero : List Process → Type 0
AreZero [] = Unit
AreZero (p ∷ ps) = IsZero p × AreZero ps

-- The futex is 1 when a process has the lock, and 0 when none has.
pub record IsExclusive (s : System) : Type 0 where
  pub held : s.futex ≡ holders s.processes
  pub single : s.futex ≤ 1
  pub zeros : AreZero s.processes

pub holders-append :
    (ps qs : List Process) (p : Process)
    → holders (ps ++ (p ∷ qs)) ≡ has_lock p + (holders ps + holders qs)
holders-append [] qs p = omega arith
holders-append (q ∷ ps) qs p = omega (arith, holders-append ps qs p)

pub AreZero-at : (ps qs : List Process) (p : Process) → AreZero (ps ++ (p ∷ qs)) → IsZero p
AreZero-at [] qs p z = z.0
AreZero-at (q ∷ ps) qs p z = AreZero-at ps qs p z.1

pub AreZero-replace :
    (ps qs : List Process) (p r : Process)
    → IsZero r
    → AreZero (ps ++ (p ∷ qs))
    → AreZero (ps ++ (r ∷ qs))
AreZero-replace [] qs p r i z = (i, z.1)
AreZero-replace (q ∷ ps) qs p r i z = (z.0, AreZero-replace ps qs p r i z.1)

-- A step of a process that leaves the word and the lock as they are.
module _ (w : ℕ) (ps qs : List Process) where
  IsExclusive-replace :
      (p r : Process) (w' : ℕ)
      → IsExclusive (record { futex = w; processes = ps ++ (p ∷ qs) })
      → w' + has_lock p ≡ w + has_lock r
      → w' ≤ 1
      → IsZero r
      → IsExclusive (record { futex = w'; processes = ps ++ (r ∷ qs) })
  IsExclusive-replace p r w' v same single i = record {
    held = omega (arith, v.held, same, holders-append ps qs p, holders-append ps qs r);
    single = single;
    zeros = AreZero-replace ps qs p r i v.zeros;
  }

  enter-IsExclusive :
      (z : ℕ)
      → IsExclusive (record { futex = w; processes = ps ++ (trying z ∷ qs) })
      → IsExclusive
          (record { futex = (enter false z w).1; processes = ps ++ ((enter false z w).0 ∷ qs) })
  unfolding enter
  enter-IsExclusive z v =
      let zero_now : z ≡ 0 = AreZero-at ps qs (trying z) v.zeros in
      elim (Bool-cases (w == z)) [
        | inl is ↦
            rw is (
              IsExclusive-replace (trying z) inside 1 v (ground (arith, zero_now)) (omega arith) tt)
        | inr is ↦
            rw is (IsExclusive-replace (trying z) (waiting z) w v (omega arith) v.single zero_now)
      ]

  wait-IsExclusive :
      (z : ℕ)
      → IsExclusive (record { futex = w; processes = ps ++ (waiting z ∷ qs) })
      → IsExclusive (record { futex = w; processes = ps ++ (wait z w ∷ qs) })
  unfolding wait
  wait-IsExclusive z v =
      let zero_now : z ≡ 0 = AreZero-at ps qs (waiting z) v.zeros in
      elim (Bool-cases (w == 1)) [
        | inl is ↦
            rw is (IsExclusive-replace (waiting z) (sleeping z) w v (omega arith) v.single zero_now)
        | inr is ↦
            rw is (IsExclusive-replace (waiting z) (trying z) w v (omega arith) v.single zero_now)
      ]

pub holders-woken : (ps : List Process) → holders (map woken ps) ≡ holders ps
holders-woken [] = refl
holders-woken (outside ∷ ps) = omega (arith, holders-woken ps)
holders-woken (inside ∷ ps) = omega (arith, holders-woken ps)
holders-woken (trying z ∷ ps) = omega (arith, holders-woken ps)
holders-woken (waiting z ∷ ps) = omega (arith, holders-woken ps)
holders-woken (sleeping z ∷ ps) = omega (arith, holders-woken ps)

pub AreZero-woken : (ps : List Process) → AreZero ps → AreZero (map woken ps)
AreZero-woken [] z = tt
AreZero-woken (outside ∷ ps) z = (tt, AreZero-woken ps z.1)
AreZero-woken (inside ∷ ps) z = (tt, AreZero-woken ps z.1)
AreZero-woken (trying e ∷ ps) z = (z.0, AreZero-woken ps z.1)
AreZero-woken (waiting e ∷ ps) z = (z.0, AreZero-woken ps z.1)
AreZero-woken (sleeping e ∷ ps) z = (z.0, AreZero-woken ps z.1)

pub map-append : (ps qs : List Process) → map woken (ps ++ qs) ≡ map woken ps ++ map woken qs
map-append [] qs = refl
map-append (p ∷ ps) qs = ap (λ l. woken p ∷ l) (map-append ps qs)

leave-IsExclusive :
    (w : ℕ) (ps qs : List Process)
    → IsExclusive (record { futex = w; processes = ps ++ (inside ∷ qs) })
    → IsExclusive (record { futex = leave w; processes = others w ps ++ (outside ∷ others w qs) })
unfolding leave others
leave-IsExclusive w ps qs v =
    let held : w ≡ 1 = omega (arith, v.held, v.single, holders-append ps qs inside) in
    rw held (record {
      held = omega (
        arith,
        v.held,
        held,
        holders-append ps qs inside,
        holders-append (map woken ps) (map woken qs) outside,
        holders-woken ps,
        holders-woken qs,
      );
      single = omega arith;
      zeros = AreZero-replace (map woken ps) (map woken qs) inside outside tt (
          subst AreZero (map-append ps (inside ∷ qs))
            (AreZero-woken (ps ++ (inside ∷ qs)) v.zeros));
    })

Step-IsExclusive : {s t : System} → Step false s t → IsExclusive s → IsExclusive t
Step-IsExclusive (starts word before after) v =
    IsExclusive-replace word before after outside (trying 0) word v (omega arith) v.single refl
Step-IsExclusive (enters word z before after) v = enter-IsExclusive word before after z v
Step-IsExclusive (waits word z before after) v = wait-IsExclusive word before after z v
Step-IsExclusive (leaves word before after) v = leave-IsExclusive word before after v

pub Steps-IsExclusive : {s t : System} → IsExclusive s → Steps false s t → IsExclusive t
Steps-IsExclusive v start = v
Steps-IsExclusive v (later run step) = Step-IsExclusive step (Steps-IsExclusive v run)

-- With a compiler that keeps `zero` at 0, and from a state where the futex is 1 exactly when one
-- process has the lock and 0 otherwise: however the processes take their steps, at most one of them
-- has the lock at a time.
Steps-holders : {s t : System} → IsExclusive s → Steps false s t → holders t.processes ≤ 1
Steps-holders v run = let w = Steps-IsExclusive v run in omega (arith, w.held, w.single)

-- Where a failed exchange changes `zero`, as `atomic_compare_exchange_strong` is documented to do:
-- from every state in which one process has the lock, another one is at its own work and any others
-- are anywhere, some run leads to two processes with the lock.
pub overwritten-holders :
    (ps : List Process)
    → (t : System) × Steps true (record { futex = 1; processes = inside ∷ outside ∷ ps }) t
      × (2 ≤ holders t.processes)
unfolding enter wait leave others
overwritten-holders ps = (
  record { futex = 1; processes = inside ∷ inside ∷ map woken ps },
  later
      (later
        (later
          (later
            (later (later (later start (starts 1 (inside ∷ []) ps)) (enters 1 0 (inside ∷ []) ps))
              (waits 1 1 (inside ∷ []) ps))
            (leaves 1 [] (sleeping 1 ∷ ps)))
          (starts 0 [] (trying 1 ∷ map woken ps)))
        (enters 0 0 [] (trying 1 ∷ map woken ps)))
      (enters 1 1 (inside ∷ []) (map woken ps)),
  omega arith,
)
