-- ===== src/Lock/Live.antt =====
-- The invariant of the lock that holds whatever the compiler makes of the store of a failed exchange
-- (src/shmem/transport_shm.c, src/shmem/allocator.c).
use libkrossbar.Prelude.{
  ℕ, ◌+◌, ◌≤◌, ◌≡◌, ◌⊎◌, inl, inr, refl, subst, Bool, false, List, [], ◌∷◌, ◌++◌, map, arith,
  length, ◌==◌, if◌then◌else◌, Bool-cases,
}
use libkrossbar.Lock.{
  Process, outside, inside, trying, waiting, sleeping, woken, others, wait, System, enter, leave,
  Step, starts, enters, waits, leaves, Steps, start, later,
}
use libkrossbar.Lock.Exclusion.{
  has_lock, holders, IsZero, AreZero, holders-append, AreZero-at, AreZero-replace, AreZero-woken,
  map-append,
}

-- how many processes are asleep
abbrev pub asleep : Process → ℕ
asleep (sleeping z) = 1
asleep outside = 0
asleep inside = 0
asleep (trying z) = 0
asleep (waiting z) = 0

abbrev pub sleepers : List Process → ℕ
sleepers [] = 0
sleepers (p ∷ ps) = asleep p + sleepers ps

-- The futex is 0 or 1; some process has the lock when it is 1, and none sleeps when it is 0. Where a
-- failed exchange does not change `zero`, that is 0.
pub record IsLive (overwrites : Bool) (s : System) : Type 0 where
  pub single : s.futex ≤ 1
  pub held : s.futex ≤ holders s.processes
  pub awake : s.futex ≡ 0 → sleepers s.processes ≡ 0
  pub zeros : overwrites ≡ false → AreZero s.processes

pub sleepers-append :
    (ps qs : List Process) (p : Process)
    → sleepers (ps ++ (p ∷ qs)) ≡ asleep p + (sleepers ps + sleepers qs)
sleepers-append [] qs p = omega arith
sleepers-append (q ∷ ps) qs p = omega (arith, sleepers-append ps qs p)

sleepers-woken : (ps : List Process) → sleepers (map woken ps) ≡ 0
sleepers-woken [] = refl
sleepers-woken (outside ∷ ps) = omega (arith, sleepers-woken ps)
sleepers-woken (inside ∷ ps) = omega (arith, sleepers-woken ps)
sleepers-woken (trying z ∷ ps) = omega (arith, sleepers-woken ps)
sleepers-woken (waiting z ∷ ps) = omega (arith, sleepers-woken ps)
sleepers-woken (sleeping z ∷ ps) = omega (arith, sleepers-woken ps)

pub length-woken : (ps : List Process) → length (map woken ps) ≡ length ps
length-woken [] = refl
length-woken (p ∷ ps) = omega (arith, length-woken ps)

module _ (o : Bool) (w : ℕ) (ps qs : List Process) where
  IsLive-replace :
      (p r : Process) (w' : ℕ)
      → IsLive o (record { futex = w; processes = ps ++ (p ∷ qs) })
      → w' ≤ 1
      → w' + has_lock p ≤ w + has_lock r
      → (w' ≡ 0 → (w ≡ 0) × (asleep r ≡ 0))
      → (o ≡ false → IsZero r)
      → IsLive o (record { futex = w'; processes = ps ++ (r ∷ qs) })
  IsLive-replace p r w' v single same rest zero_now = record {
    single = single;
    held = omega (arith, v.held, same, holders-append ps qs p, holders-append ps qs r);
    awake = λ z.
        let free = rest z in
        omega (arith, v.awake free.0, free.1, sleepers-append ps qs p, sleepers-append ps qs r);
    zeros = λ e. AreZero-replace ps qs p r (zero_now e) (v.zeros e);
  }

  wait-IsLive :
      (z : ℕ)
      → IsLive o (record { futex = w; processes = ps ++ (waiting z ∷ qs) })
      → IsLive o (record { futex = w; processes = ps ++ (wait z w ∷ qs) })
  unfolding wait
  wait-IsLive z v =
      let zero_now = λ (e : o ≡ false). AreZero-at ps qs (waiting z) (v.zeros e) in
      elim (Bool-cases (w == 1)) [
        | inl is ↦ rw is (
            IsLive-replace (waiting z) (sleeping z) w v v.single (omega arith)
              (λ e. ground (arith, is, e)) zero_now)
        | inr is ↦ rw is (
            IsLive-replace (waiting z) (trying z) w v v.single (omega arith) (λ e. (e, refl))
              zero_now)
      ]

  enter-IsLive :
      (z : ℕ)
      → IsLive o (record { futex = w; processes = ps ++ (trying z ∷ qs) })
      → IsLive o (record { futex = (enter o z w).1; processes = ps ++ ((enter o z w).0 ∷ qs) })
  unfolding enter
  enter-IsLive z v =
      let zero_now = λ (e : o ≡ false). AreZero-at ps qs (trying z) (v.zeros e) in
      elim (Bool-cases (w == z)) [
        | inl is ↦ rw is (
            IsLive-replace (trying z) inside 1 v (omega arith) (omega arith)
              (λ e. absurd (omega (arith, e))) (λ e. tt))
        | inr is ↦ rw is (
            IsLive-replace (trying z) (waiting (if o then w else z)) w v v.single (omega arith)
              (λ e. (e, refl)) (λ e. rw e (zero_now e)))
      ]

  leave-IsLive :
      IsLive o (record { futex = w; processes = ps ++ (inside ∷ qs) })
      → IsLive o (record { futex = leave w; processes = others w ps ++ (outside ∷ others w qs) })
  unfolding leave others
  leave-IsLive v = elim (word_cases w v.single) [
    | inl is ↦ rw is (record {
      single = omega arith;
      held = omega arith;
      awake = λ e. omega (
        arith,
        sleepers-append (map woken ps) (map woken qs) outside,
        sleepers-woken ps,
        sleepers-woken qs,
      );
      zeros = λ e. AreZero-replace (map woken ps) (map woken qs) inside outside tt (
          subst AreZero (map-append ps (inside ∷ qs))
            (AreZero-woken (ps ++ (inside ∷ qs)) (v.zeros e)));
    })
    | inr is ↦ rw is (record {
      single = omega arith;
      held = omega arith;
      awake = λ e.
          omega (arith, v.awake is, sleepers-append ps qs inside, sleepers-append ps qs outside);
      zeros = λ e. AreZero-replace ps qs inside outside tt (v.zeros e);
    })
  ]
    where
      word_cases : (w : ℕ) → w ≤ 1 → (w ≡ 1) ⊎ (w ≡ 0)
      word_cases w h = omega (arith, h)

Step-IsLive : {o : Bool} {s t : System} → Step o s t → IsLive o s → IsLive o t
Step-IsLive {o} (starts word before after) v =
    IsLive-replace o word before after outside (trying 0) word v v.single (omega arith)
      (λ e. (e, refl)) (λ e. refl)
Step-IsLive {o} (enters word z before after) v = enter-IsLive o word before after z v
Step-IsLive {o} (waits word z before after) v = wait-IsLive o word before after z v
Step-IsLive {o} (leaves word before after) v = leave-IsLive o word before after v

pub Steps-IsLive : {o : Bool} {s t : System} → IsLive o s → Steps o s t → IsLive o t
Steps-IsLive v start = v
Steps-IsLive v (later run step) = Step-IsLive step (Steps-IsLive v run)
