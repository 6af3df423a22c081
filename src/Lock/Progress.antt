-- ===== src/Lock/Progress.antt =====
-- Every process can get the lock (src/shmem/transport_shm.c, src/shmem/allocator.c).
use libkrossbar.Prelude.{
  ℕ, ◌+◌, ◌≤◌, ◌≡◌, ◌⊎◌, inl, inr, refl, sym, ap, subst, ◌∙◌, Bool, true, false, List, [], ◌∷◌,
  ◌++◌, map, arith, length, length-append, append_assoc, ◌==◌, Bool-cases,
}
use libkrossbar.Lock.{
  Process, outside, inside, trying, waiting, sleeping, woken, others, wait, System, with_process,
  enter, leave, Step, starts, enters, waits, leaves, Steps, start, later,
}
use libkrossbar.Lock.Exclusion.{has_lock, holders, IsZero, holders-append, AreZero-at, map-append}
use libkrossbar.Lock.Live.{asleep, sleepers-append, length-woken, IsLive, Steps-IsLive}

-- The process with the lock among others.
holder :
    (ps : List Process)
    → 1 ≤ holders ps
    → (before : List Process) × (after : List Process) × (ps ≡ before ++ (inside ∷ after))
holder [] h = absurd (omega (arith, h))
holder (inside ∷ ps) h = ([], ps, refl)
holder (sleeping z ∷ ps) h =
    let (b, a, e) = holder ps (omega (arith, h)) in (sleeping z ∷ b, a, ap (λ l. sleeping z ∷ l) e)
holder (outside ∷ ps) h =
    let (b, a, e) = holder ps (omega (arith, h)) in (outside ∷ b, a, ap (λ l. outside ∷ l) e)
holder (trying z ∷ ps) h =
    let (b, a, e) = holder ps (omega (arith, h)) in (trying z ∷ b, a, ap (λ l. trying z ∷ l) e)
holder (waiting z ∷ ps) h =
    let (b, a, e) = holder ps (omega (arith, h)) in (waiting z ∷ b, a, ap (λ l. waiting z ∷ l) e)

-- The lock is free after some steps, with the process awake at its place.
abbrev Freed : Bool → System → List Process → Process → Type 0
Freed o s before p =
    (before' : List Process) × (after' : List Process) × Steps o s
      (with_process 0 before' (woken p) after')
    × (length before' ≡ length before)

awake_lem : (p : Process) → asleep p ≡ 0 → woken p ≡ p
awake_lem (sleeping z) e = absurd (omega (arith, e))
awake_lem outside e = refl
awake_lem inside e = refl
awake_lem (trying z) e = refl
awake_lem (waiting z) e = refl

module _ (o : Bool) (before after : List Process) (p : Process) where
  freed_before : 1 ≤ holders before → Freed o (with_process 1 before p after) before p
  unfolding leave others
  freed_before h =
      let (b, a, e) = holder before h in
      let split : before ++ (p ∷ after) ≡ b ++ (inside ∷ (a ++ (p ∷ after))) =
        ap (λ l. l ++ (p ∷ after)) e ∙ append_assoc b (inside ∷ a) (p ∷ after) in
      let joined : map woken b ++ (outside ∷ map woken (a ++ (p ∷ after)))
          ≡ (map woken b ++ (outside ∷ map woken a)) ++ (woken p ∷ map woken after) =
        ap (λ l. map woken b ++ (outside ∷ l)) (map-append a (p ∷ after))
        ∙ sym (append_assoc (map woken b) (outside ∷ map woken a) (woken p ∷ map woken after)) in
      (
        map woken b ++ (outside ∷ map woken a),
        map woken after,
        later
            (subst
              (λ l. Steps o (with_process 1 before p after) (record { futex = 1; processes = l }))
              split start)
            (subst
              (λ l.
                Step o (with_process 1 b inside (a ++ (p ∷ after)))
                  (record { futex = 0; processes = l }))
              joined (leaves 1 b (a ++ (p ∷ after)))),
        omega (
          arith,
          length-append (map woken b) (outside ∷ map woken a),
          length-woken b,
          length-woken a,
          length-append b (inside ∷ a),
          ap length e,
        ),
      )

  freed_after : 1 ≤ holders after → Freed o (with_process 1 before p after) before p
  unfolding leave others
  freed_after h =
      let (b, a, e) = holder after h in
      let split : before ++ (p ∷ after) ≡ (before ++ (p ∷ b)) ++ (inside ∷ a) =
        ap (λ l. before ++ (p ∷ l)) e ∙ sym (append_assoc before (p ∷ b) (inside ∷ a)) in
      let joined : map woken (before ++ (p ∷ b)) ++ (outside ∷ map woken a)
          ≡ map woken before ++ (woken p ∷ (map woken b ++ (outside ∷ map woken a))) =
        ap (λ l. l ++ (outside ∷ map woken a)) (map-append before (p ∷ b))
        ∙ append_assoc (map woken before) (woken p ∷ map woken b) (outside ∷ map woken a) in
      (
        map woken before,
        map woken b ++ (outside ∷ map woken a),
        later
            (subst
              (λ l. Steps o (with_process 1 before p after) (record { futex = 1; processes = l }))
              split start)
            (subst
              (λ l.
                Step o (with_process 1 (before ++ (p ∷ b)) inside a)
                  (record { futex = 0; processes = l }))
              joined (leaves 1 (before ++ (p ∷ b)) a)),
        length-woken before,
      )

  freed :
      (word : ℕ)
      → has_lock p ≡ 0
      → IsLive o (with_process word before p after)
      → Freed o (with_process word before p after) before p
  freed word apart v = elim (word_cases word v.single) [
    | inl is ↦
        let awake : woken p ≡ p =
          awake_lem p (omega (arith, v.awake is, sleepers-append before after p)) in
        rw (is, awake) (before, after, start, refl)
    | inr is ↦
        rw is
          (elim (where_is (holders before) (holders after)
            (omega (arith, is, v.held, apart, holders-append before after p))) [
              | inl h ↦ freed_before h
              | inr h ↦ freed_after h
            ])
  ]
    where
      word_cases : (w : ℕ) → w ≤ 1 → (w ≡ 0) ⊎ (w ≡ 1)
      word_cases w h = omega (arith, h)

      where_is : (m n : ℕ) → 1 ≤ m + n → (1 ≤ m) ⊎ (1 ≤ n)
      where_is m n h = omega (arith, h)

-- A process with the lock free goes on to get it. Where its `zero` is not 0, the exchange fails and sets
-- it to 0, and `futex_wait` returns at once.
module _ (before after : List Process) where
  tries_free :
      (o : Bool) (z : ℕ) {s : System}
      → (o ≡ false → z ≡ 0)
      → Steps o s (with_process 0 before (trying z) after)
      → Steps o s (with_process 1 before inside after)
  unfolding enter wait
  tries_free false z zero_now run = later (rw (zero_now refl) at run) (enters 0 0 before after)
  tries_free true z {s} zero_now run = elim (Bool-cases (0 == z)) [
    | inl is ↦
        let zero : z ≡ 0 = ground (arith, is) in later (rw zero at run) (enters 0 0 before after)
    | inr is ↦
        let failed : Steps true s (with_process 0 before (waiting 0) after) =
          rw is at (later run (enters 0 z before after)) in
        later (later failed (waits 0 0 before after)) (enters 0 0 before after)
  ]

module _ (o : Bool) (before after : List Process) {s : System} where
  enters_free :
      (p : Process)
      → (o ≡ false → IsZero p)
      → has_lock p ≡ 0
      → Steps o s (with_process 0 before (woken p) after)
      → Steps o s (with_process 1 before inside after)
  unfolding wait
  enters_free inside z apart run = absurd (omega (arith, apart))
  enters_free outside z apart run =
      tries_free before after o 0 (λ e. refl) (later run (starts 0 before after))
  enters_free (trying e) z apart run = tries_free before after o e z run
  enters_free (waiting e) z apart run =
      tries_free before after o e z (later run (waits 0 e before after))
  enters_free (sleeping e) z apart run = tries_free before after o e z run

-- The process has the lock after some steps, at its place among the others.
abbrev pub Gets : Bool → System → List Process → Type 0
Gets o s before =
    (before' : List Process) × (after' : List Process) × Steps o s
      (with_process 1 before' inside after')
    × (length before' ≡ length before)

module _ (o : Bool) (word : ℕ) (before after : List Process) where
  apart-Gets :
      (p : Process)
      → has_lock p ≡ 0
      → IsLive o (with_process word before p after)
      → Gets o (with_process word before p after) before
  apart-Gets p apart v =
      let (before', after', run, place) = freed o before after p word apart v in
      (
        before',
        after',
        enters_free o before' after' p (λ e. AreZero-at before after p (v.zeros e)) apart run,
        place,
      )

  -- From every state that processes reach from one where the futex is 0 or 1, some process has the
  -- lock when it is 1, none sleeps when it is 0, and `zero` is 0 unless failed exchanges change it,
  -- each process that has not the lock can go on to have it, wherever it is and whichever has it
  -- now, both where a failed exchange changes `zero` and where it does not. No process wakes by
  -- itself.
  pub Steps-Gets :
      (p : Process) {s : System}
      → has_lock p ≡ 0
      → IsLive o s
      → Steps o s (with_process word before p after)
      → Gets o (with_process word before p after) before
  Steps-Gets p apart v run = apart-Gets p apart (Steps-IsLive v run)
