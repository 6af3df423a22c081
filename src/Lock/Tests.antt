-- ===== src/Lock/Tests.antt =====
-- Processes at the lock (src/shmem/transport_shm.c, src/shmem/allocator.c).
use libkrossbar.Prelude.{◌≤◌, refl, Bool, true, [], ◌∷◌, arith}
use libkrossbar.Lock.{
  outside, inside, sleeping, System, enter, wait, starts, enters, waits, Steps, start, later,
}
use libkrossbar.Lock.Exclusion.{holders, overwritten-holders}
use libkrossbar.Lock.Live.{IsLive}
use libkrossbar.Lock.Progress.{Gets, Steps-Gets}

abbrev idle : System
idle = record { futex = 0; processes = outside ∷ outside ∷ [] }

idle-IsLive : (o : Bool) → IsLive o idle
idle-IsLive o = record {
  single = omega arith;
  held = omega arith;
  awake = λ e. refl;
  zeros = λ e. (tt, (tt, tt));
}

-- The first process has the lock, the second one sleeps; a failed exchange has changed its `zero`.
abbrev contended : System
contended = record { futex = 1; processes = inside ∷ sleeping 1 ∷ [] }

contended_run : Steps true idle contended
unfolding enter wait
contended_run =
    later
      (later
        (later (later (later start (starts 0 [] (outside ∷ []))) (enters 0 0 [] (outside ∷ [])))
          (starts 1 (inside ∷ []) []))
        (enters 1 0 (inside ∷ []) []))
      (waits 1 1 (inside ∷ []) [])

-- The second process goes on to have the lock.
Steps-Gets_example : Gets true contended (inside ∷ [])
Steps-Gets_example =
    Steps-Gets true 1 (inside ∷ []) [] (sleeping 1) refl (idle-IsLive true) contended_run

overwritten-holders_example :
    (t : System) × Steps true
      (record { futex = 1; processes = inside ∷ outside ∷ (sleeping 0 ∷ []) })
      t
    × (2 ≤ holders t.processes)
overwritten-holders_example = overwritten-holders (sleeping 0 ∷ [])
