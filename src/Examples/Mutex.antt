-- ===== src/Examples/Mutex.antt =====
-- Two requests at the mutex of the directory server.
use netpro_project.Prelude.{◌≡◌, ◌≤◌, ◌+◌, ◌⊎◌, refl, true, false, List, [], ◌∷◌}
use netpro_project.Directory.Threads.{
  locks, updates, waiting, critical, finished, Thread, thread, Threads, lock, unlock, Run, stop, go,
}
use netpro_project.Directory.Threads.Counts.{working, left}
use netpro_project.Directory.Threads.Exclusion.{Run-exclusion, Run-race}
use netpro_project.Directory.Threads.Progress.{Steps, Run-finishes}

abbrev two : List Thread
two = thread locks waiting ∷ thread locks waiting ∷ []

-- The first has locked the mutex and unlocked it, and the second has locked it.
abbrev second_at_work : Threads
second_at_work = record {
  threads = thread locks finished ∷ thread locks critical ∷ [];
  dirlock = true;
}

three_steps : Run 3 (record { threads = two; dirlock = false }) second_at_work
three_steps = go (lock [] (thread locks waiting ∷ [])) (
    go (unlock [] (thread locks waiting ∷ []) true)
      (go (lock (thread locks finished ∷ []) []) stop))

Run-exclusion_example : working second_at_work.threads ≤ 1
Run-exclusion_example = Run-exclusion 3 two second_at_work refl refl three_steps

Run-finishes_example :
    (left two ≡ 3 + left second_at_work.threads)
    × ((left second_at_work.threads ≡ 0) ⊎ Steps second_at_work)
Run-finishes_example = Run-finishes 3 two second_at_work refl refl three_steps

Run-race_example :
    (s : Threads) × (Run 3
        (record {
          threads = thread locks waiting ∷ thread locks waiting ∷ thread updates waiting ∷ [];
          dirlock = false;
        })
        s
      × (s.threads ≡ thread locks critical ∷ thread locks critical ∷ thread updates critical ∷ []))
Run-race_example = Run-race []
