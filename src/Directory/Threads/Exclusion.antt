-- ===== src/Directory/Threads/Exclusion.antt =====
-- Whether two threads can work on the tree at the same time.
use netpro_project.Prelude.{ℕ, ◌+◌, ◌≤◌, ◌≡◌, refl, Bool, true, false, List, [], ◌∷◌, ◌++◌, arith}
use netpro_project.Directory.Threads.{
  Kind, locks, leaves, updates, Phase, waiting, critical, finished, Thread, thread, Threads, at,
  Step, lock, unlock, lock_existing, return_existing, unlock_first, unlock_last, Run, stop, go,
}
use netpro_project.Directory.Threads.Counts.{
  bit, working, updating, working-append, updating-append,
}

-- Who works holds the mutex.
pub record Exclusive (s : Threads) : Type 0 where
  pub no_updates : updating s.threads ≡ 0
  pub held : working s.threads ≤ bit s.dirlock

at-Exclusive :
    (front back : List Thread) (k : Kind) (p q : Phase) (b c : Bool)
    → working (thread k q ∷ []) + bit b ≤ working (thread k p ∷ []) + bit c
    → Exclusive (at front k p back b)
    → Exclusive (at front k q back c)
at-Exclusive front back k p q b c more e = record {
  no_updates = omega (
    arith,
    updating-append front (thread k p ∷ back),
    updating-append front (thread k q ∷ back),
    e.no_updates,
  );
  held = omega (
    arith,
    working-append front (thread k p ∷ back),
    working-append front (thread k q ∷ back),
    e.held,
    more,
  );
}

bit-small : (b : Bool) → bit b ≤ 1
bit-small true = omega arith
bit-small false = omega arith

update-there :
    (front back : List Thread) (p : Phase) → 1 ≤ updating (front ++ thread updates p ∷ back)
update-there front back p = omega (arith, updating-append front (thread updates p ∷ back))

Step-Exclusive : {s t : Threads} → Step s t → Exclusive s → Exclusive t
Step-Exclusive (lock front back) e =
    at-Exclusive front back locks waiting critical false true (omega arith) e
Step-Exclusive (unlock front back b) e =
    at-Exclusive front back locks critical finished b false (omega (arith, bit-small b)) e
Step-Exclusive (lock_existing front back) e =
    at-Exclusive front back leaves waiting critical false true (omega arith) e
Step-Exclusive (return_existing front back b) e =
    at-Exclusive front back leaves critical finished b b (omega arith) e
Step-Exclusive (unlock_first front back b) e =
    absurd (omega (arith, update-there front back waiting, e.no_updates))
Step-Exclusive (unlock_last front back b) e =
    absurd (omega (arith, update-there front back critical, e.no_updates))

Run-Exclusive : {n : ℕ} {s t : Threads} → Run n s t → Exclusive s → Exclusive t
Run-Exclusive stop e = e
Run-Exclusive (go step run) e = Run-Exclusive run (Step-Exclusive step e)

-- Without update_file the mutex of the directory server does its work: however the threads take their
-- steps, from a free mutex and no thread at work on, never two of them work on the tree at once.
pub Run-exclusion :
    (n : ℕ) (ts : List Thread) (s : Threads)
    → updating ts ≡ 0
    → working ts ≡ 0
    → Run n (record { threads = ts; dirlock = false }) s
    → working s.threads ≤ 1
Run-exclusion n ts s no_updates idle run =
    let e : Exclusive s =
      Run-Exclusive run (record { no_updates = no_updates; held = omega (arith, idle) }) in
    omega (arith, e.held, bit-small s.dirlock)

-- With an update_file among the threads the mutex does not exclude: of two requests that lock it the
-- second can come to work before the first has finished, since update_file unlocks it in between.
pub Run-race :
    (ts : List Thread)
    → (s : Threads) × (Run 3
          (record {
            threads = thread locks waiting ∷ thread locks waiting ∷ thread updates waiting ∷ ts;
            dirlock = false;
          })
          s
        × (s.threads
            ≡ thread locks critical ∷ thread locks critical ∷ thread updates critical ∷ ts))
Run-race ts = (
  _,
  (
    go (lock [] (thread locks waiting ∷ thread updates waiting ∷ ts)) (
        go (unlock_first (thread locks critical ∷ thread locks waiting ∷ []) ts true)
          (go (lock (thread locks critical ∷ []) (thread updates critical ∷ ts)) stop)),
    refl,
  ),
)
