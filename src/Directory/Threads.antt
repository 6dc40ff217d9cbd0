-- ===== src/Directory/Threads.antt =====
-- The threads of the directory server at its mutex: where the requests of src/fsdird.c call
-- pthread_mutex_lock and pthread_mutex_unlock, and in which orders the threads can get there.
pub mod Counts
pub mod Exclusion
pub mod Progress
use netpro_project.Prelude.{ℕ, suc, ◌+◌, ◌≡◌, Bool, true, false, List, [], ◌∷◌, ◌++◌}

-- How a request uses the mutex: read_dir, replica_status and create_file of a new path lock it, work
-- and unlock it; create_file of a path that exists returns without the unlock; update_file calls the
-- unlock in front of its work, and behind it.
pub data Kind : Type 0 where
  locks leaves updates : Kind

-- In front of its first call, at work on the tree, or done.
pub data Phase : Type 0 where
  waiting critical finished : Phase

pub data Thread : Type 0 where
  thread : Kind → Phase → Thread

pub record Threads : Type 0 where
  pub threads : List Thread
  pub dirlock : Bool

abbrev pub at : List Thread → Kind → Phase → List Thread → Bool → Threads
at front k p back b = record { threads = front ++ thread k p ∷ back; dirlock = b }

-- One thread takes its next step; a lock waits until the mutex is free, an unlock never waits and frees
-- it, whoever holds it.
pub data Step : Threads → Threads → Type 0 where
  lock :
      (front back : List Thread)
      → Step (at front locks waiting back false) (at front locks critical back true)
  unlock :
      (front back : List Thread) (b : Bool)
      → Step (at front locks critical back b) (at front locks finished back false)
  lock_existing :
      (front back : List Thread)
      → Step (at front leaves waiting back false) (at front leaves critical back true)
  return_existing :
      (front back : List Thread) (b : Bool)
      → Step (at front leaves critical back b) (at front leaves finished back b)
  unlock_first :
      (front back : List Thread) (b : Bool)
      → Step (at front updates waiting back b) (at front updates critical back false)
  unlock_last :
      (front back : List Thread) (b : Bool)
      → Step (at front updates critical back b) (at front updates finished back false)

-- A number of steps, one after the other.
pub data Run : ℕ → Threads → Threads → Type 0 where
  stop : {s : Threads} → Run 0 s s
  go : {n : ℕ} {s t u : Threads} → Step s t → Run n t u → Run (suc n) s u
