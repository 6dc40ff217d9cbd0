-- ===== src/Directory/Threads/Counts.antt =====
-- Threads at work, and steps that are left.
use netpro_project.Prelude.{ℕ, ◌+◌, ◌≡◌, Bool, true, false, List, [], ◌∷◌, ◌++◌, arith}
use netpro_project.Directory.Threads.{
  Kind, locks, leaves, updates, Phase, waiting, critical, finished, Thread, thread,
}

abbrev pub bit : Bool → ℕ
bit true = 1
bit false = 0

-- Whether a thread is at work, and how many steps it has before it.
abbrev pub at_work : Phase → ℕ
at_work waiting = 0
at_work critical = 1
at_work finished = 0

abbrev pub steps_left : Phase → ℕ
steps_left waiting = 2
steps_left critical = 1
steps_left finished = 0

abbrev pub working : List Thread → ℕ
working [] = 0
working (thread k p ∷ ts) = at_work p + working ts

abbrev pub left : List Thread → ℕ
left [] = 0
left (thread k p ∷ ts) = steps_left p + left ts

-- The number of threads that are no plain users of the mutex, and of those that run update_file.
abbrev pub is_other : Kind → ℕ
is_other locks = 0
is_other leaves = 1
is_other updates = 1

abbrev pub is_update : Kind → ℕ
is_update locks = 0
is_update leaves = 0
is_update updates = 1

abbrev pub others : List Thread → ℕ
others [] = 0
others (thread k p ∷ ts) = is_other k + others ts

abbrev pub updating : List Thread → ℕ
updating [] = 0
updating (thread k p ∷ ts) = is_update k + updating ts

pub working-append : (ts us : List Thread) → working (ts ++ us) ≡ working ts + working us
working-append [] us = omega arith
working-append (thread k p ∷ ts) us = omega (arith, working-append ts us)

pub left-append : (ts us : List Thread) → left (ts ++ us) ≡ left ts + left us
left-append [] us = omega arith
left-append (thread k p ∷ ts) us = omega (arith, left-append ts us)

pub others-append : (ts us : List Thread) → others (ts ++ us) ≡ others ts + others us
others-append [] us = omega arith
others-append (thread k p ∷ ts) us = omega (arith, others-append ts us)

pub updating-append : (ts us : List Thread) → updating (ts ++ us) ≡ updating ts + updating us
updating-append [] us = omega arith
updating-append (thread k p ∷ ts) us = omega (arith, updating-append ts us)
