-- ===== src/Directory/Threads/Progress.antt =====
-- Whether all requests are answered.
use netpro_project.Prelude.{
  ℕ, suc, ◌+◌, ◌≤◌, ◌≡◌, ◌≢◌, ◌==◌, ==_iff, Bool-cases, refl, ap, ◌⊎◌, inl, inr, Bool, true, false,
  List, [], ◌∷◌, ◌++◌, arith,
}
use netpro_project.Directory.Threads.{
  Kind, locks, leaves, updates, Phase, waiting, critical, finished, Thread, thread, Threads, at,
  Step, lock, unlock, lock_existing, return_existing, unlock_first, unlock_last, Run, stop, go,
}
use netpro_project.Directory.Threads.Counts.{
  bit, working, left, others, working-append, left-append, others-append,
}

-- Every thread uses the mutex plainly, and it is held just while one of them works.
pub record Orderly (s : Threads) : Type 0 where
  pub plain : others s.threads ≡ 0
  pub held : working s.threads ≡ bit s.dirlock

-- A step takes one from what is left, and the state stays orderly.
pub record Advances (s t : Threads) : Type 0 where
  pub fewer : left s.threads ≡ suc (left t.threads)
  pub orderly : Orderly t

at-Advances :
    (front back : List Thread) (k : Kind) (p q : Phase) (b c : Bool)
    → left (thread k p ∷ []) ≡ suc (left (thread k q ∷ []))
    → working (thread k q ∷ []) + bit b ≡ working (thread k p ∷ []) + bit c
    → Orderly (at front k p back b)
    → Advances (at front k p back b) (at front k q back c)
at-Advances front back k p q b c less same o = record {
  fewer =
      omega
        (arith, left-append front (thread k p ∷ back), left-append front (thread k q ∷ back), less);
  orderly = record {
    plain = omega (
      arith,
      others-append front (thread k p ∷ back),
      others-append front (thread k q ∷ back),
      o.plain,
    );
    held = omega (
      arith,
      working-append front (thread k p ∷ back),
      working-append front (thread k q ∷ back),
      o.held,
      same,
    );
  };
}

-- A thread at work holds the mutex.
working-held :
    (front back : List Thread) (k : Kind) (b : Bool)
    → working (front ++ thread k critical ∷ back) ≡ bit b
    → b ≡ true
working-held front back k true h = refl
working-held front back k false h =
    absurd (omega (arith, h, working-append front (thread k critical ∷ back)))

other-there :
    (front back : List Thread) (k : Kind) (p : Phase)
    → 1 ≤ others (thread k p ∷ [])
    → 1 ≤ others (front ++ thread k p ∷ back)
other-there front back k p h = omega (arith, h, others-append front (thread k p ∷ back))

Step-Advances : {s t : Threads} → Step s t → Orderly s → Advances s t
Step-Advances (lock front back) o =
    at-Advances front back locks waiting critical false true (omega arith) (omega arith) o
Step-Advances (unlock front back b) o =
    at-Advances front back locks critical finished b false (omega arith)
      (omega (arith, ap bit (working-held front back locks b o.held))) o
Step-Advances (lock_existing front back) o =
    absurd (omega (arith, other-there front back leaves waiting (omega arith), o.plain))
Step-Advances (return_existing front back b) o =
    absurd (omega (arith, other-there front back leaves critical (omega arith), o.plain))
Step-Advances (unlock_first front back b) o =
    absurd (omega (arith, other-there front back updates waiting (omega arith), o.plain))
Step-Advances (unlock_last front back b) o =
    absurd (omega (arith, other-there front back updates critical (omega arith), o.plain))

Run-Advances :
    {n : ℕ} {s t : Threads}
    → Run n s t
    → Orderly s
    → (left s.threads ≡ n + left t.threads) × Orderly t
Run-Advances stop o = (omega arith, o)
Run-Advances (go step run) o =
    let first = Step-Advances step o in
    let (rest, o') = Run-Advances run first.orderly in (omega (arith, first.fewer, rest), o')

-- The first thread of a list that is in this phase.
abbrev Split : List Thread → Phase → Type 0
Split ts p =
    (front : List Thread) × (k : Kind) × (back : List Thread) × (ts ≡ front ++ thread k p ∷ back)

Split-later : {ts : List Thread} {p : Phase} (t : Thread) → Split ts p → Split (t ∷ ts) p
Split-later t (front, k, back, same) =
    (t ∷ front, k, back, ap {B = List Thread} (λ us. t ∷ us) same)

find_critical : (ts : List Thread) → working ts ≢ 0 → Split ts critical
find_critical [] h = absurd (h (omega arith))
find_critical (thread k critical ∷ ts) h = ([], k, ts, refl)
find_critical (thread k waiting ∷ ts) h =
    Split-later _ (find_critical ts (λ z. h (omega (arith, z))))
find_critical (thread k finished ∷ ts) h =
    Split-later _ (find_critical ts (λ z. h (omega (arith, z))))

find_waiting : (ts : List Thread) → working ts ≡ 0 → left ts ≢ 0 → Split ts waiting
find_waiting [] idle h = absurd (h (omega arith))
find_waiting (thread k waiting ∷ ts) idle h = ([], k, ts, refl)
find_waiting (thread k critical ∷ ts) idle h = absurd (omega (arith, idle))
find_waiting (thread k finished ∷ ts) idle h =
    Split-later _ (find_waiting ts (omega (arith, idle)) (λ z. h (omega (arith, z))))

abbrev pub Steps : Threads → Type 0
Steps s = (t : Threads) × Step s t

unlocks : (front back : List Thread) (k : Kind) (b : Bool) → Steps (at front k critical back b)
unlocks front back locks b = (_, unlock front back b)
unlocks front back leaves b = (_, return_existing front back b)
unlocks front back updates b = (_, unlock_last front back b)

enters : (front back : List Thread) (k : Kind) → Steps (at front k waiting back false)
enters front back locks = (_, lock front back)
enters front back leaves = (_, lock_existing front back)
enters front back updates = (_, unlock_first front back false)

Split-Steps-critical :
    (ts : List Thread) (b : Bool) → Split ts critical → Steps (record { threads = ts; dirlock = b })
Split-Steps-critical ts b (front, k, back, same) = rw same (unlocks front back k b)

Split-Steps-waiting :
    (ts : List Thread) → Split ts waiting → Steps (record { threads = ts; dirlock = false })
Split-Steps-waiting ts (front, k, back, same) = rw same (enters front back k)

Orderly-Steps :
    (ts : List Thread) (b : Bool)
    → Orderly (record { threads = ts; dirlock = b })
    → left ts ≢ 0
    → Steps (record { threads = ts; dirlock = b })
Orderly-Steps ts true o h =
    Split-Steps-critical ts true (find_critical ts (λ z. absurd (omega (arith, z, o.held))))
Orderly-Steps ts false o h = Split-Steps-waiting ts (find_waiting ts (omega (arith, o.held)) h)

-- Requests that lock the mutex and unlock it are all answered: from a free mutex, with no thread at work,
-- every order of steps is at most as long as the steps that the threads have before them, and where it
-- has not taken all of them some thread can take one.
pub Run-finishes :
    (n : ℕ) (ts : List Thread) (s : Threads)
    → others ts ≡ 0
    → working ts ≡ 0
    → Run n (record { threads = ts; dirlock = false }) s
    → (left ts ≡ n + left s.threads) × ((left s.threads ≡ 0) ⊎ Steps s)
Run-finishes n ts s plain idle run =
    let (sum, o) = Run-Advances run (record { plain = plain; held = omega (arith, idle) }) in
    (
      sum,
      elim (Bool-cases (left s.threads == 0)) [
        | inl none_left ↦ inl ((==_iff (left s.threads) 0).0 none_left)
        | inr more ↦ inr (Orderly-Steps s.threads s.dirlock o (ground (arith, more)))
      ],
    )
