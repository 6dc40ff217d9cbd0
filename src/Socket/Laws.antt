-- ===== src/Socket/Laws.antt =====
-- Reading back a known string, and readers that end and consume.
use netpro_project.Prelude.{
  ℕ, ◌+◌, ◌≤◌, ◌≡◌, ◌≢◌, refl, List, [], ◌∷◌, ◌++◌, length, append_assoc, arith,
}
use netpro_project.Socket.{
  Socket, push_back, Outcome, ok, null, indeterminate, out_of_fuel, Reader, pure, fail, continue,
  ◌>>=◌, pending,
}

-- `r` reads the string `w` off the front of a segment, as the value `a`.
pub record Reads {A : Type 0} (r : Reader A) (w : List ℕ) (a : A) : Type 0 where
  pub at : (more : List ℕ) (s : Socket) → r (push_back (w ++ more) s) ≡ ok (a, push_back more s)

module _ {A : Type 0} where
  pub Reads-pure : (a : A) → Reads (pure a) [] a
  Reads-pure a = record { at = λ more s. refl }

module _ {A B : Type 0} where
  pub Reads-bind :
      {m : Reader A} (f : A → Reader B) {w w' : List ℕ} {a : A} {b : B}
      → Reads m w a
      → Reads (f a) w' b
      → Reads (m >>= f) (w ++ w') b
  Reads-bind f {w} {w'} p q = record {
    at = λ more s. rw (append_assoc w w' more, p.at (w' ++ more) s) (q.at more s);
  }

  -- The last value of a block is often built from what was read.
  pub Reads-map :
      {m : Reader A} (g : A → B) {w : List ℕ} {a : A}
      → Reads m w a
      → Reads (m >>= λ x. pure (g x)) w (g a)
  Reads-map g p = record { at = λ more s. rw (p.at more s) }

-- A reader takes `k` bytes at least when it returns, and does not run out of fuel at `s`.
abbrev pub Takes : {A : Type 0} → ℕ → Reader A → Type 0
Takes {A} k r = (s : Socket) (a : A) (s' : Socket) → r s ≡ ok (a, s') → pending s' + k ≤ pending s

pub record Ends {A : Type 0} (r : Reader A) (s : Socket) : Type 0 where
  pub at : r s ≢ out_of_fuel

pub pending-push_back :
    (bs : List ℕ) (s : Socket) → pending (push_back bs s) ≡ length bs + pending s
unfolding pending
pending-push_back [] s = omega arith
pending-push_back (b ∷ bs) s = refl

module _ {A B : Type 0} where
  continue-cases :
      (o : Outcome (A × Socket)) (f : A → Reader B) (P : Outcome (B × Socket) → Type 0)
      → ((a : A) (s : Socket) → o ≡ ok (a, s) → P (f a s))
      → P null
      → P indeterminate
      → (o ≡ out_of_fuel → P out_of_fuel)
      → P (continue o f)
  continue-cases (ok (a, s)) f P h n i u = h a s refl
  continue-cases null f P h n i u = n
  continue-cases indeterminate f P h n i u = i
  continue-cases out_of_fuel f P h n i u = u refl

  pub Ends-bind :
      (m : Reader A) (f : A → Reader B) (s : Socket)
      → Ends m s
      → ((a : A) (s' : Socket) → m s ≡ ok (a, s') → Ends (f a) s')
      → Ends (m >>= f) s
  Ends-bind m f s p q = record {
    at =
        continue-cases (m s) f (λ o. o ≢ out_of_fuel) (λ a s' e. (q a s' e).at) (λ e. cc) (λ e. cc)
          (λ u. absurd (p.at u));
  }

  pub Takes-bind :
      (m : Reader A) (f : A → Reader B) (j k : ℕ)
      → Takes j m
      → ((a : A) → Takes k (f a))
      → Takes (j + k) (m >>= f)
  Takes-bind m f j k p q s b s' =
      continue-cases (m s) f (λ o. o ≡ ok (b, s') → pending s' + (j + k) ≤ pending s)
        (λ a t e h. omega (arith, p s a t e, q a t b s' h)) (λ h. cc) (λ h. cc) (λ u h. cc)

module _ {A : Type 0} where
  pub Takes-pure : (a : A) → Takes 0 (pure a)
  Takes-pure a s b s' e = ground arith

  pub Takes-fail : (k : ℕ) → Takes {A = A} k fail
  Takes-fail k s b s' e = cc

  pub Takes-weaken : (r : Reader A) (j k : ℕ) → k ≤ j → Takes j r → Takes k r
  Takes-weaken r j k h p s a s' e = omega (arith, p s a s' e)
