-- ===== src/Socket.antt =====
-- A connected stream socket, as far as read(2) shows it. The bytes come in segments; one call of
-- read returns bytes of one segment, and at most as many as are asked for. Between the segments a
-- call may be interrupted by a signal (EINTR) or fail. The end of the list is the end of the stream.
pub mod Laws
pub mod Recvfile
use netpro_project.Prelude.{
  ℕ, zero, suc, ◌+◌, List, [], ◌∷◌, length, take, drop, leb, if◌then◌else◌,
}

pub data Arrival : Type 0 where
  segment : ℕ → List ℕ → Arrival
  interrupted : Arrival
  failed : Arrival

abbrev pub Socket : Type 0
Socket = List Arrival

-- What is left of a segment stays first in line.
abbrev pub push_back : List ℕ → Socket → Socket
push_back [] s = s
push_back (b ∷ bs) s = segment b bs ∷ s

-- What a function that reads from a socket comes to: a value, NULL, memory that was never written
-- (no value that the source determines), or, in the model only, the end of its fuel.
pub data Outcome {ℓ} (A : Type ℓ) : Type ℓ where
  ok : A → Outcome A
  null : Outcome A
  indeterminate : Outcome A
  out_of_fuel : Outcome A

abbrev pub Reader : Type 0 → Type 0
Reader A = Socket → Outcome (A × Socket)

module _ {A : Type 0} where
  abbrev pub pure : A → Reader A
  pure a s = ok (a, s)

  abbrev pub fail : Reader A
  fail s = null

module _ {A B : Type 0} where
  abbrev pub continue : Outcome (A × Socket) → (A → Reader B) → Outcome (B × Socket)
  continue (ok (a, s)) f = f a s
  continue null f = null
  continue indeterminate f = indeterminate
  continue out_of_fuel f = out_of_fuel

  infixl 5 ◌>>=◌
  abbrev pub ◌>>=◌ : Reader A → (A → Reader B) → Reader B
  ◌>>=◌ m f s = continue (m s) f

-- The bytes that are still to come.
unfoldable pub pending : Socket → ℕ
pending [] = 0
pending (segment b bs ∷ s) = suc (length bs) + pending s
pending (interrupted ∷ s) = pending s
pending (failed ∷ s) = pending s
