-- ===== src/Protomsg/Receive/Interrupts.antt =====
-- Signals do not change what is received: NO_INTR repeats the interrupted call.
use netpro_project.Prelude.{
  ℕ, zero, suc, ◌≡◌, refl, List, [], ◌∷◌, drop, Bool, true, false, ◌==◌, if◌then◌else◌, arith,
}
use netpro_project.Socket.{
  Socket, segment, interrupted, failed, push_back, Outcome, ok, null, indeterminate, out_of_fuel,
  Reader, pure, fail, continue, ◌>>=◌, pending,
}
use netpro_project.Protomsg.{Protocol, st_nonext}
use netpro_project.Protomsg.Bytes.{Endian}
use netpro_project.Protomsg.Receive.{
  try_read, read_int, read_int64, read_byte, read_ids, read_raw, read_name, read_fileinfo,
  read_section, read_sections, read_message, fsmsg_from_socket,
}

-- The same arrivals without the interruptions.
unfoldable pub quiet : Socket → Socket
quiet [] = []
quiet (segment b bs ∷ s) = segment b bs ∷ quiet s
quiet (interrupted ∷ s) = quiet s
quiet (failed ∷ s) = failed ∷ quiet s

abbrev pub quiet_rest : {A : Type 0} → Outcome (A × Socket) → Outcome (A × Socket)
quiet_rest (ok (a, s)) = ok (a, quiet s)
quiet_rest null = null
quiet_rest indeterminate = indeterminate
quiet_rest out_of_fuel = out_of_fuel

-- `r` does the same on a quiet socket, and leaves the same socket but for the interruptions.
record Ignores {A : Type 0} (r : Reader A) : Type 0 where
  at : (s : Socket) → r (quiet s) ≡ quiet_rest (r s)

quiet-push_back : (bs : List ℕ) (s : Socket) → quiet (push_back bs s) ≡ push_back bs (quiet s)
unfolding quiet
quiet-push_back [] s = refl
quiet-push_back (b ∷ bs) s = refl

pending-quiet : (s : Socket) → pending (quiet s) ≡ pending s
unfolding pending quiet
pending-quiet [] = refl
pending-quiet (segment b bs ∷ s) = omega (arith, pending-quiet s)
pending-quiet (interrupted ∷ s) = pending-quiet s
pending-quiet (failed ∷ s) = pending-quiet s

module _ {A B : Type 0} where
  continue-quiet :
      (o : Outcome (A × Socket)) (f : A → Reader B)
      → ((a : A) → Ignores (f a))
      → continue (quiet_rest o) f ≡ quiet_rest (continue o f)
  continue-quiet (ok (a, s)) f h = (h a).at s
  continue-quiet null f h = refl
  continue-quiet indeterminate f h = refl
  continue-quiet out_of_fuel f h = refl

  Ignores-bind :
      (m : Reader A) (f : A → Reader B) → Ignores m → ((a : A) → Ignores (f a)) → Ignores (m >>= f)
  Ignores-bind m f p q = record { at = λ s. rw (p.at s) (continue-quiet (m s) f q) }

module _ {A : Type 0} where
  Ignores-pure : (a : A) → Ignores (pure a)
  Ignores-pure a = record { at = λ s. refl }

  Ignores-fail : Ignores (fail {A = A})
  Ignores-fail = record { at = λ s. refl }

  Ignores-if : (b : Bool) {m n : Reader A} → Ignores m → Ignores n → Ignores (if b then m else n)
  Ignores-if true p q = p
  Ignores-if false p q = q

try_read-quiet : (n : ℕ) (s : Socket) → try_read n (quiet s) ≡ quiet_rest (try_read n s)
unfolding try_read quiet
try_read-quiet zero s = refl
try_read-quiet (suc n) [] = refl
try_read-quiet (suc n) (segment b bs ∷ s) = ground (arith, quiet-push_back (drop n bs) s)
try_read-quiet (suc n) (interrupted ∷ s) = try_read-quiet (suc n) s
try_read-quiet (suc n) (failed ∷ s) = refl

try_read-Ignores : (n : ℕ) → Ignores (try_read n)
try_read-Ignores n = record { at = try_read-quiet n }

ruleset steps = (Ignores-bind, Ignores-pure, Ignores-fail, Ignores-if, try_read-Ignores)

read_int-Ignores : (e : Endian) (n : ℕ) → Ignores (read_int e n)
unfolding read_int
read_int-Ignores e n = search steps

read_int64-Ignores : (e : Endian) → Ignores (read_int64 e)
unfolding read_int64
read_int64-Ignores e = search steps

read_byte-Ignores : (e : Endian) → Ignores (read_byte e)
unfolding read_byte
read_byte-Ignores e = search steps

read_ids-Ignores : (e : Endian) (n : ℕ) → Ignores (read_ids e n)
unfolding read_ids
read_ids-Ignores e zero = search steps
read_ids-Ignores e (suc n) =
    Ignores-bind _ _ (read_int64-Ignores e)
      λ id. Ignores-bind _ _ (read_ids-Ignores e n) λ ids. Ignores-pure _

read_raw-Ignores : (e : Endian) → Ignores (read_raw e)
unfolding read_raw
read_raw-Ignores e = search (steps, read_int-Ignores)

read_name-Ignores : (e : Endian) → Ignores (read_name e)
unfolding read_name
read_name-Ignores e = search (steps, read_int-Ignores)

read_fileinfo-Ignores : (e : Endian) → Ignores (read_fileinfo e)
unfolding read_fileinfo
read_fileinfo-Ignores e =
    search (steps, read_int-Ignores, read_byte-Ignores, read_name-Ignores) depth 9

read_section-Ignores : (e : Endian) (type : ℕ) → Ignores (read_section e type)
unfolding read_section
read_section-Ignores e type =
    search (steps, read_int-Ignores, read_raw-Ignores, read_fileinfo-Ignores) depth 9

read_sections-Ignores : (fuel : ℕ) (e : Endian) → Ignores (read_sections fuel e)
unfolding read_sections
read_sections-Ignores zero e = record { at = λ s. refl }
read_sections-Ignores (suc fuel) e = Ignores-bind _ _ (read_int-Ignores e 2) λ type.
    Ignores-if (type == st_nonext) (Ignores-pure []) (
      Ignores-bind _ _ (read_section-Ignores e type)
        λ section. Ignores-bind _ _ (read_sections-Ignores fuel e) λ sections. Ignores-pure _)

read_message-Ignores :
    (fuel : ℕ) (e : Endian) (protocol : Protocol) → Ignores (read_message fuel e protocol)
unfolding read_message
read_message-Ignores fuel e protocol =
    search (steps, read_int64-Ignores, read_int-Ignores, read_ids-Ignores, read_sections-Ignores)
      depth 9

-- fsmsg_from_socket returns the same message, or fails in the same way, and leaves the same bytes in
-- the socket, wherever signals interrupt its reads.
pub fsmsg_from_socket-quiet :
    (e : Endian) (protocol : Protocol) (s : Socket)
    → fsmsg_from_socket e protocol (quiet s) ≡ quiet_rest (fsmsg_from_socket e protocol s)
unfolding fsmsg_from_socket
fsmsg_from_socket-quiet e protocol s =
    rw (pending-quiet s) ((read_message-Ignores (suc (pending s)) e protocol).at s)
