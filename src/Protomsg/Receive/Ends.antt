-- ===== src/Protomsg/Receive/Ends.antt =====
-- fsmsg_from_socket ends on every socket: the fuel of the model is enough.
use netpro_project.Prelude.{
  ℕ, zero, suc, ◌+◌, ◌<◌, ◌≢◌, Bool, true, false, [], ◌∷◌, length-drop, drop, ◌==◌, if◌then◌else◌,
  arith,
}
use netpro_project.Socket.{
  Socket, segment, interrupted, failed, out_of_fuel, Reader, pure, fail, ◌>>=◌, pending,
}
use netpro_project.Socket.Laws.{
  Takes, Ends, Ends-bind, Takes-bind, Takes-pure, Takes-fail, Takes-weaken, pending-push_back,
}
use netpro_project.Protomsg.{Protocol, st_nonext, idcount}
use netpro_project.Protomsg.Bytes.{Endian}
use netpro_project.Protomsg.Receive.{
  try_read, read_int, read_int64, read_byte, read_ids, read_raw, read_name, read_fileinfo,
  read_section, read_sections, read_message, fsmsg_from_socket,
}

-- A reader that never runs out of fuel, and takes nothing back.
record Steady {A : Type 0} (r : Reader A) : Type 0 where
  ends : (s : Socket) → Ends r s
  takes : Takes 0 r

module _ {A B : Type 0} where
  Steady-bind :
      (m : Reader A) (f : A → Reader B) → Steady m → ((a : A) → Steady (f a)) → Steady (m >>= f)
  Steady-bind m f p q = record {
    ends = λ s. Ends-bind m f s (p.ends s) (λ a s' e. (q a).ends s');
    takes =
        Takes-weaken (m >>= f) (0 + 0) 0 (omega arith)
          (Takes-bind m f 0 0 p.takes (λ a. (q a).takes));
  }

module _ {A : Type 0} where
  Steady-pure : (a : A) → Steady (pure a)
  Steady-pure a = record { ends = λ s. record { at = λ e. cc }; takes = Takes-pure a }

  Steady-fail : Steady (fail {A = A})
  Steady-fail = record { ends = λ s. record { at = λ e. cc }; takes = Takes-fail {A = A} 0 }

  Steady-if : (b : Bool) {m n : Reader A} → Steady m → Steady n → Steady (if b then m else n)
  Steady-if true p q = p
  Steady-if false p q = q

pub try_read-Takes : (n : ℕ) → Takes n (try_read n)
unfolding try_read pending
try_read-Takes zero s a s' e = cc
try_read-Takes (suc n) [] a s' e = cc
try_read-Takes (suc n) (segment b bs ∷ s) a s' e =
    ground (arith, pending-push_back (drop n bs) s, length-drop n bs)
try_read-Takes (suc n) (interrupted ∷ s) a s' e = try_read-Takes (suc n) s a s' e
try_read-Takes (suc n) (failed ∷ s) a s' e = cc

try_read-Ends : (n : ℕ) (s : Socket) → try_read n s ≢ out_of_fuel
unfolding try_read
try_read-Ends zero s e = cc
try_read-Ends (suc n) [] e = cc
try_read-Ends (suc n) (segment b bs ∷ s) e = ground arith
try_read-Ends (suc n) (interrupted ∷ s) e = try_read-Ends (suc n) s e
try_read-Ends (suc n) (failed ∷ s) e = cc

try_read-Steady : (n : ℕ) → Steady (try_read n)
try_read-Steady n = record {
  ends = λ s. record { at = try_read-Ends n s };
  takes = Takes-weaken (try_read n) n 0 (omega arith) (try_read-Takes n);
}

ruleset steps = (Steady-bind, Steady-pure, Steady-fail, Steady-if, try_read-Steady)

read_int-Steady : (e : Endian) (n : ℕ) → Steady (read_int e n)
unfolding read_int
read_int-Steady e n = search steps

read_int64-Steady : (e : Endian) → Steady (read_int64 e)
unfolding read_int64
read_int64-Steady e = search steps

read_byte-Steady : (e : Endian) → Steady (read_byte e)
unfolding read_byte
read_byte-Steady e = search steps

read_ids-Steady : (e : Endian) (n : ℕ) → Steady (read_ids e n)
unfolding read_ids
read_ids-Steady e zero = search steps
read_ids-Steady e (suc n) =
    Steady-bind _ _ (read_int64-Steady e)
      λ id. Steady-bind _ _ (read_ids-Steady e n) λ ids. Steady-pure _

read_raw-Steady : (e : Endian) → Steady (read_raw e)
unfolding read_raw
read_raw-Steady e = search (steps, read_int-Steady)

read_name-Steady : (e : Endian) → Steady (read_name e)
unfolding read_name
read_name-Steady e = search (steps, read_int-Steady)

read_fileinfo-Steady : (e : Endian) → Steady (read_fileinfo e)
unfolding read_fileinfo
read_fileinfo-Steady e = search (steps, read_int-Steady, read_byte-Steady, read_name-Steady) depth 9

read_section-Steady : (e : Endian) (type : ℕ) → Steady (read_section e type)
unfolding read_section
read_section-Steady e type =
    search (steps, read_int-Steady, read_raw-Steady, read_fileinfo-Steady) depth 9

read_int-Takes : (e : Endian) (n : ℕ) → Takes n (read_int e n)
unfolding read_int
read_int-Takes e n =
    Takes-weaken (read_int e n) (n + 0) n (omega arith)
      (Takes-bind (try_read n) _ n 0 (try_read-Takes n) (λ bs. Takes-pure _))

Ends-if :
    {A : Type 0} (b : Bool) (a : A) (m : Reader A) (s : Socket)
    → Ends m s
    → Ends (if b then pure a else m) s
Ends-if true a m s h = (Steady-pure a).ends s
Ends-if false a m s h = h

-- A round for each pending byte is enough, since a round takes two.
read_sections-Ends :
    (fuel : ℕ) (e : Endian) (s : Socket) → pending s < fuel → Ends (read_sections fuel e) s
unfolding read_sections
read_sections-Ends zero e s h = record { at = absurd (omega arith) }
read_sections-Ends (suc fuel) e s h = Ends-bind _ _ s ((read_int-Steady e 2).ends s) λ type s₁ e₁.
    Ends-if (type == st_nonext) [] _ s₁ (
      Ends-bind _ _ s₁ ((read_section-Steady e type).ends s₁) λ section s₂ e₂.
        Ends-bind _ _ s₂
          (read_sections-Ends fuel e s₂ (
            omega (
              arith,
              read_int-Takes e 2 s type s₁ e₁,
              (read_section-Steady e type).takes s₁ section s₂ e₂,
            )))
          λ sections s₃ e₃. (Steady-pure (section ∷ sections)).ends s₃)

read_message-Ends :
    (e : Endian) (protocol : Protocol) (s : Socket)
    → Ends (read_message (suc (pending s)) e protocol) s
unfolding read_message
read_message-Ends e protocol s = Ends-bind _ _ s ((read_int64-Steady e).ends s) λ tid s₁ e₁.
    Ends-bind _ _ s₁ ((read_ids-Steady e (idcount protocol)).ends s₁) λ ids s₂ e₂.
      Ends-bind _ _ s₂ ((read_int-Steady e 2).ends s₂) λ type s₃ e₃.
        Ends-bind _ _ s₃
          (read_sections-Ends (suc (pending s)) e s₃ (
            omega (
              arith,
              (read_int64-Steady e).takes s tid s₁ e₁,
              (read_ids-Steady e (idcount protocol)).takes s₁ ids s₂ e₂,
              (read_int-Steady e 2).takes s₂ type s₃ e₃,
            )))
          λ sections s₄ e₄. (Steady-pure _).ends s₄

-- fsmsg_from_socket comes to a message, to NULL or to unwritten memory on every socket: its loop
-- never runs out of the rounds that the model gives it.
pub fsmsg_from_socket_ends :
    (e : Endian) (protocol : Protocol) (s : Socket) → fsmsg_from_socket e protocol s ≢ out_of_fuel
unfolding fsmsg_from_socket
fsmsg_from_socket_ends e protocol s = (read_message-Ends e protocol s).at
