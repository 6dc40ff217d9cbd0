-- ===== src/FileServer/Wire.antt =====
-- `received` and the wire: what fsmsg_from_socket of src/protomsg.c returns of a message's bytes.
use netpro_project.Prelude.{
  ℕ, ◌<◌, ◌≡◌, refl, ap, List, [], ◌∷◌, ◌++◌, length, All, true, some, arith,
}
use netpro_project.Socket.{Socket, push_back, ok}
use netpro_project.Protomsg.{
  MsgSection, integer, string, binary, fileinfo, nonext, unknown, Protocol, Fsmsg,
  fsmsg_add_section,
}
use netpro_project.Protomsg.Bytes.{Endian}
use netpro_project.Protomsg.Buffer.{fsmsg_to_buffer}
use netpro_project.Protomsg.Receive.{fsmsg_from_socket}
use netpro_project.Protomsg.Receive.Fields.{IsSendable, IsMessage}
use netpro_project.Protomsg.Receive.RoundTrip.{fsmsg_from_socket-to_buffer}
use netpro_project.FileServer.Forwards.{up_to_end, not_empty, is_readable, are_readable, received}

up_to_end-sendable : (ss : List MsgSection) → All IsSendable ss → up_to_end (ss ++ nonext ∷ []) ≡ ss
up_to_end-sendable [] h = refl
up_to_end-sendable (integer n ∷ ss) (_, h) = ap (λ t. integer n ∷ t) (up_to_end-sendable ss h)
up_to_end-sendable (string s ∷ ss) (_, h) = ap (λ t. string s ∷ t) (up_to_end-sendable ss h)
up_to_end-sendable (binary s ∷ ss) (_, h) = ap (λ t. binary s ∷ t) (up_to_end-sendable ss h)
up_to_end-sendable (fileinfo f ∷ ss) (_, h) = ap (λ t. fileinfo f ∷ t) (up_to_end-sendable ss h)
up_to_end-sendable (nonext ∷ ss) (h, _) = absurd h
up_to_end-sendable (unknown t ∷ ss) (h, _) = absurd h

not_empty-length : (text : List ℕ) → 0 < length text → not_empty text ≡ true
not_empty-length [] h = absurd (omega arith)
not_empty-length (c ∷ cs) h = refl

is_readable-sendable : (s : MsgSection) → IsSendable s → is_readable s ≡ true
is_readable-sendable (integer n) h = refl
is_readable-sendable (string s) h = refl
is_readable-sendable (binary s) h = refl
is_readable-sendable (fileinfo f) h =
    rw (not_empty-length f.path h.path.0, not_empty-length f.username h.username.0) refl
is_readable-sendable nonext h = refl
is_readable-sendable (unknown t) h = refl

are_readable-sendable : (ss : List MsgSection) → All IsSendable ss → are_readable ss ≡ true
are_readable-sendable [] h = refl
are_readable-sendable (s ∷ ss) (h, hs) =
    rw (is_readable-sendable s h, are_readable-sendable ss hs) refl

-- A message whose fields fit the wire format, and whose sections end in one ST_NONEXT, is returned by
-- fsmsg_from_socket just as `received` says, where its bytes have arrived in one segment.
pub received-fsmsg_from_socket :
    (e : Endian) (protocol : Protocol) (msg m : Fsmsg) (more : List ℕ) (s : Socket)
    → msg ≡ fsmsg_add_section m nonext
    → IsMessage protocol m
    → (fsmsg_from_socket e protocol (push_back ((fsmsg_to_buffer e msg protocol).0 ++ more) s)
        ≡ ok (m, push_back more s))
      × (received msg ≡ some m)
unfolding fsmsg_add_section
received-fsmsg_from_socket e protocol msg m more s sent h = rw sent (
  fsmsg_from_socket-to_buffer e protocol m more s h,
  rw (up_to_end-sendable m.sections h.sections, are_readable-sendable m.sections h.sections) refl,
)
