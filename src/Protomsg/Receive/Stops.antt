-- ===== src/Protomsg/Receive/Stops.antt =====
-- Messages that fsmsg_from_socket does not read to their end.
use netpro_project.Prelude.{
  ℕ, zero, suc, ◌^◌, ◌<◌, ◌≡◌, false, List, [], ◌∷◌, ◌++◌, length, length-append, All, append_assoc,
  ◌==◌, arith,
}
use netpro_project.Socket.{Socket, push_back, Outcome, null, indeterminate, Reader, ◌>>=◌, pending}
use netpro_project.Socket.Laws.{Reads, pending-push_back}
use netpro_project.Protomsg.{Protocol, MsgSection, section_type, Fsmsg, idcount}
use netpro_project.Protomsg.Bytes.{Endian, be_bytes}
use netpro_project.Protomsg.Buffer.{wire64}
use netpro_project.Protomsg.Buffer.Laws.{
  data_bytes, sections_bytes, ids_bytes, message_bytes, length-message_bytes,
}
use netpro_project.Protomsg.Receive.{read_section, read_sections, read_message, fsmsg_from_socket}
use netpro_project.Protomsg.Receive.Fields.{
  IsSendable, IsMessage, read_type-Reads, read_int64-Reads, read_section-Reads, type-ne-zero,
  type-lt,
}
use netpro_project.Protomsg.Receive.RoundTrip.{id_list-Reads}

-- The two ways to end without a message.
pub data Stop : Type 0 where
  refused unwritten : Stop

abbrev pub outcome : {A : Type 0} → Stop → Outcome A
outcome refused = null
outcome unwritten = indeterminate

-- `r` ends so on a segment that holds `w`, whatever comes after the segment.
pub record Stops {A : Type 0} (x : Stop) (r : Reader A) (w : List ℕ) : Type 0 where
  pub at : (s : Socket) → r (push_back w s) ≡ outcome x

module _ {A B : Type 0} where
  pub Stops-bind_first :
      (x : Stop) {m : Reader A} (f : A → Reader B) {w : List ℕ} → Stops x m w → Stops x (m >>= f) w
  Stops-bind_first refused f p = record { at = λ s. rw (p.at s) }
  Stops-bind_first unwritten f p = record { at = λ s. rw (p.at s) }

  pub Stops-bind :
      {x : Stop} {m : Reader A} (f : A → Reader B) {w w' : List ℕ} {a : A}
      → Reads m w a
      → Stops x (f a) w'
      → Stops x (m >>= f) (w ++ w')
  Stops-bind f {w} {w'} p q = record { at = λ s. rw (p.at w' s) (q.at s) }

module _ (e : Endian) (x : Stop) (t : ℕ) (w : List ℕ) (fits : t < 2 ^ 16) (more : (t == 0) ≡ false)
    (stops : Stops x (read_section e t) w) where
  read_sections-Stops :
      (front : List MsgSection) (fuel : ℕ)
      → length front < fuel
      → All IsSendable front
      → Stops x (read_sections fuel e) (sections_bytes front ++ (be_bytes 2 t ++ w))
  unfolding read_sections sections_bytes
  read_sections-Stops front zero h sendable = absurd (omega arith)
  read_sections-Stops [] (suc fuel) h sendable =
      Stops-bind _ (read_type-Reads e t fits) (rw more (Stops-bind_first x _ stops))
  read_sections-Stops (s ∷ front) (suc fuel) h (hs, hfront) =
      let rest = read_sections-Stops front fuel (omega arith) hfront in
      rw
        (
          append_assoc (be_bytes 2 (section_type s)) (data_bytes s ++ sections_bytes front)
              (be_bytes 2 t ++ w),
          append_assoc (data_bytes s) (sections_bytes front) (be_bytes 2 t ++ w),
        )
        (Stops-bind _ (read_type-Reads e (section_type s) (type-lt s hs)) (
          rw (type-ne-zero s hs)
            (Stops-bind _ (read_section-Reads e s hs) (Stops-bind_first x _ rest))))

  read_message-Stops :
      (protocol : Protocol) (msg : Fsmsg) (fuel : ℕ)
      → IsMessage protocol msg
      → length msg.sections < fuel
      → Stops x (read_message fuel e protocol) (message_bytes e msg protocol ++ (be_bytes 2 t ++ w))
  unfolding read_message message_bytes
  read_message-Stops protocol msg fuel h enough =
      let tail = be_bytes 2 t ++ w in
      let ids = ids_bytes e msg.ids (idcount protocol) 0 in
      let type = be_bytes 2 msg.msg_type in
      let sections = sections_bytes msg.sections in
      rw
        (
          append_assoc (wire64 e msg.tid) (ids ++ (type ++ sections)) tail,
          append_assoc ids (type ++ sections) tail,
          append_assoc type sections tail,
        )
        (Stops-bind _ (read_int64-Reads e msg.tid h.tid) (
          Stops-bind _ (id_list-Reads e protocol msg.ids h.ids h.count) (
            Stops-bind _ (read_type-Reads e msg.msg_type h.msg_type)
              (Stops-bind_first x _ (read_sections-Stops msg.sections fuel enough h.sections)))))

  -- A message whose sections are fine up to one of type `t` ends there.
  pub fsmsg_from_socket-Stops :
      (protocol : Protocol) (msg : Fsmsg) (s : Socket)
      → IsMessage protocol msg
      → fsmsg_from_socket e protocol
          (push_back (message_bytes e msg protocol ++ (be_bytes 2 t ++ w)) s)
        ≡ outcome x
  unfolding fsmsg_from_socket
  fsmsg_from_socket-Stops protocol msg s h = (read_message-Stops protocol msg _ h enough).at s
    where
      enough :
          length msg.sections
          < suc (pending (push_back (message_bytes e msg protocol ++ (be_bytes 2 t ++ w)) s))
      enough = omega (
        arith,
        pending-push_back (message_bytes e msg protocol ++ (be_bytes 2 t ++ w)) s,
        length-append (message_bytes e msg protocol) (be_bytes 2 t ++ w),
        length-message_bytes e protocol msg,
      )
