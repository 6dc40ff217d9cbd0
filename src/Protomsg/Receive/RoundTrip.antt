-- ===== src/Protomsg/Receive/RoundTrip.antt =====
-- A message that fsmsg_to_buffer wrote is read back by fsmsg_from_socket.
use netpro_project.Prelude.{
  ℕ, zero, suc, ◌^◌, ◌<◌, ◌≡◌, refl, List, [], ◌∷◌, ◌++◌, length, length-append, All, arith,
}
use netpro_project.Socket.{Socket, push_back, ok, pending}
use netpro_project.Socket.Laws.{Reads, Reads-pure, Reads-bind, Reads-map, pending-push_back}
use netpro_project.Protomsg.{
  Protocol, fap, dcp, fctp, MsgSection, nonext, section_type, Fsmsg, idcount, fsmsg_add_section,
}
use netpro_project.Protomsg.Bytes.{Endian}
use netpro_project.Protomsg.Buffer.{wire64, fsmsg_to_buffer}
use netpro_project.Protomsg.Buffer.Laws.{
  sections_bytes, ids_bytes, message_bytes, fsmsg_to_buffer_lem, length-message_bytes,
}
use netpro_project.Protomsg.Receive.Fields.{
  IsSendable, IsMessage, read_type-Reads, read_int64-Reads, read_section-Reads, type-ne-zero,
  type-lt,
}
use netpro_project.Protomsg.Receive.{read_ids, read_sections, read_message, fsmsg_from_socket}

-- The sections up to the one that ends the message.
read_sections-Reads :
    (e : Endian) (ss : List MsgSection) (fuel : ℕ)
    → length ss < fuel
    → All IsSendable ss
    → Reads (read_sections fuel e) (sections_bytes (ss ++ nonext ∷ [])) ss
unfolding read_sections sections_bytes
read_sections-Reads e ss zero h sendable = absurd (omega arith)
read_sections-Reads e [] (suc fuel) h sendable =
    Reads-bind _ (read_type-Reads e 0 (omega arith)) (Reads-pure [])
read_sections-Reads e (s ∷ ss) (suc fuel) h (hs, hss) =
    let rest = read_sections-Reads e ss fuel (omega arith) hss in
    Reads-bind _ (read_type-Reads e (section_type s) (type-lt s hs)) (
      rw (type-ne-zero s hs)
        (Reads-bind _ (read_section-Reads e s hs) (Reads-map (λ t. s ∷ t) rest)))

-- The ids one after another.
pub id_fields : Endian → List ℕ → List ℕ
id_fields e [] = []
id_fields e (id ∷ ids) = wire64 e id ++ id_fields e ids

read_ids-Reads :
    (e : Endian) (ids : List ℕ)
    → All (λ id. id < 2 ^ 64) ids
    → Reads (read_ids e (length ids)) (id_fields e ids) ids
unfolding read_ids id_fields
read_ids-Reads e [] h = Reads-pure []
read_ids-Reads e (id ∷ ids) (hid, hids) =
    Reads-bind _ (read_int64-Reads e id hid) (Reads-map (λ t. id ∷ t) (read_ids-Reads e ids hids))

three : (e : Endian) (ids : List ℕ) → length ids ≡ 3 → ids_bytes e ids 3 0 ≡ id_fields e ids
unfolding ids_bytes id_fields
three e (a ∷ b ∷ c ∷ []) h = refl
three e (a ∷ b ∷ c ∷ d ∷ r) h = absurd (omega arith)
three e (a ∷ b ∷ []) h = absurd (omega arith)
three e (a ∷ []) h = absurd (omega arith)
three e [] h = absurd (omega arith)

two : (e : Endian) (ids : List ℕ) → length ids ≡ 2 → ids_bytes e ids 2 0 ≡ id_fields e ids
unfolding ids_bytes id_fields
two e (a ∷ b ∷ []) h = refl
two e (a ∷ b ∷ c ∷ r) h = absurd (omega arith)
two e (a ∷ []) h = absurd (omega arith)
two e [] h = absurd (omega arith)

ids_bytes-eq-id_fields :
    (e : Endian) (protocol : Protocol) (ids : List ℕ)
    → length ids ≡ idcount protocol
    → ids_bytes e ids (idcount protocol) 0 ≡ id_fields e ids
ids_bytes-eq-id_fields e fap ids h = three e ids h
ids_bytes-eq-id_fields e dcp ids h = two e ids h
ids_bytes-eq-id_fields e fctp ids h = two e ids h

pub id_list-Reads :
    (e : Endian) (protocol : Protocol) (ids : List ℕ)
    → All (λ id. id < 2 ^ 64) ids
    → length ids ≡ idcount protocol
    → Reads (read_ids e (idcount protocol)) (ids_bytes e ids (idcount protocol) 0) ids
id_list-Reads e protocol ids h count =
    rw (ids_bytes-eq-id_fields e protocol ids count, ← count) (read_ids-Reads e ids h)

read_message-Reads :
    (e : Endian) (protocol : Protocol) (msg : Fsmsg) (fuel : ℕ)
    → IsMessage protocol msg
    → length msg.sections < fuel
    → Reads
        (read_message fuel e protocol)
        (message_bytes e (fsmsg_add_section msg nonext) protocol)
        msg
unfolding read_message message_bytes fsmsg_add_section
read_message-Reads e protocol msg fuel h enough = Reads-bind _ (read_int64-Reads e msg.tid h.tid) (
    Reads-bind _ (id_list-Reads e protocol msg.ids h.ids h.count) (
      Reads-bind _ (read_type-Reads e msg.msg_type h.msg_type)
        (Reads-map _ (read_sections-Reads e msg.sections fuel enough h.sections))))

-- What fsmsg_to_buffer makes of a well-formed message that ends in ST_NONEXT is read back by
-- fsmsg_from_socket, for any of the three protocols and on a host of either byte order, if it
-- arrives in one segment; whatever follows it stays in the socket.
pub fsmsg_from_socket-to_buffer :
    (e : Endian) (protocol : Protocol) (msg : Fsmsg) (more : List ℕ) (s : Socket)
    → IsMessage protocol msg
    → fsmsg_from_socket e protocol
        (push_back ((fsmsg_to_buffer e (fsmsg_add_section msg nonext) protocol).0 ++ more) s)
      ≡ ok (msg, push_back more s)
unfolding fsmsg_from_socket fsmsg_add_section
fsmsg_from_socket-to_buffer e protocol msg more s h =
    let w = message_bytes e (fsmsg_add_section msg nonext) protocol in
    rw (fsmsg_to_buffer_lem e (fsmsg_add_section msg nonext) protocol) (
      (read_message-Reads e protocol msg (suc (pending (push_back (w ++ more) s))) h (
          omega (
            arith,
            pending-push_back (w ++ more) s,
            length-append w more,
            length-message_bytes e protocol (fsmsg_add_section msg nonext),
            length-append msg.sections (nonext ∷ []),
          ))).at
        more s)
