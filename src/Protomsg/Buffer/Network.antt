-- ===== src/Protomsg/Buffer/Network.antt =====
-- On a little-endian host fsmsg_to_buffer writes the general message format of the protocol
-- description: every field in network byte order.
use netpro_project.Prelude.{ℕ, ◌^◌, ◌<◌, ◌≡◌, ◌≢◌, ap, List, [], ◌∷◌, ◌++◌, length, All, arith, ◌∙◌}
use netpro_project.Protomsg.{Protocol, fap, dcp, fctp, Fsmsg, idcount}
use netpro_project.Protomsg.Bytes.{little, be_bytes}
use netpro_project.Protomsg.Bytes.Swap64.{memory-htonll}
use netpro_project.Protomsg.Buffer.{fsmsg_to_buffer}
use netpro_project.Protomsg.Buffer.Laws.{
  sections_bytes, ids_bytes, message_bytes, fsmsg_to_buffer_lem,
}

-- The ids as consecutive 64-bit fields.
unfoldable pub network_ids : List ℕ → List ℕ
network_ids [] = []
network_ids (id ∷ ids) = be_bytes 8 id ++ network_ids ids

unfoldable pub network_bytes : Fsmsg → List ℕ
unfolding network_ids sections_bytes
network_bytes msg =
    be_bytes 8 msg.tid
    ++ (network_ids msg.ids ++ (be_bytes 2 msg.msg_type ++ sections_bytes msg.sections))

three :
    (ids : List ℕ)
    → All (λ id. id < 2 ^ 64) ids
    → length ids ≡ 3
    → ids_bytes little ids 3 0 ≡ network_ids ids
unfolding ids_bytes network_ids
three (a ∷ b ∷ c ∷ []) (ha, (hb, (hc, _))) h =
    rw (memory-htonll a ha, memory-htonll b hb, memory-htonll c hc)
three (a ∷ b ∷ c ∷ d ∷ r) all h = absurd (omega arith)
three (a ∷ b ∷ []) all h = absurd (omega arith)
three (a ∷ []) all h = absurd (omega arith)
three [] all h = absurd (omega arith)

two :
    (ids : List ℕ)
    → All (λ id. id < 2 ^ 64) ids
    → length ids ≡ 2
    → ids_bytes little ids 2 0 ≡ network_ids ids
unfolding ids_bytes network_ids
two (a ∷ b ∷ []) (ha, (hb, _)) h = rw (memory-htonll a ha, memory-htonll b hb)
two (a ∷ b ∷ c ∷ r) all h = absurd (omega arith)
two (a ∷ []) all h = absurd (omega arith)
two [] all h = absurd (omega arith)

ids_bytes-network :
    (protocol : Protocol) (ids : List ℕ)
    → All (λ id. id < 2 ^ 64) ids
    → length ids ≡ idcount protocol
    → ids_bytes little ids (idcount protocol) 0 ≡ network_ids ids
ids_bytes-network fap ids all h = three ids all h
ids_bytes-network dcp ids all h = two ids all h
ids_bytes-network fctp ids all h = two ids all h

-- On a little-endian host fsmsg_to_buffer fills the buffer of a message of the file access protocol or of
-- the directory control protocol with the transaction id, the ids of the protocol, the message type and the
-- sections in network byte order, and returns their length, if the ids fit 64 bits and are as many as the
-- protocol has, and the length is an int.
pub fsmsg_to_buffer-network_bytes :
    (msg : Fsmsg) (protocol : Protocol)
    → protocol ≢ fctp
    → msg.tid < 2 ^ 64
    → All (λ id. id < 2 ^ 64) msg.ids
    → length msg.ids ≡ idcount protocol
    → length (network_bytes msg) < 2 ^ 31
    → fsmsg_to_buffer little msg protocol ≡ (network_bytes msg, length (network_bytes msg))
unfolding network_bytes
fsmsg_to_buffer-network_bytes msg protocol _ tid ids count _ =
    fsmsg_to_buffer_lem little msg protocol ∙ ap (λ w. (w, length w)) same
  where
    same : message_bytes little msg protocol ≡ network_bytes msg
    same =
        unfold message_bytes in
        rw (memory-htonll msg.tid tid, ids_bytes-network protocol msg.ids ids count)
