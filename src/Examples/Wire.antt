-- ===== src/Examples/Wire.antt =====
-- src/protomsg.c at concrete messages.
use netpro_project.Prelude.{
  ◌<◌, ◌^◌, ◌+◌, ◌*◌, ◌^◌, ◌≤◌, ◌≡◌, ◌≢◌, refl, [], ◌∷◌, ◌++◌, length, arith,
}
use netpro_project.Socket.{segment, interrupted, failed, push_back, ok, indeterminate, out_of_fuel}
use netpro_project.Protomsg.{
  fap, dcp, fctp, FileinfoSect, integer, string, binary, nonext, Fsmsg, fsmsg_add_section,
}
use netpro_project.Protomsg.Bytes.{
  little, big, le_bytes, le_value, be_bytes, memory, load, hton, htonll, ntohll,
}
use netpro_project.Protomsg.Bytes.Swap64.{memory-htonll, ntohll-mixed}
use netpro_project.Protomsg.Buffer.{add, bufferadd, fill_buffer, fsmsg_to_buffer}
use netpro_project.Protomsg.Buffer.Laws.{fill_buffer_fits, message_bytes, ids_bytes, sections_bytes}
use netpro_project.Protomsg.Buffer.Network.{
  network_ids, network_bytes, fsmsg_to_buffer-network_bytes,
}
use netpro_project.Protomsg.Receive.{fsmsg_from_socket}
use netpro_project.Protomsg.Receive.RoundTrip.{fsmsg_from_socket-to_buffer}
use netpro_project.Protomsg.Receive.Ends.{fsmsg_from_socket_ends}
use netpro_project.Protomsg.Receive.Faults.{up_to_cut, fsmsg_from_socket-cut}

-- FAP_COMMAND "create /a", file type 1, with its four header ids.
abbrev command_msg : Fsmsg
command_msg = record {
  tid = 0x0102030405060708;
  ids = 9 ∷ 2 ∷ 1333333337 ∷ [];
  msg_type = 5;
  sections = integer 1 ∷ string (b'/' ∷ b'a' ∷ []) ∷ integer 1 ∷ [];
}

abbrev file_a : FileinfoSect
file_a = record {
  type = 1;
  path = b'a' ∷ [];
  username = b'm' ∷ b'e' ∷ [];
  modified = 0;
  size = 3;
  replicas = 1;
}

abbrev header : Fsmsg
header = record { tid = 7; ids = 1 ∷ 2 ∷ []; msg_type = 15; sections = integer 1 ∷ [] }

-- The wire format of an empty FAP_QUIT message.
quit_bytes :
    fsmsg_to_buffer little
      (record { tid = 258; ids = 1 ∷ 2 ∷ 3 ∷ []; msg_type = 3; sections = nonext ∷ [] })
      fap
    ≡ (
      0 ∷ 0 ∷ 0 ∷ 0 ∷ 0 ∷ 0 ∷ 1 ∷ 2 ∷ 0 ∷ 0 ∷ 0 ∷ 0 ∷ 0 ∷ 0 ∷ 0 ∷ 1 ∷ 0 ∷ 0 ∷ 0 ∷ 0 ∷ 0 ∷ 0 ∷ 0 ∷ 2
          ∷ 0 ∷ 0 ∷ 0 ∷ 0 ∷ 0 ∷ 0 ∷ 0 ∷ 3 ∷ 0 ∷ 3 ∷ 0 ∷ 0 ∷ [],
      36,
    )
unfolding fsmsg_to_buffer add bufferadd le_bytes htonll hton le_value
quit_bytes = refl

fsmsg_from_socket-to_buffer_example :
    fsmsg_from_socket little fap (
      push_back
        ((fsmsg_to_buffer little (fsmsg_add_section command_msg nonext) fap).0 ++ 5 ∷ [])
        (failed ∷ []))
    ≡ ok (command_msg, segment 5 [] ∷ failed ∷ [])
fsmsg_from_socket-to_buffer_example =
    fsmsg_from_socket-to_buffer little fap command_msg (5 ∷ []) (failed ∷ []) (omega arith)

fsmsg_from_socket_ends_example :
    fsmsg_from_socket little dcp (segment 0 (7 ∷ []) ∷ interrupted ∷ []) ≢ out_of_fuel
fsmsg_from_socket_ends_example =
    fsmsg_from_socket_ends little dcp (segment 0 (7 ∷ []) ∷ interrupted ∷ [])

fsmsg_to_buffer-network_bytes_example :
    fsmsg_to_buffer little command_msg fap
    ≡ (network_bytes command_msg, length (network_bytes command_msg))
unfolding network_bytes network_ids sections_bytes le_bytes
fsmsg_to_buffer-network_bytes_example =
    fsmsg_to_buffer-network_bytes command_msg fap (λ h. cc) (omega arith) (omega arith) refl
      (omega arith)

fill_buffer_fits_example :
    (length (fill_buffer little command_msg fap).0.bytes
      ≤ (fill_buffer little command_msg fap).0.buflen)
    × ((fill_buffer little command_msg fap).0.buflen < 2 ^ 31)
unfolding message_bytes ids_bytes sections_bytes le_bytes
fill_buffer_fits_example = fill_buffer_fits little command_msg fap (omega arith)

-- A file of three bytes that arrives as two and one.
abbrev contents : Fsmsg
contents = record { tid = 7; ids = 1 ∷ 2 ∷ []; msg_type = 2; sections = [] }

fsmsg_from_socket-cut_example :
    ((fsmsg_to_buffer little
        (record contents { sections = binary (1 ∷ 2 ∷ 3 ∷ []) ∷ nonext ∷ [] })
        fctp).0
      ≡ up_to_cut little fctp contents (1 ∷ 2 ∷ []) (3 ∷ []) ++ (3 ∷ sections_bytes (nonext ∷ [])))
    × (fsmsg_from_socket little fctp (
          push_back
            (up_to_cut little fctp contents (1 ∷ 2 ∷ []) (3 ∷ []))
            (segment 3 (0 ∷ 0 ∷ []) ∷ []))
        ≡ indeterminate)
fsmsg_from_socket-cut_example =
    fsmsg_from_socket-cut little fctp contents (1 ∷ 2 ∷ []) (3 ∷ []) (nonext ∷ [])
      (segment 3 (0 ∷ 0 ∷ []) ∷ []) (omega arith) (omega arith) (omega arith) (omega arith)

memory-htonll_example : memory little 8 (htonll little 258) ≡ be_bytes 8 258
memory-htonll_example = memory-htonll 258 (omega arith)

ntohll-mixed_example :
    ntohll little (load little (memory big 8 (htonll big 258))) ≡ 258 * 2 ^ 32 + 0
ntohll-mixed_example = ntohll-mixed 258 (omega arith)
