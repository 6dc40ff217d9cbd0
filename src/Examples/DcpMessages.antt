-- ===== src/Examples/DcpMessages.antt =====
-- src/dcp.c at concrete messages.
use netpro_project.Prelude.{arith, ◌⊎◌, true, false, ◌≡◌, ◌↔◌, refl, [], ◌∷◌, some}
use netpro_project.Protomsg.{integer, string, nonext, Fsmsg, FileinfoSect}
use netpro_project.Protomsg.Testst.{data_integer, reject, pass}
use netpro_project.Protomsg.Testst.Laws.{Matches}
use netpro_project.Protomsg.Response.{accepted, refused}
use netpro_project.Dcp.Validate.{dcp_validate_sections}
use netpro_project.Dcp.Validate.Documented.{
  file_replicas, fields, is_known, dcp_validate_sections-described,
}
use netpro_project.Dcp.Respond.{dcp_check_response}
use netpro_project.Dcp.Send.{FileservInfo, dcp_open_request}
use netpro_project.Dcp.Handshake.{dcp_open, dcp_accept, joined, dcp_open-dcp_accept}
use netpro_project.Fap.Client.{returns}
use netpro_project.Directory.Handlers.{strndup}
use netpro_project.FileServer.Forwards.{received}

abbrev replicas_msg : Fsmsg
replicas_msg = record {
  tid = 4;
  ids = 1 ∷ 9 ∷ [];
  msg_type = 11;
  sections = integer 1 ∷ string (b'h' ∷ []) ∷ nonext ∷ [];
}

abbrev short_read : Fsmsg
short_read = record { tid = 4; ids = 1 ∷ 9 ∷ []; msg_type = 5; sections = integer 0 ∷ [] }

abbrev server : FileservInfo
server = record { id = 1; lasttid = 4; address = b'h' ∷ [] }

abbrev file : FileinfoSect
file = record {
  type = 1;
  path = b'f' ∷ [];
  username = b'u' ∷ [];
  modified = 0;
  size = 3;
  replicas = 1;
}

-- A list of replicas, and a lock, which is refused with the sections of the description.
dcp_validate_sections-described_example : (dcp_validate_sections replicas_msg ≡ pass tt) ↔ (
    (Matches (fields file_replicas (data_integer replicas_msg.sections)) replicas_msg.sections
      × (is_known file_replicas ≡ true))
    ⊎ (Matches [] replicas_msg.sections × (is_known file_replicas ≡ false)))
dcp_validate_sections-described_example =
    dcp_validate_sections-described file_replicas replicas_msg refl (omega arith)

lock_refused :
    dcp_validate_sections
      (record replicas_msg { msg_type = 3; sections = integer 1 ∷ string (b'/' ∷ []) ∷ [] })
    ≡ reject
unfolding dcp_validate_sections
lock_refused = refl

dcp_check_response_run : dcp_check_response (some replicas_msg) 4 1 9 12 ≡ accepted
unfolding dcp_check_response
dcp_check_response_run = refl

swapped_ids_refused : dcp_check_response (some replicas_msg) 4 9 1 12 ≡ refused 3
unfolding dcp_check_response
swapped_ids_refused = refl

dcp_open-dcp_accept_example :
    (response : Fsmsg) × ((dcp_accept 0 9
          (received (dcp_open_request 0 0 4 (b'h' ∷ []) 100 0 0))
          (record { id = 1; lasttid = 0; address = [] })
        ≡ returns (
          record { name = strndup (b'h' ∷ []); max_capacity = 100; disk_usage = 0; file_count = 0 },
          response,
        ))
      × (dcp_open 0 0 0 4 (received response) ≡ joined 1 9))
dcp_open-dcp_accept_example =
    dcp_open-dcp_accept 0 0 9 0 0 4 100 0 0 (b'h' ∷ [])
      (record { id = 1; lasttid = 0; address = [] })
