-- ===== src/Dcp.antt =====
-- The directory control protocol, between file servers and the directory server: the enumeration of
-- src/dcp.h and dcp_create_msg of src/dcp.c.
pub mod Validate
pub mod Respond
pub mod Send
pub mod Handshake
use netpro_project.Prelude.{ℕ, ◌≡◌, refl, Option, none, some, set, ◌%◌, ◌^◌, ◌==◌, if◌then◌else◌}
use netpro_project.Protomsg.{Fsmsg, dcp, fsmsg_create}

pub data DcpType : Type 0 where
  hello hello_response lock create read update delete search : DcpType
  invalidate replica_update replica_status get_replicas disconnect fileinfo error : DcpType

abbrev pub dcp_type : DcpType → ℕ
dcp_type hello = 1
dcp_type hello_response = 2
dcp_type lock = 3
dcp_type create = 4
dcp_type read = 5
dcp_type update = 6
dcp_type delete = 7
dcp_type search = 8
dcp_type invalidate = 9
dcp_type replica_update = 10
dcp_type replica_status = 11
dcp_type get_replicas = 12
dcp_type disconnect = 13
dcp_type fileinfo = 15
dcp_type error = 16

abbrev pub dcp_type_of : ℕ → Option DcpType
dcp_type_of n =
    if n == 1
    then some hello
    else if n == 2
    then some hello_response
    else if n == 3
    then some lock
    else if n == 4
    then some create
    else if n == 5
    then some read
    else if n == 6
    then some update
    else if n == 7
    then some delete
    else if n == 8
    then some search
    else if n == 9
    then some invalidate
    else if n == 10
    then some replica_update
    else if n == 11
    then some replica_status
    else if n == 12
    then some get_replicas
    else if n == 13
    then some disconnect
    else if n == 15
    then some fileinfo
    else if n == 16
    then some error
    else none

pub dcp_type_of_lem : (t : DcpType) → dcp_type_of (dcp_type t) ≡ some t
dcp_type_of_lem hello = refl
dcp_type_of_lem _ = refl

unfoldable pub dcp_create_msg : ℕ → ℕ → ℕ → ℕ → DcpType → Fsmsg
unfolding fsmsg_create
dcp_create_msg heap tid server_id filesystem_id msg_type =
    let msg = fsmsg_create heap dcp in
    record msg {
      tid = tid;
      ids = set (set msg.ids 0 server_id) 1 filesystem_id;
      msg_type = dcp_type msg_type % 2 ^ 16;
    }
