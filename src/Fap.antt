-- ===== src/Fap.antt =====
-- The file access protocol, between clients and file servers: the enumerations of src/fap.h and
-- fap_create_msg of src/fap.c. A cast of a number to an enumeration is a function into Option: a
-- number that names no enumerator takes the default case of every switch.
pub mod Validate
pub mod Respond
pub mod Send
pub mod Client
use netpro_project.Prelude.{ℕ, Option, none, some, [], ◌∷◌, set, ◌%◌, ◌^◌, ◌==◌, if◌then◌else◌}
use netpro_project.Protomsg.{Fsmsg, fap, fsmsg_create}

pub data FapType : Type 0 where
  hello hello_response quit command response error : FapType

abbrev pub fap_type : FapType → ℕ
fap_type hello = 1
fap_type hello_response = 2
fap_type quit = 3
fap_type command = 5
fap_type response = 6
fap_type error = 8

abbrev pub fap_type_of : ℕ → Option FapType
fap_type_of n =
    if n == 1
    then some hello
    else if n == 2
    then some hello_response
    else if n == 3
    then some quit
    else if n == 5
    then some command
    else if n == 6
    then some response
    else if n == 8
    then some error
    else none

pub data FapCommand : Type 0 where
  create open_file close_file stat read write delete copy find list : FapCommand

abbrev pub fap_command : FapCommand → ℕ
fap_command create = 1
fap_command open_file = 2
fap_command close_file = 3
fap_command stat = 4
fap_command read = 5
fap_command write = 6
fap_command delete = 7
fap_command copy = 8
fap_command find = 9
fap_command list = 10

abbrev pub fap_command_of : ℕ → Option FapCommand
fap_command_of n =
    if n == 1
    then some create
    else if n == 2
    then some open_file
    else if n == 3
    then some close_file
    else if n == 4
    then some stat
    else if n == 5
    then some read
    else if n == 6
    then some write
    else if n == 7
    then some delete
    else if n == 8
    then some copy
    else if n == 9
    then some find
    else if n == 10
    then some list
    else none

pub data FapResponse : Type 0 where
  fap_ok fap_fileinfo fap_dataout : FapResponse

abbrev pub fap_response : FapResponse → ℕ
fap_response fap_ok = 1
fap_response fap_fileinfo = 2
fap_response fap_dataout = 3

abbrev pub fap_response_of : ℕ → Option FapResponse
fap_response_of n =
    if n == 1
    then some fap_ok
    else if n == 2
    then some fap_fileinfo
    else if n == 3
    then some fap_dataout
    else none

-- `heap` is what malloc left in the field that is then set. The type is cut to uint16_t.
unfoldable pub fap_create_msg : ℕ → ℕ → ℕ → ℕ → ℕ → FapType → Fsmsg
unfolding fsmsg_create
fap_create_msg heap tid server_id client_id filesystem_id msg_type =
    let msg = fsmsg_create heap fap in
    record msg {
      tid = tid;
      ids = set (set (set msg.ids 0 server_id) 1 client_id) 2 filesystem_id;
      msg_type = fap_type msg_type % 2 ^ 16;
    }
