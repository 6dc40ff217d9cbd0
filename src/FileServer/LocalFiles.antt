-- ===== src/FileServer/LocalFiles.antt =====
-- The functions of src/fsservd.c that use the local disk: write_file, serve_file and ask_file. The disk and
-- the data connection of the client are explicit.
pub mod WriteRead
pub mod Missing
use netpro_project.Prelude.{
  ℕ, zero, suc, ◌%◌, ◌^◌, ◌==◌, ltb, if◌then◌else◌, maybe, length, drop, List, [], ◌∷◌, ◌++◌,
  Option, none, some,
}
use netpro_project.Socket.{Socket}
use netpro_project.Socket.Recvfile.{Transfer, whole, broken, endless, recvfile}
use netpro_project.Socket.Recvfile as S
use netpro_project.Protomsg.{MsgSection, integer, string, nonext, Fsmsg, fsmsg_add_section, rounds}
use netpro_project.Protomsg.Testst.{first_integer}
use netpro_project.Protomsg.Testst as T
use netpro_project.Protomsg.Response.{Answer, accepted, refused}
use netpro_project.Protomsg.Response as R
use netpro_project.Dcp.{update, get_replicas, dcp_type, dcp_create_msg}
use netpro_project.Dcp.Validate.{dcp_validate_sections}
use netpro_project.Dcp.Respond.{dcp_check_response}
use netpro_project.Fap.{response, fap_response, fap_dataout, fap_create_msg}
use netpro_project.Fap.Client.{text_of}
use netpro_project.Fap.Send.{fap_send_error, fap_send_ok}
use netpro_project.Fctp.{Disk, store, Fetch, fetched, not_fetched, no_data, fctp_get_file}
use netpro_project.Directory.Handlers.{strndup}
use netpro_project.FileServer.{ClientInfo}

-- How write_file ends: with the file and a message; with a message or none, and no file; waiting for data
-- for ever; with the process; or at a section that is missing.
pub data Written : Type 0 where
  wrote : Fsmsg → Disk → Socket → Written
  told : Fsmsg → Written
  dropped : Written
  waits : Written
  exits : Written
  crash : Written
  out_of_fuel : Written

abbrev pub update_error : List ℕ
update_error = b'e' ∷ b'r' ∷ b'r' ∷ b'o' ∷ b'r' ∷ []

abbrev pub on_answer : Answer → (ℕ → Written) → Written → Written
on_answer accepted other rest = rest
on_answer (refused v) other rest = other v
on_answer R.crash other rest = crash

abbrev pub on_check : T.Check (Unit {0}) → Written → Written
on_check (T.pass u) rest = rest
on_check T.reject rest = dropped
on_check T.crash rest = crash

-- syscallerr ends the process behind a failure, and for a length that recvfile returns as a negative int.
abbrev pub on_transfer : ℕ → Transfer → (List ℕ → Socket → Written) → Written
on_transfer len (whole bytes rest) use_bytes =
    if ltb len (2 ^ 31) then use_bytes bytes rest else exits
on_transfer len (broken bytes) use_bytes = exits
on_transfer len (endless bytes) use_bytes = waits
on_transfer len S.out_of_fuel use_bytes = out_of_fuel

-- How serve_file ends: with a message and the bytes that sendfile puts on the data connection; with the
-- process; or at a section of ask_file that is missing.
pub data Served : Type 0 where
  served : Fsmsg → List ℕ → Served
  exits_unopened : Served
  crash_served : Served

-- The disk behind ask_file.
pub data Asked : Type 0 where
  asked : Disk → Asked
  crash_asked : Asked

module _ (heap sid fsid : ℕ) (info : ClientInfo) (dataloc : List ℕ) where
  -- The answer to a response that dcp_check_response refuses with `- v`.
  unfoldable pub write_refused : ℕ → Option Fsmsg → Written
  unfolding fap_send_error
  write_refused v none = dropped
  write_refused v (some dirmsg) =
      if v == 5
      then maybe (first_integer dirmsg.sections) crash
          (λ n. told (fap_send_error heap sid fsid info.lasttid info.id n update_error))
      else dropped

  -- The local file and the answer; another count of files than 1 is only reported.
  unfoldable pub write_local : List ℕ → ℕ → List MsgSection → Disk → Socket → Written
  unfolding recvfile store fap_send_ok
  write_local path len ss disk data_in = maybe (first_integer ss) crash (λ count.
      on_transfer len (recvfile len data_in) (λ bytes rest.
        wrote (fap_send_ok heap sid fsid info.lasttid info.id) (store (dataloc ++ path) bytes disk)
          rest))

  -- `dirmsg` is what fsmsg_from_socket has returned after the request with the id `tid`.
  unfoldable pub write_file : ℕ → Option Fsmsg → List ℕ → ℕ → Disk → Socket → Written
  unfolding dcp_check_response dcp_validate_sections write_refused write_local
  write_file tid dirmsg path len disk data_in =
      on_answer (dcp_check_response dirmsg tid sid fsid (dcp_type update))
        (λ v. write_refused v dirmsg)
        (maybe dirmsg dropped
          (λ m. on_check (dcp_validate_sections m) (write_local path len m.sections disk data_in)))

  -- The request of ask_file: its string is empty, since `data` is zeroed and the path is not put there.
  unfoldable pub ask_request : ℕ → Fsmsg
  unfolding dcp_create_msg fsmsg_add_section
  ask_request tid =
      let msg = dcp_create_msg heap tid sid fsid get_replicas in
      let m1 = fsmsg_add_section msg (string []) in fsmsg_add_section m1 nonext

  abbrev pub on_fetch : Fetch → Asked → Asked
  on_fetch (fetched disk) others = asked disk
  on_fetch not_fetched others = others
  on_fetch no_data others = crash_asked

  -- `for(int i=0;i<SECI(msg, 0);i++)`: the rounds left, then the sections from `i + 1` on. `get` is what
  -- fsmsg_from_socket returns behind the request to a host.
  unfoldable pub try_replicas :
      (List ℕ → Option Fsmsg) → List ℕ → ℕ → List MsgSection → Disk → Asked
  unfolding fctp_get_file strndup
  try_replicas get path zero ss disk = asked disk
  try_replicas get path (suc n) [] disk = crash_asked
  try_replicas get path (suc n) (s ∷ ss) disk =
      let others = try_replicas get path n ss disk in
      maybe (text_of s) crash_asked
        (λ host. on_fetch (fctp_get_file dataloc path (get host) disk) others)

  abbrev pub on_replicas : Answer → T.Check (Unit {0}) → Disk → Asked → Asked
  on_replicas (refused v) valid disk rest = asked disk
  on_replicas R.crash valid disk rest = crash_asked
  on_replicas accepted (T.pass u) disk rest = rest
  on_replicas accepted T.reject disk rest = asked disk
  on_replicas accepted T.crash disk rest = crash_asked

  unfoldable pub ask_file : ℕ → Option Fsmsg → (List ℕ → Option Fsmsg) → List ℕ → Disk → Asked
  unfolding dcp_check_response dcp_validate_sections try_replicas
  ask_file tid none get path disk = asked disk
  ask_file tid (some msg) get path disk =
      on_replicas (dcp_check_response (some msg) tid sid fsid (dcp_type get_replicas))
        (dcp_validate_sections msg) disk
        (maybe (first_integer msg.sections) crash_asked
          (λ n. try_replicas get path (rounds n) (drop 1 msg.sections) disk))

  unfoldable pub dataout_msg : ℕ → Fsmsg
  unfolding fap_create_msg fsmsg_add_section
  dataout_msg size =
      let climsg = fap_create_msg heap info.lasttid sid info.id fsid response in
      let m1 = fsmsg_add_section climsg (integer (fap_response fap_dataout)) in
      let m2 = fsmsg_add_section m1 (integer size) in fsmsg_add_section m2 nonext

  -- `st.st_size` is cut to an int32_t for the message, not for sendfile.
  unfoldable pub serve_content : List ℕ → Served
  unfolding dataout_msg
  serve_content bytes = served (dataout_msg (length bytes % 2 ^ 32)) bytes

  unfoldable pub serve_asked : Asked → List ℕ → Served
  unfolding serve_content
  serve_asked (asked disk) path = maybe (disk (dataloc ++ path)) exits_unopened serve_content
  serve_asked crash_asked path = crash_served

  -- A file that is not there is opened again behind ask_file; if that fails too, syscallerr ends the process.
  unfoldable pub serve_file : ℕ → Option Fsmsg → (List ℕ → Option Fsmsg) → List ℕ → Disk → Served
  unfolding ask_file serve_content serve_asked
  serve_file tid dirmsg get path disk =
      maybe (disk (dataloc ++ path)) (serve_asked (ask_file tid dirmsg get path disk) path)
        serve_content
