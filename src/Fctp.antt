-- ===== src/Fctp.antt =====
-- The file copy protocol between file servers, src/fctp.h and src/fctp.c: the messages, what fctp_get_file
-- stores, and a round of fctp_server. `local` is what stands under the paths of the local disk.
pub mod Download
use netpro_project.Prelude.{
  ℕ, ◌==◌, ◌%◌, ◌^◌, if◌then◌else◌, maybe, length, take, drop, set, get_elem?, ◌>>=◌, List, [], ◌∷◌,
  ◌++◌, Option, none, some,
}
use netpro_project.Protomsg.{
  MsgSection, integer, string, binary, nonext, Fsmsg, fctp, fsmsg_create, fsmsg_add_section,
}
use netpro_project.Protomsg.Memory.{Heap, Blocks, fsmsg_free}
use netpro_project.Directory.Path.{same_name}
use netpro_project.Directory.Handlers.{strndup, err_filenotfound}
use netpro_project.Directory.Serve.{secsdup}

pub data FctpType : Type 0 where
  download ok error : FctpType

abbrev pub fctp_type : FctpType → ℕ
fctp_type download = 1
fctp_type ok = 2
fctp_type error = 3

unfoldable pub fctp_create_msg : ℕ → ℕ → ℕ → ℕ → FctpType → Fsmsg
unfolding fsmsg_create
fctp_create_msg heap tid server_id filesystem_id msg_type =
    let msg = fsmsg_create heap fctp in
    record msg {
      tid = tid;
      ids = set (set msg.ids 0 server_id) 1 filesystem_id;
      msg_type = fctp_type msg_type % 2 ^ 16;
    }

-- The files of the local disk by their paths.
abbrev pub Disk : Type 0
Disk = List ℕ → Option (List ℕ)

-- `open` with O_CREAT, and a write from the beginning: without O_TRUNC the end of a longer file stays.
abbrev pub overwrite : Option (List ℕ) → List ℕ → List ℕ
overwrite none bytes = bytes
overwrite (some old) bytes = bytes ++ drop (length bytes) old

unfoldable pub store : List ℕ → List ℕ → Disk → Disk
unfolding same_name
store path bytes disk q = if same_name q path then some (overwrite (disk path) bytes) else disk q

-- What fctp_get_file comes to: 1 with a new file, 0, or a section that holds no bytes.
pub data Fetch : Type 0 where
  fetched : Disk → Fetch
  not_fetched : Fetch
  no_data : Fetch

-- `SECB(msg, 0)`; a string lies in the same place.
abbrev pub secb : MsgSection → Option (List ℕ)
secb (binary bytes) = some bytes
secb (string bytes) = some bytes
secb s = none

-- The messages that `msg` points to in a round of fctp_server.
pub data Pointer : Type 0 where
  request response : Pointer

-- How a round of fctp_server ends: with a message or without one, and with the calls of fsmsg_free in
-- their order; at the NULL that fsmsg_from_socket has returned; or at a missing path.
pub data Round : Type 0 where
  sends : Fsmsg → List Pointer → Round
  ignored : List Pointer → Round
  null_message : Round
  no_path : Round

-- The blocks of the request, and those of the response if there is one.
abbrev pub blocks_of : Blocks → Option Blocks → Pointer → Option Blocks
blocks_of asked given request = some asked
blocks_of asked given response = given

-- The calls of fsmsg_free, for the blocks of each message.
unfoldable pub run_frees : (Pointer → Option Blocks) → List Pointer → Heap → Option Heap
unfolding fsmsg_free
run_frees blocks [] h = some h
run_frees blocks (p ∷ ps) h = fsmsg_free (blocks p) h >>= run_frees blocks ps

abbrev pub no_file : List ℕ
no_file =
    b'n' ∷ b'o' ∷ b' ' ∷ b'l' ∷ b'o' ∷ b'c' ∷ b'a' ∷ b'l' ∷ b' ' ∷ b'f' ∷ b'i' ∷ b'l' ∷ b'e' ∷ b' '
    ∷ b'f' ∷ b'o' ∷ b'u' ∷ b'n' ∷ b'd' ∷ []

-- The file is taken to be opened for writing.
unfoldable pub fctp_get_file : List ℕ → List ℕ → Option Fsmsg → Disk → Fetch
unfolding store
fctp_get_file dataloc path none disk = not_fetched
fctp_get_file dataloc path (some msg) disk =
    if msg.msg_type == fctp_type error
    then not_fetched
    else if msg.msg_type == fctp_type ok
    then maybe (get_elem? msg.sections 0 >>= secb) no_data
        (λ bytes. fetched (store (dataloc ++ path) bytes disk))
    else not_fetched

module _ (heap sid fsid : ℕ) where
  -- The request of fctp_get_file.
  unfoldable pub fctp_request : ℕ → List ℕ → Fsmsg
  unfolding fctp_create_msg fsmsg_add_section
  fctp_request tid path =
      let msg = fctp_create_msg heap tid sid fsid download in
      let m1 = fsmsg_add_section msg (string path) in fsmsg_add_section m1 nonext

  unfoldable pub fctp_send_error : ℕ → ℕ → List ℕ → Fsmsg
  unfolding fctp_create_msg fsmsg_add_section
  fctp_send_error tid errorn errstr =
      let msg = fctp_create_msg heap tid sid fsid error in
      let m1 = fsmsg_add_section msg (integer errorn) in
      let m2 = fsmsg_add_section m1 (string errstr) in fsmsg_add_section m2 nonext

  -- The response of fctp_server: the file in one section, whose length, a uint32_t, is `st.st_size`.
  unfoldable pub fctp_response : ℕ → List ℕ → Fsmsg
  unfolding fctp_create_msg fsmsg_add_section
  fctp_response tid bytes =
      let msg = fctp_create_msg heap tid sid fsid ok in
      let m1 = fsmsg_add_section msg (binary (take (length bytes % 2 ^ 32) bytes)) in
      fsmsg_add_section m1 nonext

  -- From `localpath` to `nextround`: what is sent, and where `msg` points to behind it.
  unfoldable pub serve_download : List ℕ → Disk → ℕ → List ℕ → Fsmsg × Pointer
  unfolding fctp_response fctp_send_error
  serve_download dataloc disk tid path =
      maybe (disk (dataloc ++ path)) (fctp_send_error tid err_filenotfound no_file, request)
        (λ bytes. (fctp_response tid bytes, response))

  -- The request is freed behind its path, and `msg` at `nextround`.
  unfoldable pub fctp_server : (ℕ → ℕ) → List ℕ → Disk → Option Fsmsg → Round
  unfolding serve_download secsdup
  fctp_server word dataloc disk none = null_message
  fctp_server word dataloc disk (some msg) =
      if msg.msg_type == fctp_type download
      then maybe (get_elem? msg.sections 0 >>= secsdup word) no_path (λ path.
        let done = serve_download dataloc disk msg.tid path in sends done.0 (request ∷ done.1 ∷ []))
      else ignored (request ∷ [])
