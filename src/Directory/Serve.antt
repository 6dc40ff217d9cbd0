-- ===== src/Directory/Serve.antt =====
-- serve_fileserver of src/fsdird.c: one round of the loop, on the message that fsmsg_from_socket has returned.
use netpro_project.Prelude.{
  ℕ, leb, ltb, ◌||◌, maybe, if◌then◌else◌, List, [], ◌∷◌, length, take, set, Option, none, some,
}
use netpro_project.Protomsg.{MsgSection, integer, string, binary, fileinfo, nonext, unknown, Fsmsg}
use netpro_project.Protomsg.Testst as T
use netpro_project.Dcp.{DcpType, read, create, update, get_replicas, dcp_type_of}
use netpro_project.Dcp.Validate.{dcp_validate_sections}
use netpro_project.Dcp.Send.{FileservInfo, dcp_send_error}
use netpro_project.Directory.Handlers.{
  Server, Ending, sent, crash, strndup, read_dir, create_file, update_file, replica_status,
}

abbrev pub err_msg : ℕ
err_msg = 9

abbrev pub invalid_sections : List ℕ
invalid_sections =
    b's' ∷ b'e' ∷ b'c' ∷ b't' ∷ b'i' ∷ b'o' ∷ b'n' ∷ b' ' ∷ b'v' ∷ b'a' ∷ b'l' ∷ b'i' ∷ b'd' ∷ b'a'
    ∷ b't' ∷ b'i' ∷ b'o' ∷ b'n' ∷ b' ' ∷ b'e' ∷ b'r' ∷ b'r' ∷ b'o' ∷ b'r' ∷ []

-- How a round ends: the thread does, a request does, or no message is sent.
pub data Round : Type 0 where
  closed : Round
  ended : Ending → Round
  silent : Server → Round

-- SECSDUP: strndup of the pointer and the length in the place of a string's. In a file information the
-- path is that pointer, and the first four bytes are the length: `word` of the type byte, with what
-- stands behind it. No result where strndup reads behind the path, or no pointer.
unfoldable pub secsdup : (ℕ → ℕ) → MsgSection → Option (List ℕ)
unfolding strndup
secsdup word (string s) = some (strndup s)
secsdup word (binary s) = some (strndup s)
secsdup word (fileinfo f) =
    let n = word f.type in
    if leb n (length f.path) || ltb (length (strndup f.path)) (length f.path)
    then some (strndup (take n f.path))
    else none
secsdup word (integer n) = none
secsdup word nonext = none
secsdup word (unknown t) = none

module _ (word : ℕ → ℕ) (heap fsid i : ℕ) where
  -- `switch (msg->msg_type)`
  unfoldable pub dispatch : Option DcpType → List MsgSection → FileservInfo → Server → Round
  unfolding secsdup read_dir create_file update_file replica_status
  dispatch (some read) (integer recurse ∷ p ∷ ss) info s =
      ended (maybe (secsdup word p) crash (λ path. read_dir heap fsid i info recurse path s))
  dispatch (some read) ss info s = ended crash
  dispatch (some create) (fileinfo f ∷ ss) info s = ended (create_file heap fsid i info f s)
  dispatch (some create) ss info s = ended crash
  dispatch (some update) (p ∷ ss) info s =
      ended (maybe (secsdup word p) crash (λ path. update_file heap fsid i info path s))
  dispatch (some update) [] info s = ended crash
  dispatch (some get_replicas) (p ∷ ss) info s =
      ended (maybe (secsdup word p) crash (λ path. replica_status heap fsid i info path s))
  dispatch (some get_replicas) [] info s = ended crash
  dispatch _ ss info s = silent s

  -- `info->lasttid = msg->tid`, and the switch
  unfoldable pub answer : Fsmsg → FileservInfo → Server → Round
  unfolding dispatch
  answer msg info s =
      let noted = record info { lasttid = msg.tid } in
      let s1 = record s { fileservers = set s.fileservers i noted } in
      dispatch (dcp_type_of msg.msg_type) msg.sections noted s1

  abbrev pub on_check : T.Check (Unit {0}) → Round → Round → Round
  on_check (T.pass u) invalid rest = rest
  on_check T.reject invalid rest = invalid
  on_check T.crash invalid rest = ended crash

  unfoldable pub serve_round : Option Fsmsg → FileservInfo → Server → Round
  unfolding answer dcp_validate_sections dcp_send_error
  serve_round none info s = closed
  serve_round (some msg) info s =
      on_check (dcp_validate_sections msg)
        (ended (sent s (dcp_send_error heap fsid msg.tid info.id err_msg invalid_sections)))
        (answer msg info s)
