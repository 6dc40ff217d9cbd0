-- ===== src/Dcp/Handshake.antt =====
-- A file server that connects to the directory server: what dcp_open and dcp_accept of src/dcp.c make of the
-- message that fsmsg_from_socket has returned, and store of it.
use netpro_project.Prelude.{
  ℕ, ◌≡◌, refl, ◌==◌, if◌then◌else◌, maybe, get_or, List, [], ◌∷◌, Option, none, some,
}
use netpro_project.Protomsg.{Fsmsg, fsmsg_add_section}
use netpro_project.Protomsg.Testst.{seci}
use netpro_project.Protomsg.Testst as T
use netpro_project.Protomsg.Response.{Answer, accepted, refused, expect_id-same}
use netpro_project.Protomsg.Response as R
use netpro_project.Dcp.{hello, dcp_type, dcp_create_msg}
use netpro_project.Dcp.Validate.{dcp_validate_sections}
use netpro_project.Dcp.Respond.{dcp_check_response}
use netpro_project.Dcp.Send.{FileservInfo, dcp_send_error, dcp_open_request, dcp_accept_response}
use netpro_project.Fap.Client.{Outcome, returns, fails, crash, validated, text_at}
use netpro_project.Directory.Handlers.{strndup}
use netpro_project.Directory.Serve.{err_msg}
use netpro_project.FileServer.Forwards.{received}

-- What dcp_accept stores of a DCP_HELLO in struct fileserv_info, besides the ids.
pub record Greeting : Type 0 where
  pub name : List ℕ
  pub max_capacity : ℕ
  pub disk_usage : ℕ
  pub file_count : ℕ

-- How dcp_open goes on: with the ids of the response; with an error to the server; without, though the
-- ids are stored; or at a missing section.
pub data Joining : Type 0 where
  joined : ℕ → ℕ → Joining
  complains : Fsmsg → Joining
  invalid : ℕ → ℕ → Joining
  crash_join : Joining

abbrev pub wrong_response : List ℕ
wrong_response =
    b'r' ∷ b'e' ∷ b's' ∷ b'p' ∷ b'o' ∷ b'n' ∷ b's' ∷ b'e' ∷ b' ' ∷ b't' ∷ b'y' ∷ b'p' ∷ b'e' ∷ b' '
    ∷ b'o' ∷ b'r' ∷ b' ' ∷ b's' ∷ b'o' ∷ b'm' ∷ b'e' ∷ b' ' ∷ b'i' ∷ b'd' ∷ b' ' ∷ b'w' ∷ b'a'
    ∷ b's' ∷ b' ' ∷ b'w' ∷ b'r' ∷ b'o' ∷ b'n' ∷ b'g' ∷ []

abbrev pub on_answer : Answer → Joining → Joining → Joining
on_answer accepted bad rest = rest
on_answer (refused v) bad rest = bad
on_answer R.crash bad rest = crash_join

abbrev pub on_check : T.Check (Unit {0}) → Joining → Joining → Joining
on_check (T.pass u) bad rest = rest
on_check T.reject bad rest = bad
on_check T.crash bad rest = crash_join

-- `sid` and `fsid` are the ids from before.
unfoldable pub dcp_open : ℕ → ℕ → ℕ → ℕ → Option Fsmsg → Joining
unfolding dcp_check_response dcp_validate_sections dcp_send_error
dcp_open heap sid fsid tid msg =
    on_answer (dcp_check_response msg tid 0 0 (dcp_type hello))
      (complains (dcp_send_error heap fsid tid sid err_msg wrong_response))
      (maybe msg crash_join (λ m.
        let server_id = get_or m.ids 0 0 in
        let filesystem = get_or m.ids 1 0 in
        on_check (dcp_validate_sections m) (invalid server_id filesystem)
          (joined server_id filesystem)))

-- The message without its checks.
unfoldable pub store_hello : ℕ → ℕ → Fsmsg → FileservInfo → Outcome (Greeting × Fsmsg)
unfolding strndup dcp_accept_response
store_hello heap fsid msg info = maybe (text_at msg.sections 0) crash (λ name.
    maybe (seci msg.sections 1) crash (λ capacity. maybe (seci msg.sections 2) crash (λ usage.
      maybe (seci msg.sections 3) crash (λ filecnt. returns (
        record { name = name; max_capacity = capacity; disk_usage = usage; file_count = filecnt },
        dcp_accept_response heap fsid info msg,
      )))))

unfoldable pub dcp_accept : ℕ → ℕ → Option Fsmsg → FileservInfo → Outcome (Greeting × Fsmsg)
unfolding dcp_validate_sections store_hello
dcp_accept heap fsid none info = fails 1
dcp_accept heap fsid (some msg) info =
    if msg.msg_type == dcp_type hello
    then validated (dcp_validate_sections msg) (store_hello heap fsid msg info)
    else fails 2

-- The greeting of dcp_open is accepted by dcp_accept, which stores the name of the host up to a NUL and
-- the three numbers, and dcp_open takes the ids of the file server and of the file system from the
-- response.
pub dcp_open-dcp_accept :
    (heap heap' fsid sid' fsid' tid capacity usage filecnt : ℕ) (hostname : List ℕ)
    (info : FileservInfo)
    → (response : Fsmsg) × ((dcp_accept heap' fsid
            (received (dcp_open_request heap fsid' tid hostname capacity usage filecnt))
            info
          ≡ returns (
            record {
              name = strndup hostname;
              max_capacity = capacity;
              disk_usage = usage;
              file_count = filecnt;
            },
            response,
          ))
        × (dcp_open heap sid' fsid' tid (received response) ≡ joined info.id fsid))
unfolding dcp_accept store_hello dcp_open dcp_open_request dcp_accept_response dcp_check_response
    dcp_validate_sections dcp_create_msg fsmsg_add_section
dcp_open-dcp_accept heap heap' fsid sid' fsid' tid capacity usage filecnt hostname info =
    (_, (refl, simp expect_id-same))
