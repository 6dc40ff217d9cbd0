-- ===== src/FileServer/Commands.antt =====
-- A client at the file server: fap_accept of src/fap.c and a round of serve_client of src/fsservd.c.
use netpro_project.Prelude.{
  ℕ, ◌==◌, ◌%◌, ◌^◌, if◌then◌else◌, maybe, get_elem?, ◌>>=◌, List, [], Option, none, some,
}
use netpro_project.Protomsg.{MsgSection, string, Fsmsg}
use netpro_project.Protomsg.Testst.{seci}
use netpro_project.Protomsg.Testst as T
use netpro_project.Fap.{
  hello, FapType, quit, command, fap_type, fap_type_of, FapCommand, create, read, write, list,
  fap_command_of,
}
use netpro_project.Fap.Validate.{fap_validate_sections}
use netpro_project.Fap.Respond.{fap_check_response}
use netpro_project.Fap.Send.{fap_send_error, fap_send_ok, fap_accept_response}
use netpro_project.Fap.Client.{Outcome, returns, fails, crash, checked_as_one, validated, text_at}
use netpro_project.Directory.Handlers.{strndup}
use netpro_project.Directory.Serve.{err_msg}
use netpro_project.FileServer.{ClientInfo}

-- What serve_client calls for a command: create_file, serve_file, write_file or list_directory.
pub data Job : Type 0 where
  create_job : List ℕ → Job
  read_job : List ℕ → Job
  write_job : List ℕ → ℕ → Job
  list_job : ℕ → List ℕ → Job

-- How a round ends: serve_client returns, perhaps behind a message; it sends an error; it has called
-- a function of the file server; it has done nothing; or it reads a section that is not there.
pub data ClientRound : Type 0 where
  closed : ClientRound
  quits : ClientInfo → Fsmsg → ClientRound
  invalid : Fsmsg → ClientRound
  runs : ClientInfo → Job → ClientRound
  silent : ClientInfo → ClientRound
  crash_round : ClientRound

abbrev pub job : ClientInfo → Option Job → ClientRound
job info none = crash_round
job info (some j) = runs info j

abbrev pub on_check : T.Check (Unit {0}) → ClientRound → ClientRound → ClientRound
on_check (T.pass u) bad rest = rest
on_check T.reject bad rest = bad
on_check T.crash bad rest = crash_round

-- `SECS(msg, i).data` with its length, of a string
abbrev pub raw_text : MsgSection → Option (List ℕ)
raw_text (string s) = some s
raw_text s = none

module _ (heap sid fsid : ℕ) where
  -- What fap_accept stores of a FAP_HELLO, and its response.
  unfoldable pub accept_hello : List ℕ → ℕ → Fsmsg → ClientInfo → Outcome (ClientInfo × Fsmsg)
  unfolding fap_accept_response strndup
  accept_hello hostname dataport msg info = maybe (text_at msg.sections 0) crash (λ host.
      maybe (text_at msg.sections 1) crash (λ user. returns (
        record info { lasttid = msg.tid; host = host; user = user },
        fap_accept_response heap sid fsid msg info.id hostname dataport,
      )))

  -- `hostname` is what gethostname returned. The expected ids are 0, which stands for any.
  unfoldable pub fap_accept : List ℕ → ℕ → Option Fsmsg → ClientInfo → Outcome (ClientInfo × Fsmsg)
  unfolding fap_check_response fap_validate_sections accept_hello
  fap_accept hostname dataport msg info = checked_as_one (fap_check_response msg 0 0 0 0 0) (
      maybe msg crash (λ m.
        if m.msg_type == fap_type hello
        then validated (fap_validate_sections m) (accept_hello hostname dataport m info)
        else fails 1))

  -- `switch ((enum fap_commands) cmd)`
  unfoldable pub serve_command : Option FapCommand → List MsgSection → ClientInfo → ClientRound
  unfolding strndup
  serve_command (some create) ss info = job info (text_at ss 1 >>= λ p. some (create_job p))
  serve_command (some read) ss info = job info (text_at ss 1 >>= λ p. some (read_job p))
  serve_command (some write) ss info =
      job info (text_at ss 1 >>= λ p. seci ss 2 >>= λ n. some (write_job p n))
  serve_command (some list) ss info =
      job info (seci ss 1 >>= λ n. get_elem? ss 2 >>= raw_text >>= λ p. some (list_job n p))
  serve_command _ ss info = silent info

  -- `switch ((enum fap_type) msg->msg_type)`; `cmd` is a uint16_t.
  unfoldable pub serve_type : Option FapType → Fsmsg → ClientInfo → ClientRound
  unfolding serve_command fap_send_ok
  serve_type (some quit) msg info =
      quits (record info { id = 0 }) (fap_send_ok heap sid fsid msg.tid info.id)
  serve_type (some command) msg info =
      maybe (seci msg.sections 0) crash_round
        (λ n. serve_command (fap_command_of (n % 2 ^ 16)) msg.sections info)
  serve_type _ msg info = silent info

  unfoldable pub serve_client : Option Fsmsg → ClientInfo → ClientRound
  unfolding fap_validate_sections fap_send_error serve_type
  serve_client none info = closed
  serve_client (some msg) info =
      on_check (fap_validate_sections msg)
        (invalid (fap_send_error heap sid fsid msg.tid info.id err_msg []))
        (serve_type (fap_type_of msg.msg_type) msg (record info { lasttid = msg.tid }))
