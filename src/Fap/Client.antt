-- ===== src/Fap/Client.antt =====
-- The client's side of src/fap.c: what fap_open, fap_list, fap_create, fap_write_file, fap_read_file and
-- fap_client_wait_ok make of the message that fsmsg_from_socket has returned behind their request.
use netpro_project.Prelude.{
  ℕ, zero, suc, ◌==◌, if◌then◌else◌, maybe, ◌>>=◌, get_elem?, get_or, drop, List, [], ◌∷◌, Option,
  none, some,
}
use netpro_project.Protomsg.{MsgSection, string, fileinfo, FileinfoSect, Fsmsg, rounds}
use netpro_project.Protomsg.Testst.{seci}
use netpro_project.Protomsg.Testst as T
use netpro_project.Protomsg.Response.{Answer, accepted, refused}
use netpro_project.Protomsg.Response as R
use netpro_project.Fap.{hello, command, quit, fap_type, fap_response, fap_ok}
use netpro_project.Fap.Validate.{fap_validate_sections}
use netpro_project.Fap.Respond.{fap_check_response}
use netpro_project.Fap.Send.{fap_send_error}
use netpro_project.Directory.Handlers.{strndup}
use netpro_project.Directory.Serve.{err_msg}

-- How a function of the client ends: with its result, with `- v` for a `v` of the source, or at a section
-- that is missing or of another type than the one that is read.
pub data Outcome (A : Type 0) : Type 0 where
  returns : A → Outcome A
  fails : ℕ → Outcome A
  crash : Outcome A

module _ {A : Type 0} where
  -- The rest of a function behind fap_check_response, and behind fap_validate_sections
  abbrev pub checked : Answer → Outcome A → Outcome A
  checked accepted rest = rest
  checked (refused v) rest = fails v
  checked R.crash rest = crash

  -- `if (ret < 0) return -1;`
  abbrev pub checked_as_one : Answer → Outcome A → Outcome A
  checked_as_one accepted rest = rest
  checked_as_one (refused v) rest = fails 1
  checked_as_one R.crash rest = crash

  abbrev pub validated : T.Check (Unit {0}) → Outcome A → Outcome A
  validated (T.pass u) rest = rest
  validated T.reject rest = fails 1
  validated T.crash rest = crash

  -- The tests that every command makes of its response, in front of the use of the sections.
  unfoldable pub command_response :
      ℕ → ℕ → ℕ → ℕ → Option Fsmsg → (List MsgSection → Outcome A) → Outcome A
  unfolding fap_check_response fap_validate_sections
  command_response tid sid cid fsid msg use_sections =
      checked (fap_check_response msg tid sid cid fsid (fap_type command))
        (maybe msg crash (λ m. validated (fap_validate_sections m) (use_sections m.sections)))

-- What fap_list returns, an int32_t, and what it stores in `*files`.
pub record Files : Type 0 where
  pub count : ℕ
  pub files : List FileinfoSect

-- `for(int i=0;i<count;i++)` with fsmsg_fileinfo_copy, which copies all that a section has.
unfoldable pub copy_files : ℕ → List MsgSection → Option (List FileinfoSect)
copy_files zero ss = some []
copy_files (suc n) (fileinfo f ∷ ss) = maybe (copy_files n ss) none (λ fs. some (f ∷ fs))
copy_files (suc n) ss = none

unfoldable pub list_result : List MsgSection → Outcome Files
unfolding copy_files
list_result ss = maybe (seci ss 1) crash (λ n.
    maybe (copy_files (rounds n) (drop 2 ss)) crash
      (λ fs. returns (record { count = n; files = fs })))

-- `if (SECI(msg, i) != FAP_OK) return -1; return 0;`
abbrev pub ok_at : ℕ → List MsgSection → Outcome (Unit {0})
ok_at i ss = maybe (seci ss i) crash (λ n. if n == fap_response fap_ok then returns tt else fails 1)

module _ (tid sid cid fsid : ℕ) where
  unfoldable pub fap_list : Option Fsmsg → Outcome Files
  unfolding command_response list_result
  fap_list msg = command_response tid sid cid fsid msg list_result

  -- Section 1 is tested, behind the one that holds the response.
  unfoldable pub fap_create : Option Fsmsg → Outcome (Unit {0})
  unfolding command_response
  fap_create msg = command_response tid sid cid fsid msg (ok_at 1)

  unfoldable pub fap_write_file : Option Fsmsg → Outcome (Unit {0})
  unfolding command_response
  fap_write_file msg = command_response tid sid cid fsid msg (ok_at 0)

  -- The number of bytes that recvfile is to take from the data connection.
  unfoldable pub fap_read_file : Option Fsmsg → Outcome ℕ
  unfolding command_response
  fap_read_file msg =
      command_response tid sid cid fsid msg (λ ss. maybe (seci ss 1) crash (λ n. returns n))

-- Every failure is -1, and section 0 is read without a validation.
unfoldable pub fap_client_wait_ok : ℕ → ℕ → ℕ → Option Fsmsg → Outcome (Unit {0})
unfolding fap_check_response
fap_client_wait_ok tid sid fsid msg =
    checked_as_one (fap_check_response msg tid sid 0 fsid (fap_type quit))
      (maybe msg crash (λ m. ok_at 0 m.sections))

-- What fap_open stores: `sid`, `*cid`, `fsid`, `*servername` and the port of the data connection.
pub record Session : Type 0 where
  pub sid : ℕ
  pub cid : ℕ
  pub fsid : ℕ
  pub servername : List ℕ
  pub dataport : ℕ

-- Behind a section error the new ids stay, and the server is sent an error with them.
pub data Opening : Type 0 where
  opened : Session → Opening
  refused_hello : Opening
  invalid : Fsmsg → Opening
  crash_open : Opening

-- SECSDUP of a string
abbrev pub text_of : MsgSection → Option (List ℕ)
text_of (string s) = some (strndup s)
text_of s = none

abbrev pub text_at : List MsgSection → ℕ → Option (List ℕ)
text_at ss i = get_elem? ss i >>= text_of

abbrev pub on_hello : Answer → Opening → Opening
on_hello accepted rest = rest
on_hello (refused v) rest = refused_hello
on_hello R.crash rest = crash_open

abbrev pub on_sections : T.Check (Unit {0}) → Opening → Opening → Opening
on_sections (T.pass u) bad rest = rest
on_sections T.reject bad rest = bad
on_sections T.crash bad rest = crash_open

unfoldable pub fap_open : ℕ → ℕ → Option Fsmsg → Opening
unfolding fap_check_response fap_validate_sections fap_send_error strndup
fap_open heap tid msg = on_hello (fap_check_response msg tid 0 0 0 (fap_type hello)) (
    maybe msg crash_open (λ m.
      let sid = get_or m.ids 0 0 in
      let cid = get_or m.ids 1 0 in
      let fsid = get_or m.ids 2 0 in
      on_sections (fap_validate_sections m)
        (invalid (fap_send_error heap sid fsid tid cid err_msg []))
        (maybe (text_at m.sections 0) crash_open (λ servername.
          maybe (seci m.sections 1) crash_open (λ dataport. opened (record {
            sid = sid;
            cid = cid;
            fsid = fsid;
            servername = servername;
            dataport = dataport;
          }))))))
