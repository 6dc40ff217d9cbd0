-- ===== src/FileServer.antt =====
-- The file server, src/fsservd.c: what list_directory, create_file and write_file send to the directory server, and
-- what the first two make of its response for the client.
pub mod Forwards
pub mod Wire
pub mod Requests
pub mod Commands
pub mod Rounds
pub mod Sessions
pub mod Listings
pub mod LocalFiles
use netpro_project.Prelude.{
  ℕ, zero, suc, ◌==◌, ◌&&◌, if◌then◌else◌, maybe, length, List, [], ◌∷◌, Option, none, some,
}
use netpro_project.Protomsg.{
  MsgSection, integer, string, binary, fileinfo, nonext, unknown, FileinfoSect, Fsmsg,
  fsmsg_add_section, rounds,
}
use netpro_project.Protomsg.Testst.{first_integer}
use netpro_project.Protomsg.Testst as T
use netpro_project.Protomsg.Response.{Answer, accepted, refused}
use netpro_project.Protomsg.Response as R
use netpro_project.Dcp.{read, create, update, dcp_type, dcp_create_msg}
use netpro_project.Dcp.Validate.{dcp_validate_sections}
use netpro_project.Dcp.Respond.{dcp_check_response}
use netpro_project.Fap.{response, fap_response, fap_fileinfo, fap_create_msg}
use netpro_project.Fap.Send.{fap_send_error}
use netpro_project.Directory.Handlers.{listed, err_exists, already_exists}

-- struct client_info, as far as the answers use it
pub record ClientInfo : Type 0 where
  pub id : ℕ
  pub lasttid : ℕ
  pub user : List ℕ
  pub host : List ℕ

-- How a request of a client ends: with a message to it, without one, or at a section that is missing
-- or of another type than the one that is read.
pub data Forward : Type 0 where
  answered : Fsmsg → Forward
  unanswered : Forward
  crash : Forward

-- The rest of a request behind dcp_check_response
abbrev pub on_answer : Answer → (ℕ → Forward) → Forward → Forward
on_answer accepted other rest = rest
on_answer (refused v) other rest = other v
on_answer R.crash other rest = crash

-- and behind dcp_validate_sections
abbrev pub on_check : T.Check (Unit {0}) → Forward → Forward
on_check (T.pass u) rest = rest
on_check T.reject rest = unanswered
on_check T.crash rest = crash

module _ (heap sid fsid : ℕ) (info : ClientInfo) where
  -- The ids stand in the other order than dcp_create_msg takes them.
  unfoldable pub list_request : ℕ → ℕ → List ℕ → Fsmsg
  unfolding dcp_create_msg fsmsg_add_section
  list_request tid recurse path =
      let dirmsg = dcp_create_msg heap tid fsid sid read in
      let m1 = fsmsg_add_section dirmsg (integer recurse) in
      let m2 = fsmsg_add_section m1 (string path) in fsmsg_add_section m2 nonext

  unfoldable pub create_request : ℕ → List ℕ → Fsmsg
  unfolding dcp_create_msg fsmsg_add_section
  create_request tid path =
      let dirmsg = dcp_create_msg heap tid fsid sid create in
      let m1 = fsmsg_add_section dirmsg (fileinfo (listed path info.user)) in
      fsmsg_add_section m1 nonext

  -- The request of write_file.
  unfoldable pub update_request : ℕ → List ℕ → Fsmsg
  unfolding dcp_create_msg fsmsg_add_section
  update_request tid path =
      let dirmsg = dcp_create_msg heap tid fsid sid update in
      let m1 = fsmsg_add_section dirmsg (fileinfo (listed path info.user)) in
      fsmsg_add_section m1 nonext

  -- `climsg` with FAP_FILEINFO and the count, which is section 0 of `dirmsg`
  unfoldable pub fileinfo_msg : ℕ → Fsmsg
  unfolding fap_create_msg fsmsg_add_section
  fileinfo_msg count =
      let climsg = fap_create_msg heap info.lasttid sid info.id fsid response in
      let m1 = fsmsg_add_section climsg (integer (fap_response fap_fileinfo)) in
      fsmsg_add_section m1 (integer count)

  -- `for (int i=0;i<SECI(dirmsg, 0);i++)`: the rounds left, then the sections from `i + 1` on
  unfoldable pub copy_files : ℕ → List MsgSection → Fsmsg → Forward
  unfolding fsmsg_add_section
  copy_files zero ss climsg = answered (fsmsg_add_section climsg nonext)
  copy_files (suc n) (fileinfo f ∷ ss) climsg =
      copy_files n ss (fsmsg_add_section climsg (fileinfo f))
  copy_files (suc n) (s ∷ ss) climsg = crash
  copy_files (suc n) [] climsg = crash

  unfoldable pub list_answer : List MsgSection → Forward
  unfolding fileinfo_msg copy_files
  list_answer (integer n ∷ ss) = copy_files (rounds n) ss (fileinfo_msg n)
  list_answer (s ∷ ss) = crash
  list_answer [] = crash

  -- The sections that create_file reads; another count than 1 is only reported.
  unfoldable pub create_answer : List MsgSection → Forward
  unfolding fileinfo_msg fsmsg_add_section
  create_answer (integer n ∷ fileinfo f ∷ ss) =
      let m1 = fsmsg_add_section (fileinfo_msg n) (fileinfo f) in
      answered (fsmsg_add_section m1 nonext)
  create_answer ss = crash

  -- What create_file does with a response that dcp_check_response refuses with `- v`.
  unfoldable pub create_refused : ℕ → Option Fsmsg → Forward
  unfolding fap_send_error
  create_refused v none = unanswered
  create_refused v (some dirmsg) =
      let exists =
        answered (fap_send_error heap sid fsid info.lasttid info.id err_exists already_exists) in
      if v == 5
      then maybe (first_integer dirmsg.sections) crash
          (λ n. if n == err_exists then exists else unanswered)
      else unanswered

  -- `dirmsg` is what fsmsg_from_socket has returned after the request with the id `tid`.
  unfoldable pub list_directory : ℕ → Option Fsmsg → Forward
  unfolding dcp_check_response dcp_validate_sections list_answer
  list_directory tid dirmsg =
      on_answer (dcp_check_response dirmsg tid sid fsid (dcp_type read)) (λ v. unanswered)
        (maybe dirmsg unanswered (λ m. on_check (dcp_validate_sections m) (list_answer m.sections)))

  -- The local file is taken to be opened; if it cannot be, the process exits.
  unfoldable pub create_file : ℕ → Option Fsmsg → Forward
  unfolding dcp_check_response dcp_validate_sections create_answer create_refused
  create_file tid dirmsg =
      on_answer (dcp_check_response dirmsg tid sid fsid (dcp_type create))
        (λ v. create_refused v dirmsg)
        (maybe dirmsg unanswered
          (λ m. on_check (dcp_validate_sections m) (create_answer m.sections)))
