-- ===== src/FileServer/LocalFiles/Missing.antt =====
-- A file that the file server does not have.
use netpro_project.Prelude.{ℕ, ◌≡◌, refl, List, [], ◌++◌, Option, false, none}
use netpro_project.Protomsg.{Fsmsg, fsmsg_add_section}
use netpro_project.Protomsg.Response.{expect_id-same}
use netpro_project.Dcp.{dcp_create_msg}
use netpro_project.Dcp.Validate.{dcp_validate_sections}
use netpro_project.Dcp.Respond.{dcp_check_response}
use netpro_project.Dcp.Send.{FileservInfo, dcp_send_error}
use netpro_project.Directory.Tree.{dir_find_node, target}
use netpro_project.Directory.Handlers.{
  Server, sent, strndup, err_filenotfound, not_found, address_of, replica_status,
}
use netpro_project.Directory.Serve.{ended, secsdup, dispatch, answer, serve_round}
use netpro_project.Fctp.{Disk}
use netpro_project.FileServer.{ClientInfo}
use netpro_project.FileServer.Forwards.{received}
use netpro_project.FileServer.Requests.{noted, noting}
use netpro_project.FileServer.LocalFiles.{
  exits_unopened, ask_request, ask_file, serve_asked, serve_file,
}

module _ (heap heap' sid fsid tid : ℕ) (info : ClientInfo) (dataloc : List ℕ) where
  asked_nothing :
      (get : List ℕ → Option Fsmsg) (path : List ℕ) (disk : Disk)
      → disk (dataloc ++ path) ≡ none
      → serve_file heap sid fsid info dataloc tid
          (received (dcp_send_error heap' fsid tid sid err_filenotfound not_found))
          get
          path
          disk
        ≡ exits_unopened
  unfolding serve_file serve_asked ask_file dcp_check_response dcp_send_error dcp_create_msg
      fsmsg_add_section
  asked_nothing get path disk gone = simp (expect_id-same, gone)

  -- serve_file of a file that is not on the local disk ends the process, whichever file server has the file,
  -- as long as the root of the directory belongs to no file server and the mutex is free: the request of
  -- ask_file makes the directory server call replica_status with the empty path, which answers
  -- ERR_FILENOTFOUND, "file doesn't exist", and frees the mutex; at that answer serve_file ends the process.
  pub serve_file-not_local :
      (word : ℕ → ℕ) (i : ℕ) (srv : FileservInfo) (s : Server) (get : List ℕ → Option Fsmsg)
      (path : List ℕ) (disk : Disk)
      → srv.id ≡ sid
      → s.dirlock ≡ false
      → s.dirroot.label.fileserv ≡ none
      → disk (dataloc ++ path) ≡ none
      → (serve_round word heap' fsid i (received (ask_request heap sid fsid info dataloc tid)) srv s
          ≡ ended (replica_status heap' fsid i (noted srv tid) [] (noting i srv tid s)))
        × ((replica_status heap' fsid i (noted srv tid) [] (noting i srv tid s)
              ≡ sent
                  (noting i srv tid s)
                  (dcp_send_error heap' fsid tid sid err_filenotfound not_found))
            × (serve_file heap sid fsid info dataloc tid
                  (received (dcp_send_error heap' fsid tid sid err_filenotfound not_found))
                  get
                  path
                  disk
                ≡ exits_unopened))
  unfolding serve_round answer dispatch secsdup strndup ask_request replica_status dir_find_node
      address_of target dcp_validate_sections dcp_create_msg fsmsg_add_section
  serve_file-not_local word i srv s get path disk same free rootless gone =
      (refl, (rw (same, free, rootless) refl, asked_nothing get path disk gone))
