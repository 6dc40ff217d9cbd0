-- ===== src/FileServer/Requests.antt =====
-- The requests of the file server as the directory server serves them.
use netpro_project.Prelude.{ℕ, ◌≡◌, ◌≢◌, refl, leb, le→leb, true, length, arith, List, [], set}
use netpro_project.Protomsg.{FileinfoSect, fsmsg_add_section}
use netpro_project.Dcp.{dcp_create_msg}
use netpro_project.Dcp.Validate.{dcp_validate_sections}
use netpro_project.Dcp.Send.{FileservInfo, dcp_send_fileinfo}
use netpro_project.Directory.Tree.{dir_find_node, target, edit}
use netpro_project.Directory.Handlers.{
  Server, sent, unlock, strndup, set_fileserv, fileinfo_from_node, read_dir, create_file,
  update_file,
}
use netpro_project.Directory.Serve.{ended, secsdup, dispatch, answer, serve_round}
use netpro_project.FileServer.{ClientInfo, list_request, create_request, update_request}
use netpro_project.FileServer.Forwards.{received, not_empty-true}

-- The state in which the request runs, and the entry of the file server in it.
abbrev pub noted : FileservInfo → ℕ → FileservInfo
noted srv tid = record srv { lasttid = tid }

abbrev pub noting : ℕ → FileservInfo → ℕ → Server → Server
noting i srv tid s = record s { fileservers = set s.fileservers i (noted srv tid) }

-- The file information that a request carries: a path and a user name, and nothing else is set.
abbrev pub unwritten : List ℕ → List ℕ → FileinfoSect
unwritten path username = record {
  type = 0;
  path = path;
  username = username;
  modified = 0;
  size = 0;
  replicas = 0;
}

module _ (word : ℕ → ℕ) (heap fsid i : ℕ) (srv : FileservInfo) (s : Server) where
  module _ (heap' sid fsid' tid : ℕ) (info : ClientInfo) (path : List ℕ) where
    -- The requests of list_directory and of create_file for a path and a user name that are not empty reach
    -- read_dir and create_file of the directory server under the transaction of the request: the first with
    -- the path that the client gave, up to a NUL, the second with the path and the user name, and zeros for
    -- the rest of the file information.
    pub serve_round-requests :
        (recurse : ℕ)
        → path ≢ []
        → info.user ≢ []
        → (serve_round word heap fsid i
              (received (list_request heap' sid fsid' info tid recurse path))
              srv
              s
            ≡ ended
                (read_dir heap fsid i (noted srv tid) recurse (strndup path) (noting i srv tid s)))
          × (serve_round word heap fsid i
                (received (create_request heap' sid fsid' info tid path))
                srv
                s
              ≡ ended (
                  create_file heap fsid i
                    (noted srv tid)
                    (unwritten path info.user)
                    (noting i srv tid s)))
    unfolding serve_round answer dispatch secsdup list_request create_request dcp_create_msg
        fsmsg_add_section dcp_validate_sections
    serve_round-requests recurse named known =
        (refl, rw (not_empty-true path named, not_empty-true info.user known) refl)

    -- The request of write_file reaches update_file without its path, if the three bytes behind the file
    -- type byte are zeros: whatever the file is, if its path and the user name are not empty, the root of the
    -- directory gets the file server, and its information is sent.
    pub serve_round-update_request :
        path ≢ []
        → info.user ≢ []
        → word 0 ≡ 0
        → serve_round word heap fsid i
            (received (update_request heap' sid fsid' info tid path))
            srv
            s
          ≡ ended (
              sent
                (unlock (record (noting i srv tid s) { dirroot = set_fileserv i s.dirroot }))
                (dcp_send_fileinfo heap fsid (noted srv tid) (fileinfo_from_node s.dirroot.label)))
    unfolding serve_round answer dispatch secsdup update_request dcp_create_msg fsmsg_add_section
        dcp_validate_sections update_file strndup dir_find_node target edit
    serve_round-update_request named known zeros =
        let e : leb 0 (length path) ≡ true = le→leb 0 (length path) (omega arith) in
        rw (not_empty-true path named, not_empty-true info.user known, zeros, e) refl
