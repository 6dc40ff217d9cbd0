-- ===== src/FileServer/Sessions.antt =====
-- A client and the file server: the functions of src/fap.c on both sides of the connection, and the
-- rounds of serve_client of src/fsservd.c.
use netpro_project.Prelude.{◌≢◌, ℕ, ◌≡◌, refl, List, [], ◌∷◌, some}
use netpro_project.Protomsg.{fileinfo, Fsmsg, fsmsg_add_section}
use netpro_project.Protomsg.Response.{expect_id-same}
use netpro_project.Fap.{fap_create_msg}
use netpro_project.Fap.Validate.{fap_validate_sections}
use netpro_project.Fap.Respond.{fap_check_response}
use netpro_project.Fap.Send.{
  fap_send_error, fap_send_ok, fap_open_request, fap_accept_response, fap_client_quit, command_msg,
  fap_list_request, fap_create_request, fap_write_request, fap_read_request,
}
use netpro_project.Fap.Client.{
  returns, fails, crash, fap_open, opened, fap_client_wait_ok, list_result, fap_list, fap_create,
  fap_write_file, command_response,
}
use netpro_project.Dcp.Send.{dcp_send_error}
use netpro_project.Directory.Handlers.{
  strndup, err_exists, already_exists, create_reply, listed, user,
}
use netpro_project.FileServer.{ClientInfo, answered, create_file}
use netpro_project.FileServer.Forwards.{
  arrived, received, not_empty-true, files_msg, create_file-exists, create_file-answers,
}
use netpro_project.FileServer.Commands.{
  runs, quits, create_job, read_job, write_job, list_job, accept_hello, fap_accept, serve_command,
  serve_client,
}

module _ (heap heap' sid fsid tid : ℕ) (info : ClientInfo) where
  -- The greeting of fap_open is accepted by fap_accept, which stores the host and the user up to a NUL and
  -- the transaction id; fap_open accepts the response and stores the ids of the file server, of the file
  -- system and of the client's entry, the name of the server's host up to a NUL, and the port.
  pub fap_open-fap_accept :
      (hostname login server_host : List ℕ) (dataport : ℕ)
      → (response : Fsmsg) × ((fap_accept heap' sid fsid server_host dataport
              (received (fap_open_request heap sid fsid tid hostname login))
              info
            ≡ returns (
              record info { lasttid = tid; host = strndup hostname; user = strndup login },
              response,
            ))
          × (fap_open heap tid (received response)
              ≡ opened (record {
                sid = sid;
                cid = info.id;
                fsid = fsid;
                servername = strndup server_host;
                dataport = dataport;
              })))
  unfolding fap_accept accept_hello fap_open fap_open_request fap_accept_response fap_check_response
      fap_validate_sections fap_create_msg fsmsg_add_section
  fap_open-fap_accept hostname login server_host dataport = (_, (refl, simp expect_id-same))

  -- The requests of fap_create, fap_read_file and fap_write_file reach create_file, serve_file and
  -- write_file with the name of the file, up to a NUL, and the length, and that of fap_list reaches
  -- list_directory with the whole path; the transaction id is stored.
  pub serve_client-commands :
      (cid : ℕ) (name : List ℕ) (datalen : ℕ)
      → (serve_client heap' sid fsid (received (fap_create_request heap sid fsid tid cid name)) info
          ≡ runs (record info { lasttid = tid }) (create_job (strndup name)))
        × ((serve_client heap' sid fsid
                (received (fap_read_request heap sid fsid tid cid name))
                info
              ≡ runs (record info { lasttid = tid }) (read_job (strndup name)))
            × ((serve_client heap' sid fsid
                    (received (fap_write_request heap sid fsid tid cid name datalen))
                    info
                  ≡ runs (record info { lasttid = tid }) (write_job (strndup name) datalen))
                × (serve_client heap' sid fsid
                      (received (fap_list_request heap sid fsid tid cid name))
                      info
                    ≡ runs (record info { lasttid = tid }) (list_job 1 name))))
  unfolding serve_client serve_command command_msg fap_create_request fap_read_request
      fap_write_request fap_list_request fap_validate_sections fap_create_msg fsmsg_add_section
  serve_client-commands cid name datalen = (refl, (refl, (refl, refl)))

  -- A client that quits is answered an ok, which fap_client_wait_ok accepts, and its entry is free.
  pub serve_client-quit :
      (cid : ℕ)
      → (ok : Fsmsg) × ((serve_client heap' sid fsid
              (some (arrived (fap_client_quit heap sid fsid tid cid)))
              info
            ≡ quits (record info { id = 0; lasttid = tid }) ok)
          × (fap_client_wait_ok tid sid fsid (received ok) ≡ returns tt))
  unfolding serve_client fap_client_quit fap_client_wait_ok fap_check_response fap_send_ok
      fap_validate_sections fap_create_msg fsmsg_add_section
  serve_client-quit cid = (_, (refl, simp expect_id-same))

module _ (heap sid fsid : ℕ) (info : ClientInfo) where
  -- An FAP_OK with the right ids is the success that fap_write_file expects; fap_create and fap_list, which
  -- read section 1, follow the NULL at the end of its section array.
  pub fap_send_ok-responses :
      (fap_write_file info.lasttid sid info.id fsid
          (received (fap_send_ok heap sid fsid info.lasttid info.id))
        ≡ returns tt)
      × ((fap_create info.lasttid sid info.id fsid
              (received (fap_send_ok heap sid fsid info.lasttid info.id))
            ≡ crash)
          × (fap_list info.lasttid sid info.id fsid
                (received (fap_send_ok heap sid fsid info.lasttid info.id))
              ≡ crash))
  unfolding fap_write_file fap_create fap_list list_result command_response fap_check_response
      fap_validate_sections fap_send_ok fap_create_msg fsmsg_add_section
  fap_send_ok-responses = (simp expect_id-same, (simp expect_id-same, simp expect_id-same))

  -- What the directory server answers to a new path whose last name is not empty makes create_file answer so
  -- that fap_create returns 0, and what it answers to a path that exists makes fap_create return -6.
  pub fap_create-create_file :
      (heap' i tid : ℕ) (address name : List ℕ)
      → name ≢ []
      → (made : Fsmsg) × (exists : Fsmsg) × ((create_file heap sid fsid info tid (
              received (
                create_reply heap' fsid i
                  (record { id = sid; lasttid = tid; address = address })
                  name))
            ≡ answered made)
          × ((fap_create info.lasttid sid info.id fsid (received made) ≡ returns tt)
              × ((create_file heap sid fsid info tid
                      (received (dcp_send_error heap' fsid tid sid err_exists already_exists))
                    ≡ answered exists)
                  × (fap_create info.lasttid sid info.id fsid (received exists) ≡ fails 6))))
  unfolding fap_create command_response fap_check_response fap_validate_sections fap_send_error
      fap_create_msg fsmsg_add_section
  fap_create-create_file heap' i tid address name named = (
    files_msg heap sid fsid info 1 (fileinfo (listed name user) ∷ []),
    fap_send_error heap sid fsid info.lasttid info.id err_exists already_exists,
    (
      (create_file-answers heap sid fsid info heap' i tid address name named).0,
      (
        rw (not_empty-true name named) (simp expect_id-same),
        (create_file-exists heap sid fsid info heap' tid, simp expect_id-same),
      ),
    ),
  )
