-- ===== src/Fap/Send.antt =====
-- The messages that the functions of src/fap.c hand to fsmsg_send: the requests of the client and the
-- responses of the file server. `heap` is what malloc left in the transaction id; `sid` and `fsid` are
-- the global variables of src/fap.c, `tid` what nexttid returned.
use netpro_project.Prelude.{ℕ, ◌≡◌, refl, List}
use netpro_project.Protomsg.{integer, string, nonext, Fsmsg, fsmsg_add_section}
use netpro_project.Protomsg.Testst.{pass}
use netpro_project.Fap.{
  hello, hello_response, quit, command, response, error, FapCommand, create, list, read, write,
  fap_command, fap_response, fap_ok, fap_create_msg,
}
use netpro_project.Fap.Validate.{fap_validate_sections}

module _ (heap sid fsid : ℕ) where
  unfoldable pub fap_send_error : ℕ → ℕ → ℕ → List ℕ → Fsmsg
  unfolding fap_create_msg fsmsg_add_section
  fap_send_error tid client_id errorn errstr =
      let msg = fap_create_msg heap tid sid client_id fsid error in
      let m1 = fsmsg_add_section msg (integer errorn) in
      let m2 = fsmsg_add_section m1 (string errstr) in fsmsg_add_section m2 nonext

  unfoldable pub fap_send_ok : ℕ → ℕ → Fsmsg
  unfolding fap_create_msg fsmsg_add_section
  fap_send_ok tid client_id =
      let msg = fap_create_msg heap tid sid client_id fsid response in
      let m1 = fsmsg_add_section msg (integer (fap_response fap_ok)) in fsmsg_add_section m1 nonext

  -- The request of fap_open, which knows no ids yet.
  unfoldable pub fap_open_request : ℕ → List ℕ → List ℕ → Fsmsg
  unfolding fap_create_msg fsmsg_add_section
  fap_open_request tid hostname login =
      let msg = fap_create_msg heap tid 0 0 0 hello in
      let m1 = fsmsg_add_section msg (string hostname) in
      let m2 = fsmsg_add_section m1 (string login) in fsmsg_add_section m2 nonext

  -- The response of fap_accept to the message `msg` of the client `id`.
  unfoldable pub fap_accept_response : Fsmsg → ℕ → List ℕ → ℕ → Fsmsg
  unfolding fap_create_msg fsmsg_add_section
  fap_accept_response msg id hostname dataport =
      let respmsg = fap_create_msg heap msg.tid sid id fsid hello_response in
      let m1 = fsmsg_add_section respmsg (string hostname) in
      let m2 = fsmsg_add_section m1 (integer dataport) in fsmsg_add_section m2 nonext

  unfoldable pub fap_client_quit : ℕ → ℕ → Fsmsg
  unfolding fap_create_msg fsmsg_add_section
  fap_client_quit tid cid =
      let msg = fap_create_msg heap tid sid cid fsid quit in fsmsg_add_section msg nonext

  -- The beginning of every command: the message and its first section.
  unfoldable pub command_msg : ℕ → ℕ → FapCommand → Fsmsg
  unfolding fap_create_msg fsmsg_add_section
  command_msg tid cid cmd =
      let msg = fap_create_msg heap tid sid cid fsid command in
      fsmsg_add_section msg (integer (fap_command cmd))

  unfoldable pub fap_list_request : ℕ → ℕ → List ℕ → Fsmsg
  unfolding command_msg fsmsg_add_section
  fap_list_request tid cid current_dir =
      let m1 = command_msg tid cid list in
      let m2 = fsmsg_add_section m1 (integer 1) in
      let m3 = fsmsg_add_section m2 (string current_dir) in fsmsg_add_section m3 nonext

  unfoldable pub fap_create_request : ℕ → ℕ → List ℕ → Fsmsg
  unfolding command_msg fsmsg_add_section
  fap_create_request tid cid filename =
      let m1 = command_msg tid cid create in
      let m2 = fsmsg_add_section m1 (string filename) in
      let m3 = fsmsg_add_section m2 (integer 1) in fsmsg_add_section m3 nonext

  unfoldable pub fap_write_request : ℕ → ℕ → List ℕ → ℕ → Fsmsg
  unfolding command_msg fsmsg_add_section
  fap_write_request tid cid filename datalen =
      let m1 = command_msg tid cid write in
      let m2 = fsmsg_add_section m1 (string filename) in
      let m3 = fsmsg_add_section m2 (integer datalen) in fsmsg_add_section m3 nonext

  -- The offset and the number of bytes, 0 for all.
  unfoldable pub fap_read_request : ℕ → ℕ → List ℕ → Fsmsg
  unfolding command_msg fsmsg_add_section
  fap_read_request tid cid filename =
      let m1 = command_msg tid cid read in
      let m2 = fsmsg_add_section m1 (string filename) in
      let m3 = fsmsg_add_section m2 (integer 0) in
      let m4 = fsmsg_add_section m3 (integer 0) in fsmsg_add_section m4 nonext

  -- The receiver accepts the sections of every one of these messages, whatever the ids, names, numbers
  -- and texts in them.
  pub fap_sent-accepted :
      (tid cid errorn n : ℕ) (text more : List ℕ) (msg : Fsmsg)
      → (fap_validate_sections (fap_open_request tid text more) ≡ pass tt)
        × ((fap_validate_sections (fap_accept_response msg cid text n) ≡ pass tt)
            × ((fap_validate_sections (fap_client_quit tid cid) ≡ pass tt)
                × ((fap_validate_sections (fap_list_request tid cid text) ≡ pass tt)
                    × ((fap_validate_sections (fap_create_request tid cid text) ≡ pass tt)
                        × ((fap_validate_sections (fap_write_request tid cid text n) ≡ pass tt)
                            × ((fap_validate_sections (fap_read_request tid cid text) ≡ pass tt)
                                × ((fap_validate_sections (fap_send_ok tid cid) ≡ pass tt)
                                    × (fap_validate_sections (fap_send_error tid cid errorn text)
                                        ≡ pass tt))))))))
  unfolding fap_open_request fap_accept_response fap_client_quit fap_list_request fap_create_request
      fap_write_request fap_read_request fap_send_ok fap_send_error fap_validate_sections
  fap_sent-accepted tid cid errorn n text more msg =
      (refl, (refl, (refl, (refl, (refl, (refl, (refl, (refl, refl))))))))
