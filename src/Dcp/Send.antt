-- ===== src/Dcp/Send.antt =====
-- The messages that dcp_send_error, dcp_send_fileinfo and dcp_send_replica_list of src/dcp.c hand to
-- fsmsg_send, and those of dcp_open and dcp_accept. `heap` is what malloc left in the transaction id.
use netpro_project.Prelude.{ℕ, ◌≡◌, refl, List}
use netpro_project.Protomsg.{
  integer, string, fileinfo, nonext, FileinfoSect, Fsmsg, fsmsg_add_section,
}
use netpro_project.Protomsg.Testst.{pass, reject}
use netpro_project.Dcp.{
  hello, hello_response, error, fileinfo as fileinfo_reply, replica_status, dcp_create_msg,
}
use netpro_project.Dcp.Validate.{dcp_validate_sections}

-- struct fileserv_info, without the socket, the thread and what the directory server only stores
pub record FileservInfo : Type 0 where
  pub id : ℕ
  pub lasttid : ℕ
  pub address : List ℕ

module _ (heap fsid : ℕ) where
  unfoldable pub dcp_send_error : ℕ → ℕ → ℕ → List ℕ → Fsmsg
  unfolding dcp_create_msg fsmsg_add_section
  dcp_send_error tid sid errorn errstr =
      let msg = dcp_create_msg heap tid sid fsid error in
      let m1 = fsmsg_add_section msg (integer errorn) in
      let m2 = fsmsg_add_section m1 (string errstr) in fsmsg_add_section m2 nonext

  unfoldable pub dcp_send_fileinfo : FileservInfo → FileinfoSect → Fsmsg
  unfolding dcp_create_msg fsmsg_add_section
  dcp_send_fileinfo srv file =
      let msg = dcp_create_msg heap srv.lasttid srv.id fsid fileinfo_reply in
      let m1 = fsmsg_add_section msg (integer 1) in
      let m2 = fsmsg_add_section m1 (fileinfo file) in fsmsg_add_section m2 nonext

  unfoldable pub dcp_send_replica_list : FileservInfo → List ℕ → Fsmsg
  unfolding dcp_create_msg fsmsg_add_section
  dcp_send_replica_list srv address =
      let msg = dcp_create_msg heap srv.lasttid srv.id fsid replica_status in
      let m1 = fsmsg_add_section msg (integer 1) in
      let m2 = fsmsg_add_section m1 (string address) in fsmsg_add_section m2 nonext

  -- The request of dcp_open; the numbers are int32_t.
  unfoldable pub dcp_open_request : ℕ → List ℕ → ℕ → ℕ → ℕ → Fsmsg
  unfolding dcp_create_msg fsmsg_add_section
  dcp_open_request tid hostname capacity usage filecnt =
      let msg = dcp_create_msg heap tid 0 0 hello in
      let m1 = fsmsg_add_section msg (string hostname) in
      let m2 = fsmsg_add_section m1 (integer capacity) in
      let m3 = fsmsg_add_section m2 (integer usage) in
      let m4 = fsmsg_add_section m3 (integer filecnt) in fsmsg_add_section m4 nonext

  -- The response of dcp_accept.
  unfoldable pub dcp_accept_response : FileservInfo → Fsmsg → Fsmsg
  unfolding dcp_create_msg fsmsg_add_section
  dcp_accept_response info msg =
      let respmsg = dcp_create_msg heap msg.tid info.id fsid hello_response in
      let m1 = fsmsg_add_section respmsg (integer 1) in fsmsg_add_section m1 nonext

  -- The receiver of a dcp_send_error refuses its sections: dcp_validate_sections returns -1, whatever the
  -- error, its text and the ids.
  pub dcp_send_error-refused :
      (tid sid errorn : ℕ) (errstr : List ℕ)
      → dcp_validate_sections (dcp_send_error tid sid errorn errstr) ≡ reject
  unfolding dcp_send_error dcp_validate_sections
  dcp_send_error-refused tid sid errorn errstr = refl

  -- The receivers of the other messages accept the sections: those of dcp_open and its response, of a
  -- list of replicas, and of the information on one file.
  pub dcp_sent-accepted :
      (srv : FileservInfo) (file : FileinfoSect) (address hostname : List ℕ) (msg : Fsmsg)
      (tid capacity usage filecnt : ℕ)
      → (dcp_validate_sections (dcp_send_fileinfo srv file) ≡ pass tt)
        × ((dcp_validate_sections (dcp_send_replica_list srv address) ≡ pass tt)
            × ((dcp_validate_sections (dcp_open_request tid hostname capacity usage filecnt)
                  ≡ pass tt)
                × (dcp_validate_sections (dcp_accept_response srv msg) ≡ pass tt)))
  unfolding dcp_send_fileinfo dcp_send_replica_list dcp_open_request dcp_accept_response
      dcp_validate_sections
  dcp_sent-accepted srv file address hostname msg tid capacity usage filecnt =
      (refl, (refl, (refl, refl)))
