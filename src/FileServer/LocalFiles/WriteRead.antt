-- ===== src/FileServer/LocalFiles/WriteRead.antt =====
-- A file that a client writes, and reads again from the same file server.
use netpro_project.Prelude.{
  ℕ, ◌≡◌, ◌≢◌, [], ◌<◌, ◌^◌, ◌%◌, refl, sym, ap, ◌∙◌, length, ltb, true, List, ◌++◌, Option, none,
  some, arith,
}
use netpro_project.Socket.{Socket, pending}
use netpro_project.Socket.Recvfile.{whole, recvfile}
use netpro_project.Socket.Recvfile.Blocks.{bytes_of, NeverFails, length-bytes_of}
use netpro_project.Socket.Recvfile.Whole.{recvfile-whole}
use netpro_project.Protomsg.{FileinfoSect, Fsmsg, fsmsg_add_section}
use netpro_project.Protomsg.Response.{expect_id-same}
use netpro_project.Dcp.{dcp_create_msg}
use netpro_project.Dcp.Validate.{dcp_validate_sections}
use netpro_project.Dcp.Respond.{dcp_check_response}
use netpro_project.Dcp.Send.{dcp_send_fileinfo}
use netpro_project.Fap.{fap_create_msg}
use netpro_project.Fap.Validate.{fap_validate_sections}
use netpro_project.Fap.Respond.{fap_check_response}
use netpro_project.Fap.Client.{returns, command_response, fap_write_file, fap_read_file}
use netpro_project.Fap.Send.{fap_send_ok}
use netpro_project.Fctp.{Disk, store}
use netpro_project.Fctp.Download.{store-same}
use netpro_project.FileServer.{ClientInfo}
use netpro_project.FileServer.Forwards.{received, not_empty-true}
use netpro_project.FileServer.Sessions.{fap_send_ok-responses}
use netpro_project.FileServer.LocalFiles.{
  wrote, write_local, write_file, served, dataout_msg, serve_content, serve_file,
}

module _ (heap sid fsid : ℕ) (info : ClientInfo) (dataloc : List ℕ) where
  -- The client reads the size from the message of serve_file.
  dataout-accepted :
      (size : ℕ)
      → fap_read_file info.lasttid sid info.id fsid
          (received (dataout_msg heap sid fsid info dataloc size))
        ≡ returns size
  unfolding fap_read_file command_response fap_check_response fap_validate_sections dataout_msg
      fap_create_msg fsmsg_add_section
  dataout-accepted size = simp expect_id-same

  write_file-fileinfo :
      (heap' tid : ℕ) (address path bytes : List ℕ) (len : ℕ) (file : FileinfoSect) (disk : Disk)
      (data_in rest : Socket)
      → file.path ≢ []
      → file.username ≢ []
      → len < 2 ^ 31
      → recvfile len data_in ≡ whole bytes rest
      → write_file heap sid fsid info dataloc tid
          (received (
            dcp_send_fileinfo heap' fsid
              (record { id = sid; lasttid = tid; address = address })
              file))
          path
          len
          disk
          data_in
        ≡ wrote
            (fap_send_ok heap sid fsid info.lasttid info.id)
            (store (dataloc ++ path) bytes disk)
            rest
  unfolding write_file write_local dcp_check_response dcp_validate_sections dcp_send_fileinfo
      dcp_create_msg fsmsg_add_section
  write_file-fileinfo heap' tid address path bytes len file disk data_in rest named known small
        transfer =
      let fits : ltb len (2 ^ 31) ≡ true = ground arith in
      rw (not_empty-true file.path named, not_empty-true file.username known)
        (simp (expect_id-same, transfer, fits))

  stored :
      (path bytes : List ℕ) (disk : Disk)
      → disk (dataloc ++ path) ≡ none
      → store (dataloc ++ path) bytes disk (dataloc ++ path) ≡ some bytes
  stored path bytes disk free = store-same (dataloc ++ path) bytes disk ∙ rw free refl

  -- A new file that a client writes is read back. If the data connection brings as many bytes as the
  -- client has announced, fewer than 2 ^ 31, and the directory server answers the update with a file
  -- information whose path and user name are not empty, then write_file stores the bytes and
  -- fap_write_file accepts its answer; afterwards serve_file sends a message of which fap_read_file takes
  -- the length, and the same bytes; and recvfile of the client gets all of them from any stream that brings
  -- just them and does not fail.
  pub write_file-serve_file :
      (heap' tid tid' len : ℕ) (address path : List ℕ) (file : FileinfoSect) (disk : Disk)
      (data_in data_out : Socket) (dirmsg : Option Fsmsg) (get : List ℕ → Option Fsmsg)
      → file.path ≢ []
      → file.username ≢ []
      → disk (dataloc ++ path) ≡ none
      → NeverFails data_in
      → pending data_in ≡ len
      → len < 2 ^ 31
      → NeverFails data_out
      → bytes_of data_out ≡ bytes_of data_in
      → (ok : Fsmsg) × (after : Disk) × (rest : Socket) × (answer : Fsmsg) × (rest' : Socket)
        × ((write_file heap sid fsid info dataloc tid
                (received (
                  dcp_send_fileinfo heap' fsid
                    (record { id = sid; lasttid = tid; address = address })
                    file))
                path
                len
                disk
                data_in
              ≡ wrote ok after rest)
            × ((fap_write_file info.lasttid sid info.id fsid (received ok) ≡ returns tt)
                × ((serve_file heap sid fsid info dataloc tid' dirmsg get path after
                      ≡ served answer (bytes_of data_in))
                    × ((fap_read_file info.lasttid sid info.id fsid (received answer) ≡ returns len)
                        × (recvfile len data_out ≡ whole (bytes_of data_in) rest')))))
  unfolding serve_file serve_content
  write_file-serve_file heap' tid tid' len address path file disk data_in data_out dirmsg get named
        known free goes_on size small goes_out same =
      let bytes = bytes_of data_in in
      let (rest, (transfer, _)) = recvfile-whole len data_in goes_on size (omega arith) in
      let measured : length bytes ≡ len = length-bytes_of data_in ∙ size in
      let out : pending data_out ≡ len =
        sym (length-bytes_of data_out) ∙ ap length same ∙ measured in
      let (rest', (transfer', _)) = recvfile-whole len data_out goes_out out (omega arith) in
      let cut : length bytes % 2 ^ 32 ≡ len = omega arith in
      (
        fap_send_ok heap sid fsid info.lasttid info.id,
        store (dataloc ++ path) bytes disk,
        rest,
        dataout_msg heap sid fsid info dataloc len,
        rest',
        (
          write_file-fileinfo heap' tid address path bytes len file disk data_in rest named known
              small transfer,
          (
            (fap_send_ok-responses heap sid fsid info).0,
            (
              rw (stored path bytes disk free, cut) refl,
              (dataout-accepted len, transfer' ∙ ap (λ bs. whole bs rest') same),
            ),
          ),
        ),
      )
