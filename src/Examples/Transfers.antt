-- ===== src/Examples/Transfers.antt =====
-- Files on their way: src/netutil.c, src/fctp.c and src/fsservd.c at concrete streams and disks.
use netpro_project.Prelude.{ℕ, ◌≡◌, ◌≢◌, ◌++◌, refl, List, [], ◌∷◌, false, none, some, arith}
use netpro_project.Socket.{Socket, segment, interrupted, pending}
use netpro_project.Socket.Recvfile.{whole, endless, recvfile}
use netpro_project.Socket.Recvfile.Whole.{recvfile-whole, recvfile-endless}
use netpro_project.Protomsg.{string, Fsmsg}
use netpro_project.Protomsg.Bytes.{little}
use netpro_project.Protomsg.Memory.{Allocated, create_blocks, add_all}
use netpro_project.Dcp.Send.{FileservInfo, dcp_send_fileinfo, dcp_send_error}
use netpro_project.Fap.Client.{returns, fap_write_file, fap_read_file}
use netpro_project.Fctp.{
  Disk, fctp_request, fctp_server, Pointer, request, response, sends, blocks_of, run_frees,
  fctp_get_file, fetched, not_fetched,
}
use netpro_project.Fctp.Download.{Carries, fctp_get_file-fctp_server, fctp_server-missing}
use netpro_project.Directory.Tree.{dir_init}
use netpro_project.Directory.Handlers.{
  Server, sent, listed, user, err_filenotfound, not_found, replica_status,
}
use netpro_project.Directory.Serve.{ended, serve_round}
use netpro_project.FileServer.Forwards.{received}
use netpro_project.FileServer.Requests.{noted, noting}
use netpro_project.FileServer.LocalFiles.{
  wrote, write_file, served, serve_file, exits_unopened, ask_request,
}
use netpro_project.FileServer.LocalFiles.WriteRead.{write_file-serve_file}
use netpro_project.FileServer.LocalFiles.Missing.{serve_file-not_local}
use netpro_project.Examples.Sessions.{client, file_path}
use netpro_project.Examples.Memory.{nothing}

-- Three bytes in two segments, with an interrupted call between them.
abbrev stream : Socket
stream = segment b'x' (b'y' ∷ []) ∷ interrupted ∷ segment b'z' [] ∷ []

abbrev one_segment : Socket
one_segment = segment b'x' (b'y' ∷ b'z' ∷ []) ∷ []

abbrev text : List ℕ
text = b'x' ∷ b'y' ∷ b'z' ∷ []

-- Two bytes are wanted, three come in one segment: what is left misses 0, and the transfer does not end.
over_run : recvfile 2 one_segment ≡ endless text
unfolding recvfile pending
over_run = refl

recvfile-whole_example :
    (rest : Socket) × ((recvfile 3 stream ≡ whole text rest) × (pending rest ≡ 0))
unfolding pending
recvfile-whole_example = recvfile-whole 3 stream tt refl (omega arith)

recvfile-endless_example : recvfile 5 stream ≡ endless text
unfolding pending
recvfile-endless_example = recvfile-endless 5 stream tt (omega arith) (omega arith)

abbrev empty_disk : Disk
empty_disk path = none

-- "/d"
abbrev dataloc : List ℕ
dataloc = b'/' ∷ b'd' ∷ []

abbrev full_disk : Disk
full_disk path = some text

write_file-serve_file_example :
    (ok : Fsmsg) × (after : Disk) × (rest : Socket) × (answer : Fsmsg) × (rest' : Socket)
    × ((write_file 0 1 9 client dataloc 4
            (received (
              dcp_send_fileinfo 0 9
                (record { id = 1; lasttid = 4; address = [] })
                (listed (b'f' ∷ []) user)))
            file_path
            3
            empty_disk
            stream
          ≡ wrote ok after rest)
        × ((fap_write_file 7 1 2 9 (received ok) ≡ returns tt)
            × ((serve_file 0 1 9 client dataloc 5 none (λ host. none) file_path after
                  ≡ served answer text)
                × ((fap_read_file 7 1 2 9 (received answer) ≡ returns 3)
                    × (recvfile 3 one_segment ≡ whole text rest')))))
unfolding pending
write_file-serve_file_example =
    write_file-serve_file 0 1 9 client dataloc 0 4 5 3 [] file_path (listed (b'f' ∷ []) user)
      empty_disk stream one_segment none (λ host. none) (λ h. cc) (λ h. cc) refl tt refl
      (omega arith) tt refl

abbrev connection : FileservInfo
connection = record { id = 1; lasttid = 0; address = [] }

abbrev no_files : Server
no_files = record { dirroot = dir_init; dirlock = false; fileservers = connection ∷ [] }

serve_file-not_local_example :
    (serve_round (λ n. n) 0 9 0 (received (ask_request 0 1 9 client dataloc 4)) connection no_files
      ≡ ended (replica_status 0 9 0 (noted connection 4) [] (noting 0 connection 4 no_files)))
    × ((replica_status 0 9 0 (noted connection 4) [] (noting 0 connection 4 no_files)
          ≡ sent
              (noting 0 connection 4 no_files)
              (dcp_send_error 0 9 4 1 err_filenotfound not_found))
        × (serve_file 0 1 9 client dataloc 4
              (received (dcp_send_error 0 9 4 1 err_filenotfound not_found))
              (λ host. none)
              file_path
              empty_disk
            ≡ exits_unopened))
unfolding dir_init
serve_file-not_local_example =
    serve_file-not_local 0 0 1 9 4 client dataloc (λ n. n) 0 connection no_files (λ host. none)
      file_path empty_disk refl refl refl refl

fctp_get_file-fctp_server_example :
    (m : Fsmsg) × (msg : Fsmsg) × (m' : Fsmsg) × (after : Disk) × (Carries little
        (b'x' ∷ [])
        stream
        (fctp_request 0 1 9 4 file_path)
        m
      × ((fctp_server 0 2 9 (λ n. n) dataloc full_disk (some m)
            ≡ sends msg (request ∷ response ∷ []))
          × (Carries little (b'x' ∷ []) stream msg m'
              × ((fctp_get_file dataloc file_path (some m') empty_disk ≡ fetched after)
                  × ((after (dataloc ++ file_path) ≡ some text)
                      × ((q : List ℕ) → q ≢ dataloc ++ file_path → after q ≡ empty_disk q))))))
fctp_get_file-fctp_server_example =
    fctp_get_file-fctp_server 0 0 1 2 9 4 (λ n. n) dataloc dataloc file_path full_disk empty_disk
      little (b'x' ∷ []) stream text (omega arith) (omega arith) (omega arith) (omega arith)
      (omega arith) (omega arith) (omega arith) refl refl

fctp_server-missing_example :
    (msg : Fsmsg) × (frees : List Pointer) × (a : Allocated) × ((fctp_server 0 2 9
          (λ n. n)
          dataloc
          empty_disk
          (received (fctp_request 0 1 9 4 file_path))
        ≡ sends msg frees)
      × ((fctp_get_file dataloc file_path (received msg) full_disk ≡ not_fetched)
          × ((add_all
                  (string file_path ∷ [])
                  (create_blocks nothing).blocks
                  (create_blocks nothing).heap
                ≡ some a)
              × (run_frees (blocks_of a.blocks none) frees a.heap ≡ none))))
fctp_server-missing_example =
    fctp_server-missing 0 0 1 2 9 4 (λ n. n) dataloc dataloc file_path empty_disk full_disk nothing
      (string file_path ∷ []) none (λ q above. refl) (omega arith) refl
