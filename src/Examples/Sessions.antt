-- ===== src/Examples/Sessions.antt =====
-- A client at a file server: src/fap.c and src/fsservd.c at concrete messages.
use netpro_project.Prelude.{ℕ, ◌≡◌, refl, List, [], ◌∷◌, arith}
use netpro_project.Protomsg.{Fsmsg}
use netpro_project.Dcp.Send.{dcp_send_error}
use netpro_project.Fap.Send.{fap_send_ok, fap_open_request}
use netpro_project.Fap.Client.{
  returns, fails, crash, fap_list, fap_create, fap_write_file, fap_open, opened,
}
use netpro_project.Directory.Path.{path_of, same_name}
use netpro_project.Directory.Tree.{node, null, dir_find_node, target}
use netpro_project.Directory.Handlers.{
  sent, strndup, read_dir, err_exists, already_exists, create_reply,
}
use netpro_project.FileServer.{ClientInfo, answered, list_directory, create_file}
use netpro_project.FileServer.Forwards.{received}
use netpro_project.FileServer.Commands.{fap_accept}
use netpro_project.FileServer.Sessions.{
  fap_open-fap_accept, fap_send_ok-responses, fap_create-create_file,
}
use netpro_project.FileServer.Listings.{file_of, names_of, fap_list-read_dir}
use netpro_project.Examples.DirectoryServer.{a, b, owned, server}

abbrev pub client : ClientInfo
client = record { id = 2; lasttid = 7; user = b'u' ∷ []; host = b'h' ∷ [] }

-- "/f"
abbrev pub file_path : List ℕ
file_path = b'/' ∷ b'f' ∷ []

fap_open-fap_accept_example :
    (response : Fsmsg) × ((fap_accept 0 1 9
          (b's' ∷ [])
          5000
          (received (fap_open_request 0 1 9 33 (b'h' ∷ []) (b'u' ∷ [])))
          client
        ≡ returns (
          record client { lasttid = 33; host = strndup (b'h' ∷ []); user = strndup (b'u' ∷ []) },
          response,
        ))
      × (fap_open 0 33 (received response)
          ≡ opened (record {
            sid = 1;
            cid = 2;
            fsid = 9;
            servername = strndup (b's' ∷ []);
            dataport = 5000;
          })))
fap_open-fap_accept_example =
    fap_open-fap_accept 0 0 1 9 33 client (b'h' ∷ []) (b'u' ∷ []) (b's' ∷ []) 5000

fap_send_ok-responses_example :
    (fap_write_file 7 1 2 9 (received (fap_send_ok 0 1 9 7 2)) ≡ returns tt)
    × ((fap_create 7 1 2 9 (received (fap_send_ok 0 1 9 7 2)) ≡ crash)
        × (fap_list 7 1 2 9 (received (fap_send_ok 0 1 9 7 2)) ≡ crash))
fap_send_ok-responses_example = fap_send_ok-responses 0 1 9 client

fap_create-create_file_example :
    (made : Fsmsg) × (exists : Fsmsg) × ((create_file 0 1 9 client 4
          (received (create_reply 0 9 0 (record { id = 1; lasttid = 4; address = [] }) (b'f' ∷ [])))
        ≡ answered made)
      × ((fap_create 7 1 2 9 (received made) ≡ returns tt)
          × ((create_file 0 1 9 client 4
                  (received (dcp_send_error 0 9 4 1 err_exists already_exists))
                ≡ answered exists)
              × (fap_create 7 1 2 9 (received exists) ≡ fails 6))))
fap_create-create_file_example = fap_create-create_file 0 1 9 client 0 0 4 [] (b'f' ∷ []) (λ h. cc)

fap_list-read_dir_example :
    (dirmsg : Fsmsg) × (msg : Fsmsg) × ((read_dir 0 9 0
          (record { id = 1; lasttid = 4; address = [] })
          1
          (path_of (a ∷ []))
          server
        ≡ sent server dirmsg)
      × ((list_directory 0 1 9 client 4 (received dirmsg) ≡ answered msg)
          × (fap_list 7 1 2 9 (received msg)
              ≡ returns (record { count = 1; files = file_of b ∷ [] }))))
unfolding dir_find_node same_name target names_of
fap_list-read_dir_example =
    fap_list-read_dir 0 0 1 9 0 4 [] (path_of (a ∷ [])) (0 ∷ []) client server
      (record { label = owned a; children = node (owned b) null null }) refl refl refl (omega arith)
      ((λ h. cc), tt)
