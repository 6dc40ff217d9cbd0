-- ===== src/Examples/FileServer.antt =====
-- src/fsservd.c and the tables of connections at concrete states.
use netpro_project.Prelude.{
  ℕ, zero, suc, false, ◌≡◌, ◌≢◌, refl, inr, [], ◌∷◌, All, replicate, none, some, arith,
}
use netpro_project.Protomsg.{integer, fileinfo, nonext, Fsmsg, FileinfoSect}
use netpro_project.Protomsg.Testst.{pass}
use netpro_project.Protomsg.Response.{accepted}
use netpro_project.Dcp.Send.{FileservInfo, dcp_send_fileinfo}
use netpro_project.Dcp.Handshake.{dcp_accept}
use netpro_project.Dcp.Respond.{dcp_check_response}
use netpro_project.Dcp.Validate.{dcp_validate_sections}
use netpro_project.Directory.Tree.{dir_init}
use netpro_project.Directory.Serve.{ended, serve_round}
use netpro_project.FileServer.Requests.{
  unwritten, noted, noting, serve_round-requests, serve_round-update_request,
}
use netpro_project.Directory.Handlers.{
  Server, sent, unlock, strndup, set_fileserv, fileinfo_from_node, read_dir,
  create_file as directory_create_file, listed, user,
}
use netpro_project.FileServer.{ClientInfo, list_request, create_request, update_request}
use netpro_project.FileServer.Forwards.{received}
use netpro_project.Registry.{Fileservers, accept_fsrv, Clients, max_clients}
use netpro_project.FileServer.Rounds.{Visit, turned_away as gone, fap_round, do_fap_server}
use netpro_project.FileServer.Rounds.WornOut.{HasFree, short_visit, do_fap_server-worn_out}
use netpro_project.Registry.Rounds.{Connection, turned_away, dcp_round, do_dcp_server}
use netpro_project.Registry.Rounds.Slots.{do_dcp_server-full}
use netpro_project.Registry.Entries.{IsRegistry, accept_fsrv-IsRegistry}

abbrev info : ClientInfo
info = record { id = 2; lasttid = 7; user = b'u' ∷ []; host = [] }

abbrev file : FileinfoSect
file = listed (b'f' ∷ []) user

-- A list of one file, as fsmsg_from_socket returns it.
abbrev listing : Fsmsg
listing = record {
  tid = 4;
  ids = 1 ∷ 9 ∷ [];
  msg_type = 15;
  sections = integer 1 ∷ fileinfo file ∷ nonext ∷ [];
}

listing_checked : dcp_check_response (some listing) 4 1 9 5 ≡ accepted
unfolding dcp_check_response
listing_checked = refl

listing_valid : dcp_validate_sections listing ≡ pass tt
unfolding dcp_validate_sections
listing_valid = refl

-- A directory without files, and the file server with the id 1 as its only entry.
abbrev connection : FileservInfo
connection = record { id = 1; lasttid = 0; address = [] }

abbrev empty_server : Server
empty_server = record { dirroot = dir_init; dirlock = false; fileservers = connection ∷ [] }

serve_round-requests_example :
    (serve_round
        (λ n. n)
        0
        9
        0
        (received (list_request 0 1 9 info 4 1 (b'/' ∷ [])))
        connection
        empty_server
      ≡ ended (
          read_dir 0 9 0
            (noted connection 4)
            1
            (strndup (b'/' ∷ []))
            (noting 0 connection 4 empty_server)))
    × (serve_round
          (λ n. n)
          0
          9
          0
          (received (create_request 0 1 9 info 4 (b'/' ∷ [])))
          connection
          empty_server
        ≡ ended (
            directory_create_file 0 9 0
              (noted connection 4)
              (unwritten (b'/' ∷ []) info.user)
              (noting 0 connection 4 empty_server)))
serve_round-requests_example =
    serve_round-requests (λ n. n) 0 9 0 connection empty_server 0 1 9 4 info (b'/' ∷ []) 1 (λ h. cc)
      (λ h. cc)

serve_round-update_request_example :
    serve_round
      (λ n. n)
      0
      9
      0
      (received (update_request 0 1 9 info 4 (b'/' ∷ b'f' ∷ [])))
      connection
      empty_server
    ≡ ended (
        sent
          (unlock
            (record (noting 0 connection 4 empty_server) { dirroot = set_fileserv 0 dir_init }))
          (dcp_send_fileinfo 0 9 (noted connection 4) (fileinfo_from_node dir_init.label)))
serve_round-update_request_example =
    serve_round-update_request (λ n. n) 0 9 0 connection empty_server 0 1 9 4 info
      (b'/' ∷ b'f' ∷ []) (λ h. cc) (λ h. cc) refl

-- One file server is connected, and one entry is free.
abbrev servers : Fileservers
servers = record {
  lastsid = 1;
  fsrvcnt = 1;
  table =
      record { id = 1; lasttid = 0; address = [] }
      ∷ record { id = 0; lasttid = 0; address = [] }
      ∷ [];
}

servers-IsRegistry : IsRegistry servers
servers-IsRegistry = record { given = omega arith; different = ((inr (λ h. cc), tt), (tt, tt)) }

accept_fsrv-IsRegistry_example : IsRegistry (accept_fsrv servers).1
accept_fsrv-IsRegistry_example = accept_fsrv-IsRegistry servers (omega arith) servers-IsRegistry

second_entry : (accept_fsrv servers).0 ≡ some 1
unfolding accept_fsrv
second_entry = refl

abbrev full_house : Clients
full_house = record { clicnt = 100; table = replicate 100 info }

All-replicate : (n : ℕ) → All (λ c. c.id ≢ 0) (replicate n info)
All-replicate zero = tt
All-replicate (suc n) = (omega arith, All-replicate n)

All-taken : All (λ c. c.id ≢ 0) full_house.table
All-taken = All-replicate 100

-- A connection that sends nothing takes the last free entry.
abbrev silence : Connection
silence = record { address = []; msg = none }

do_dcp_server-full_example :
    (r' : Fileservers) × ((do_dcp_server 0 9 (silence ∷ []) servers ≡ some r')
      × ((dcp_round 0 9 silence r').outcome ≡ turned_away))
unfolding dcp_accept
do_dcp_server-full_example =
    do_dcp_server-full 0 9 (silence ∷ []) servers silence ((λ info h. cc), tt) (omega arith)
      (omega arith) (omega arith)

-- A file server that has had no client.
abbrev free_entry : ClientInfo
free_entry = record { id = 0; lasttid = 0; user = []; host = [] }

nonzero_id : info.id ≢ 0
nonzero_id = omega arith

-- The visit of a client that says hello and quits.
abbrev short : Visit
short = short_visit 0 0 1 9 7 8 2 2 [] [] [] nonzero_id

abbrev silent_visit : Visit
silent_visit = record { greeting = none; messages = [] }

abbrev no_clients : Clients
no_clients = record { clicnt = 0; table = replicate max_clients free_entry }

do_fap_server-worn_out_example :
    (r' : Clients) × ((do_fap_server 0 1 9 [] 2 (replicate 101 short) no_clients ≡ some r')
      × (HasFree r'.table × ((fap_round 0 1 9 [] 2 silent_visit r').outcome ≡ gone)))
do_fap_server-worn_out_example =
    do_fap_server-worn_out 0 0 1 9 7 8 2 2 [] [] [] nonzero_id 101 no_clients silent_visit refl
      (0, free_entry, (refl, refl))
