-- ===== src/FileServer/Rounds.antt =====
-- The loops of the file server, src/fsservd.c: serve_client over the messages of a client, and do_fap_server
-- over the clients that connect.
pub mod WornOut
use netpro_project.Prelude.{ℕ, ◌+◌, maybe, ◌>>=◌, get_elem?, set, List, [], ◌∷◌, Option, none, some}
use netpro_project.Protomsg.{Fsmsg}
use netpro_project.Fap.Client.{Outcome, returns, fails, crash}
use netpro_project.FileServer.{ClientInfo}
use netpro_project.FileServer.Commands.{
  ClientRound, closed, quits, invalid, runs, silent, crash_round, fap_accept, serve_client,
}
use netpro_project.Registry.{Clients, register_client}

-- The rest of the loop behind a round: serve_client returns, or goes on with its client. none is a section
-- that is missing.
abbrev pub go_on : ClientRound → ClientInfo → (ClientInfo → Option ClientInfo) → Option ClientInfo
go_on closed info rest = some info
go_on (quits x ok) info rest = some x
go_on (invalid error) info rest = rest info
go_on (runs x job) info rest = rest x
go_on (silent x) info rest = rest x
go_on crash_round info rest = none

-- A client: what fsmsg_from_socket returns first, for fap_accept, and then, up to the NULL at the end.
pub record Visit : Type 0 where
  pub greeting : Option Fsmsg
  pub messages : List Fsmsg

-- How a round of do_fap_server ends.
pub data Received : Type 0 where
  turned_away : Received
  refused : Received
  served : Received
  crashes : Received

abbrev pub go_on_after : Received → Option Clients → Option Clients
go_on_after crashes rest = none
go_on_after turned_away rest = rest
go_on_after refused rest = rest
go_on_after served rest = rest

pub record FapRound : Type 0 where
  pub clients : Clients
  pub outcome : Received

-- FAP_DATAPORT_BASE
abbrev pub fap_dataport : ℕ
fap_dataport = 40100

module _ (heap sid fsid : ℕ) where
  unfoldable pub serve_messages : List Fsmsg → ClientInfo → Option ClientInfo
  unfolding serve_client
  serve_messages [] info = some info
  serve_messages (m ∷ ms) info =
      go_on (serve_client heap sid fsid (some m) info) info (λ x. serve_messages ms x)

  -- `ret = fap_accept(clinfo)` and what follows, for the entry `i`.
  unfoldable pub serve_accepted : ℕ → List Fsmsg → Outcome (ClientInfo × Fsmsg) → Clients → FapRound
  unfolding serve_messages
  serve_accepted i ms (returns (info, response)) r =
      maybe (serve_messages ms info) (record { clients = r; outcome = crashes })
        (λ x. record { clients = record r { table = set r.table i x }; outcome = served })
  serve_accepted i ms (fails v) r = record { clients = r; outcome = refused }
  serve_accepted i ms crash r = record { clients = r; outcome = crashes }

  -- A place behind the table is no entry. register_client has set the data port of the entry.
  unfoldable pub fap_round : List ℕ → ℕ → Visit → Clients → FapRound
  unfolding register_client fap_accept serve_accepted
  fap_round hostname client_id v r =
      let taken = register_client client_id r in
      maybe taken.0 (record { clients = taken.1; outcome = turned_away })
        (λ i.
          maybe (get_elem? taken.1.table i) (record { clients = taken.1; outcome = crashes })
            (λ info.
              serve_accepted i v.messages
                (fap_accept heap sid fsid hostname (fap_dataport + i) v.greeting info) taken.1))

  -- The client id is the same for all. At a section that is missing the process ends.
  unfoldable pub do_fap_server : List ℕ → ℕ → List Visit → Clients → Option Clients
  unfolding fap_round
  do_fap_server hostname client_id [] r = some r
  do_fap_server hostname client_id (v ∷ vs) r =
      let round = fap_round hostname client_id v r in
      go_on_after round.outcome (do_fap_server hostname client_id vs round.clients)
