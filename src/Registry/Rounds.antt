-- ===== src/Registry/Rounds.antt =====
-- The loop of do_dcp_server in src/fsdird.c over the connections that accept returns.
pub mod Slots
use netpro_project.Prelude.{ℕ, maybe, ◌>>=◌, get_elem?, set, List, [], ◌∷◌, Option, none, some}
use netpro_project.Protomsg.{Fsmsg}
use netpro_project.Dcp.Send.{FileservInfo}
use netpro_project.Dcp.Handshake.{Greeting, dcp_accept}
use netpro_project.Fap.Client.{Outcome, returns, fails, crash}
use netpro_project.Registry.{Fileservers, accept_fsrv}

-- A connection: its address as text, and what fsmsg_from_socket returns from it first.
pub record Connection : Type 0 where
  pub address : List ℕ
  pub msg : Option Fsmsg

-- How a round ends: no entry is free; dcp_accept refuses; a thread serves the entry; or a section is
-- missing.
pub data Served : Type 0 where
  turned_away : Served
  refused : ℕ → Served
  serves : FileservInfo → Greeting → Fsmsg → Served
  crashes : Served

abbrev pub on_accept : ℕ → FileservInfo → Outcome (Greeting × Fsmsg) → Served
on_accept i info (returns (greeting, response)) = serves info greeting response
on_accept i info (fails v) = refused i
on_accept i info crash = crashes

abbrev pub go_on : Served → Option Fileservers → Option Fileservers
go_on crashes rest = none
go_on turned_away rest = rest
go_on (refused i) rest = rest
go_on (serves info greeting response) rest = rest

pub record Round : Type 0 where
  pub fileservers : Fileservers
  pub outcome : Served

module _ (heap fsid : ℕ) where
  -- From `fsrvinfo->address` on. The entry stays taken where dcp_accept refuses.
  unfoldable pub serve_entry : Connection → ℕ → FileservInfo → Fileservers → Round
  unfolding dcp_accept
  serve_entry c i x r =
      let info = record x { address = c.address } in
      record {
        fileservers = record r { table = set r.table i info };
        outcome = on_accept i info (dcp_accept heap fsid c.msg info);
      }

  -- register_fsrv returns the place of an entry, or -1.
  unfoldable pub dcp_round : Connection → Fileservers → Round
  unfolding accept_fsrv serve_entry
  dcp_round c r =
      let taken = accept_fsrv r in
      maybe taken.0 (record { fileservers = taken.1; outcome = turned_away })
        (λ i.
          maybe (get_elem? taken.1.table i) (record { fileservers = taken.1; outcome = crashes })
            (λ x. serve_entry c i x taken.1))

  -- At a section that is missing the process ends.
  abbrev pub and_then : Round → (Fileservers → Option Fileservers) → Option Fileservers
  and_then round rest = go_on round.outcome (rest round.fileservers)

  unfoldable pub do_dcp_server : List Connection → Fileservers → Option Fileservers
  unfolding dcp_round
  do_dcp_server [] r = some r
  do_dcp_server (c ∷ cs) r = and_then (dcp_round c r) (λ r. do_dcp_server cs r)
