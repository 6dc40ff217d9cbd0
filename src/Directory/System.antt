-- ===== src/Directory/System.antt =====
-- The directory that the directory server of src/fsdird.c keeps for its file servers, as they see it:
-- names that lead to nodes, and the requests one after the other, in the order in which they get the
-- mutex. Beside the code's requests stand those of an abstract directory, without tree or pointers.
pub mod Agree
pub mod Requests
pub mod Refines
use netpro_project.Prelude.{
  ℕ, ◌++◌, List, [], ◌∷◌, Bool, true, false, Option, none, some, get_elem?, ◌>>=◌, maybe,
  if◌then◌else◌,
}
use netpro_project.Protomsg.{FileinfoSect, Fsmsg}
use netpro_project.Dcp.Send.{FileservInfo, dcp_send_error, dcp_send_fileinfo, dcp_send_replica_list}
use netpro_project.Directory.Path.{path_of, same_names}
use netpro_project.Directory.Tree.{Node}
use netpro_project.Directory.Handlers.{
  Server, Ending, sent, blocked, crash, listed, user, fileinfo_from_node, err_filenotfound,
  err_exists, not_found, already_exists, create_reply, create_file, update_file, replica_status,
}

-- A request of the file server `info`, which has the place `i` in the table.
pub data Request : Type 0 where
  creates : ℕ → FileservInfo → List (List ℕ) → List ℕ → Request
  updates : ℕ → FileservInfo → List (List ℕ) → Request
  replicas : ℕ → FileservInfo → List (List ℕ) → Request

-- What the requests of all threads send, up to the first that waits for ever or crashes.
pub data Trace : Type 0 where
  done : Trace
  sends : Fsmsg → Trace → Trace
  waits : Trace
  crashes : Trace

-- The abstract directory.
pub record Directory : Type 0 where
  pub nodes : List (List ℕ) → Option Node
  pub held : Bool
  pub table : List FileservInfo

abbrev pub Nodes : Type 0
Nodes = List (List ℕ) → Option Node

unfoldable pub put : List (List ℕ) → Node → Nodes → Nodes
unfolding same_names
put names x nodes q = if same_names q names then some x else nodes q

pub data Step : Type 0 where
  next : Directory → Fsmsg → Step
  stuck : Step

abbrev pub owned_by : ℕ → Node → Node
owned_by i x = record x { fileserv = some i }

abbrev pub new_file : ℕ → List ℕ → Node
new_file i name = record { name = name; user = none; fileserv = some i }

abbrev pub fileserv_address : List FileservInfo → Node → Option (List ℕ)
fileserv_address table x = do j ← x.fileserv; srv ← get_elem? table j; some srv.address

abbrev pub follow : Ending → (Server → Trace) → Trace
follow (sent s msg) go_on = sends msg (go_on s)
follow blocked go_on = waits
follow crash go_on = crashes

abbrev pub unless_held : Directory → Step → Step
unless_held a step = if a.held then stuck else step

abbrev pub follow_step : Step → (Directory → Trace) → Trace
follow_step (next a msg) go_on = sends msg (go_on a)
follow_step stuck go_on = waits

module _ (heap fsid : ℕ) where
  abbrev pub handle : Request → Server → Ending
  handle (creates i info dir name) s =
      create_file heap fsid i info (listed (path_of (dir ++ name ∷ [])) user) s
  handle (updates i info names) s = update_file heap fsid i info (path_of names) s
  handle (replicas i info names) s = replica_status heap fsid i info (path_of names) s

  unfoldable pub run : List Request → Server → Trace
  unfolding create_file update_file replica_status
  run [] s = done
  run (r ∷ rs) s = follow (handle r s) (run rs)

  abbrev pub exists_error : FileservInfo → Fsmsg
  exists_error info = dcp_send_error heap fsid info.lasttid info.id err_exists already_exists

  abbrev pub missing_error : FileservInfo → Fsmsg
  missing_error info = dcp_send_error heap fsid info.lasttid info.id err_filenotfound not_found

  -- A new name gets a node of the file server, an old one is refused and the mutex is never given back;
  -- an update moves the file to the file server, whoever holds the mutex; the replicas are those of
  -- the node.
  abbrev pub transition : Request → Directory → Step
  transition (creates i info dir name) a = unless_held a (
      maybe (a.nodes (dir ++ name ∷ []))
        (next (record a { nodes = put (dir ++ name ∷ []) (new_file i name) a.nodes })
          (create_reply heap fsid i info name))
        (λ x. next (record a { held = true }) (exists_error info)))
  transition (updates i info names) a =
      maybe (a.nodes names) (next (record a { held = false }) (missing_error info)) (λ x.
        next (record { nodes = put names (owned_by i x) a.nodes; held = false; table = a.table })
          (dcp_send_fileinfo heap fsid info (fileinfo_from_node x)))
  transition (replicas i info names) a = unless_held a (
      maybe (a.nodes names >>= fileserv_address a.table) (next a (missing_error info))
        (λ address. next a (dcp_send_replica_list heap fsid info address)))

  unfoldable pub play : List Request → Directory → Trace
  unfolding put fileinfo_from_node create_reply dcp_send_error dcp_send_fileinfo
      dcp_send_replica_list
  play [] a = done
  play (r ∷ rs) a = follow_step (transition r a) (play rs)
