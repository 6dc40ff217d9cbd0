-- ===== src/Directory/Handlers.antt =====
-- The requests that the directory server answers: read_dir, create_file, update_file and replica_status,
-- with fileinfo_from_node, of src/fsdird.c. One thread per file server runs them on the
-- one tree, under the one mutex `dirlock`; a step is one whole request. A message that is handed to
-- fsmsg_send counts as sent.
pub mod Lock
pub mod Listing
pub mod Replicas
use netpro_project.Prelude.{
  ℕ, zero, suc, ◌+◌, ◌-◌, ◌%◌, ◌^◌, ◌==◌, if◌then◌else◌, List, [], ◌∷◌, ◌++◌, Bool, true, false,
  Option, none, some, get_elem?, ◌>>=◌, maybe,
}
use netpro_project.Protomsg.{
  MsgSection, integer, string, fileinfo, nonext, FileinfoSect, Fsmsg, fsmsg_add_section,
}
use netpro_project.Dcp.{fileinfo as fileinfo_reply, dcp_create_msg}
use netpro_project.Dcp.Send.{FileservInfo, dcp_send_error, dcp_send_fileinfo, dcp_send_replica_list}
use netpro_project.Directory.Tree.{
  Node, Forest, null, node, Dir, find_levels, dir_find_node, edit, target, Added, add_node,
}

-- What the threads share.
pub record Server : Type 0 where
  pub dirroot : Dir
  pub dirlock : Bool
  pub fileservers : List FileservInfo

-- How a request ends: with a new state and a message sent, waiting for the mutex for ever, or at a
-- NULL pointer. No thread but the one that waits can see a state in between.
pub data Ending : Type 0 where
  sent : Server → Fsmsg → Ending
  blocked : Ending
  crash : Ending

-- pthread_mutex_lock in front of the rest of a request
abbrev pub locked : Server → (Server → Ending) → Ending
locked s rest = if s.dirlock then blocked else rest (record s { dirlock = true })

abbrev pub unlock : Server → Server
unlock s = record s { dirlock = false }

abbrev pub user : List ℕ
user = b'u' ∷ b's' ∷ b'e' ∷ b'r' ∷ []

-- data.fileinfo after memset to zeros
abbrev pub listed : List ℕ → List ℕ → FileinfoSect
listed name owner = record {
  type = 0;
  path = name;
  username = owner;
  modified = 0;
  size = 0;
  replicas = 0;
}

unfoldable pub fileinfo_from_node : Node → FileinfoSect
fileinfo_from_node n = listed n.name (elim n.user [ some u ↦ u | none ↦ user ])

-- strndup: the bytes up to the length or to a NUL.
unfoldable pub strndup : List ℕ → List ℕ
strndup [] = []
strndup (c ∷ cs) = if c == 0 then [] else c ∷ strndup cs

abbrev pub err_filenotfound : ℕ
err_filenotfound = 1

abbrev pub err_exists : ℕ
err_exists = 2

-- `SECI(msg, 0)++`
abbrev pub count_up : List MsgSection → List MsgSection
count_up (integer n ∷ ss) = integer ((n + 1) % 2 ^ 32) ∷ ss
count_up ss = ss

-- `while(n) { ... n=n->next; }` of read_dir
unfoldable pub add_files : Forest → Fsmsg → Fsmsg
unfolding fsmsg_add_section
add_files null msg = msg
add_files (node x children next) msg =
    let counted = record msg { sections = count_up msg.sections } in
    add_files next (fsmsg_add_section counted (fileinfo (listed x.name user)))

-- A change of what a node holds, as in `n->fileserv = info`.
abbrev pub set_fileserv : ℕ → Dir → Dir
set_fileserv i d = record d { label = record d.label { fileserv = some i } }

abbrev pub not_found : List ℕ
not_found =
    b'f' ∷ b'i' ∷ b'l' ∷ b'e' ∷ b' ' ∷ b'd' ∷ b'o' ∷ b'e' ∷ b's' ∷ b'n' ∷ 0x27 ∷ b't' ∷ b' ' ∷ b'e'
    ∷ b'x' ∷ b'i' ∷ b's' ∷ b't' ∷ []

abbrev pub already_exists : List ℕ
already_exists =
    b'f' ∷ b'i' ∷ b'l' ∷ b'e' ∷ b' ' ∷ b'a' ∷ b'l' ∷ b'r' ∷ b'e' ∷ b'a' ∷ b'd' ∷ b'y' ∷ b' ' ∷ b'e'
    ∷ b'x' ∷ b'i' ∷ b's' ∷ b't' ∷ b's' ∷ []

-- `n->fileserv->address`, if `n->fileserv` is not NULL
unfoldable pub address_of : Server → List ℕ → Option (List ℕ)
unfolding target
address_of s n = do
  d ← target n s.dirroot
  j ← d.label.fileserv
  srv ← get_elem? s.fileservers j
  some srv.address

-- `i` is the place of `info` in the table of file servers.
module _ (heap fsid i : ℕ) (info : FileservInfo) where
  -- The answer of read_dir; `n` is `n->children`.
  unfoldable pub read_dir_reply : Forest → Fsmsg
  unfolding add_files dcp_create_msg fsmsg_add_section
  read_dir_reply n =
      let msg = dcp_create_msg heap info.lasttid info.id fsid fileinfo_reply in
      let m1 = fsmsg_add_section msg (integer 0) in fsmsg_add_section (add_files n m1) nonext

  -- A missing path is followed as NULL.
  unfoldable pub read_dir : ℕ → List ℕ → Server → Ending
  unfolding dir_find_node target read_dir_reply
  read_dir recurse path s = locked s (λ s.
      maybe (dir_find_node path true s.dirroot >>= λ n. target n s.dirroot) crash
        (λ n. sent (unlock s) (read_dir_reply n.children)))

  unfoldable pub create_reply : List ℕ → Fsmsg
  unfolding dcp_create_msg fsmsg_add_section
  create_reply name =
      let msg = dcp_create_msg heap info.lasttid info.id fsid fileinfo_reply in
      let m1 = fsmsg_add_section msg (integer 1) in
      let m2 = fsmsg_add_section m1 (fileinfo (listed name user)) in fsmsg_add_section m2 nonext

  -- `n->fileserv = info`, and the answer with the name of the new node
  unfoldable pub create_at : Added → Server → Ending
  unfolding edit target create_reply
  create_at added s = maybe (target added.pointer added.root) crash (λ n.
      sent (unlock (record s { dirroot = edit added.pointer (set_fileserv i) added.root }))
        (create_reply n.label.name))

  -- The path that exists is answered without an unlock.
  unfoldable pub create_file : FileinfoSect → Server → Ending
  unfolding strndup dir_find_node add_node create_at dcp_send_error
  create_file fi s =
      let path = strndup fi.path in
      let exists = dcp_send_error heap fsid info.lasttid info.id err_exists already_exists in
      locked s (λ s.
        maybe (dir_find_node path true s.dirroot)
          (maybe (add_node path s.dirroot) crash (λ added. create_at added s)) (λ n. sent s exists))

  -- The first call is an unlock where a lock is meant.
  unfoldable pub update_file : List ℕ → Server → Ending
  unfolding dir_find_node edit target fileinfo_from_node dcp_send_error dcp_send_fileinfo
  update_file path s =
      let s1 = unlock s in
      let missing = dcp_send_error heap fsid info.lasttid info.id err_filenotfound not_found in
      maybe (dir_find_node path true s1.dirroot) (sent (unlock s1) missing) (λ n.
        maybe (target n s1.dirroot) crash (λ d.
          sent (unlock (record s1 { dirroot = edit n (set_fileserv i) s1.dirroot }))
            (dcp_send_fileinfo heap fsid info (fileinfo_from_node d.label))))

  unfoldable pub replica_status : List ℕ → Server → Ending
  unfolding dir_find_node address_of dcp_send_error dcp_send_replica_list
  replica_status path s =
      let missing = dcp_send_error heap fsid info.lasttid info.id err_filenotfound not_found in
      locked s (λ s.
        maybe (dir_find_node path true s.dirroot >>= address_of s) (sent (unlock s) missing)
          (λ address. sent (unlock s) (dcp_send_replica_list heap fsid info address)))
