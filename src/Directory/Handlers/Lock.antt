-- ===== src/Directory/Handlers/Lock.antt =====
-- The mutex of the directory server over the requests.
use netpro_project.Prelude.{
  ℕ, ◌≡◌, ◌≢◌, refl, ◌>>=◌, List, true, false, ◌⊎◌, inl, inr, none, some, Option-cases,
}
use netpro_project.Protomsg.{FileinfoSect}
use netpro_project.Directory.Path.{levels}
use netpro_project.Directory.Tree.{Dir, dir_find_node, target}
use netpro_project.Directory.Tree.Leads.{lookup_cases, target-Leads}
use netpro_project.Directory.Tree.Create.{find_levels-found, find_levels-none}
use netpro_project.Dcp.Send.{FileservInfo, dcp_send_error}
use netpro_project.Directory.Handlers.{
  Server, Ending, sent, blocked, crash, strndup, err_exists, already_exists, read_dir, create_file,
  update_file, replica_status, address_of,
}

-- The requests that take the mutex wait for ever.
pub record AllBlocked (s : Server) : Type 0 where
  pub reads :
      (heap fsid i : ℕ) (info : FileservInfo) (recurse : ℕ) (path : List ℕ)
      → read_dir heap fsid i info recurse path s ≡ blocked
  pub creates :
      (heap fsid i : ℕ) (info : FileservInfo) (fi : FileinfoSect)
      → create_file heap fsid i info fi s ≡ blocked
  pub replicas :
      (heap fsid i : ℕ) (info : FileservInfo) (path : List ℕ)
      → replica_status heap fsid i info path s ≡ blocked

held-AllBlocked : (s : Server) → s.dirlock ≡ true → AllBlocked s
unfolding read_dir create_file replica_status
held-AllBlocked s held = record {
  reads = λ heap fsid i info recurse path. rw held refl;
  creates = λ heap fsid i info fi. rw held refl;
  replicas = λ heap fsid i info path. rw held refl;
}

-- create_file of a path that exists answers ERR_EXISTS and keeps the mutex: after it every request of
-- every file server waits for ever, but for update_file.
pub create_file-existing :
    (heap fsid i : ℕ) (info : FileservInfo) (fi : FileinfoSect) (s : Server) (n : List ℕ)
    → s.dirlock ≡ false
    → dir_find_node (strndup fi.path) true s.dirroot ≡ some n
    → (after : Server) × ((create_file heap fsid i info fi s
          ≡ sent after (dcp_send_error heap fsid info.lasttid info.id err_exists already_exists))
        × ((after.dirroot ≡ s.dirroot) × AllBlocked after))
unfolding create_file
create_file-existing heap fsid i info fi s n free exists =
    (record s { dirlock = true }, (rw (free, exists) refl, (refl, held-AllBlocked _ refl)))

-- What dir_find_node finds is in the tree.
pub found_cases :
    (path : List ℕ) (root : Dir)
    → (dir_find_node path true root ≡ none)
      ⊎ ((n : List ℕ) × ((d : Dir) × ((dir_find_node path true root ≡ some n)
              × (target n root ≡ some d))))
unfolding dir_find_node
found_cases path root = elim (lookup_cases (levels path) root) [
  | inl (h, w) ↦ inl (find_levels-none (levels path) root w)
  | inr (a, e, l) ↦ inr (a, (e, (find_levels-found l, target-Leads l)))
]

-- The request is answered, and the mutex is free afterwards.
abbrev pub Frees : Ending → Type 0
Frees (sent after msg) = after.dirlock ≡ false
Frees blocked = ⊥
Frees crash = ⊥

-- update_file always answers, whether the mutex is free or another thread holds it, and leaves it free.
pub update_file-Frees :
    (heap fsid i : ℕ) (info : FileservInfo) (path : List ℕ) (s : Server)
    → Frees (update_file heap fsid i info path s)
unfolding update_file
update_file-Frees heap fsid i info path s = elim (found_cases path s.dirroot) [
  | inl h ↦ rw h refl
  | inr (n, (d, (h, t))) ↦ rw (h, t) refl
]

-- replica_status, on a free mutex, always answers and leaves it free.
pub replica_status-Frees :
    (heap fsid i : ℕ) (info : FileservInfo) (path : List ℕ) (s : Server)
    → s.dirlock ≡ false
    → Frees (replica_status heap fsid i info path s)
unfolding replica_status
replica_status-Frees heap fsid i info path s free =
    let found = dir_find_node path true s.dirroot >>= address_of (record s { dirlock = true }) in
    elim (Option-cases found) [ inl h ↦ rw (free, h) refl | inr (address, h) ↦ rw (free, h) refl ]

-- read_dir of a path that is there, on a free mutex, answers and leaves it free.
pub read_dir-Frees :
    (heap fsid i : ℕ) (info : FileservInfo) (recurse : ℕ) (path : List ℕ) (s : Server)
    → s.dirlock ≡ false
    → dir_find_node path true s.dirroot ≢ none
    → Frees (read_dir heap fsid i info recurse path s)
unfolding read_dir
read_dir-Frees heap fsid i info recurse path s free there = elim (found_cases path s.dirroot) [
  | inl h ↦ absurd (there h)
  | inr (n, (d, (h, t))) ↦ rw (free, h, t) refl
]
