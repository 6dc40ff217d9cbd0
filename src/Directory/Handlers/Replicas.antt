-- ===== src/Directory/Handlers/Replicas.antt =====
-- create_file followed by the other requests on the same path.
use netpro_project.Prelude.{
  ℕ, ◌≡◌, ◌≢◌, refl, sym, ap, ◌∙◌, append-nil, ◌>>=◌, List, [], ◌∷◌, ◌++◌, true, false, All,
  All-append, none, some, get_elem?,
}
use netpro_project.Protomsg.{FileinfoSect}
use netpro_project.Dcp.Send.{FileservInfo, dcp_send_replica_list}
use netpro_project.Directory.Path.{IsName, path_of, levels-path_of}
use netpro_project.Directory.Tree.{
  Dir, find_child, dir_find_node, edit, target, add_child, new_node, count,
}
use netpro_project.Directory.Tree.Leads.{Leads, edit-Leads, target-Leads}
use netpro_project.Directory.Tree.Insert.{label_of, label_at, label_at-edit_at, label_at-edit}
use netpro_project.Directory.Tree.Find.{lookup}
use netpro_project.Directory.Tree.Create.{
  node_at, node_at-path_of, find_levels-found, add_node-at, Leads-new, Led-there, no_child,
}
use netpro_project.Directory.Tree.Inserts.{base_name-file_path}
use netpro_project.Directory.Handlers.{
  Server, sent, strndup, set_fileserv, create_reply, create_at, create_file, address_of,
  replica_status,
}

-- The directory after create_file: the names of the path lead to the new node, which names the file
-- server.
pub record IsCreated (names : List (List ℕ)) (name : List ℕ) (i : ℕ) (root : Dir) : Type 0 where
  pub pointer : List ℕ
  pub node : Dir
  pub way : Leads names root pointer node
  pub labelled : node.label ≡ record { name = name; user = none; fileserv = some i }

module _ (heap fsid i : ℕ) (info : FileservInfo) where
  set_fileserv-inside :
      (e : Dir) (q : List (List ℕ)) → q ≢ [] → label_at q (set_fileserv i e) ≡ label_at q e
  unfolding lookup
  set_fileserv-inside e [] ne = absurd (ne refl)
  set_fileserv-inside e (m ∷ q) ne = refl

  -- A node that gets another file server changes nothing elsewhere.
  pub label_at-set_fileserv :
      {names : List (List ℕ)} {root e : Dir} {a : List ℕ}
      → Leads names root a e
      → (q : List (List ℕ)) → q ≢ names
      → label_at q (edit a (set_fileserv i) root) ≡ label_at q root
  label_at-set_fileserv {names} l q ne =
      label_at-edit_at (set_fileserv i) [] (λ e. refl) set_fileserv-inside l q
        (λ z. ne (z ∙ append-nil names))

  label_at-created :
      {dir : List (List ℕ)} {root e : Dir} {a : List ℕ} (name : List ℕ)
      → Leads dir root a e
      → find_child name e.children ≡ none
      → (q : List (List ℕ)) → q ≢ dir ++ name ∷ []
      → label_at q (
          edit
            (a ++ count e.children ∷ [])
            (set_fileserv i)
            (edit a (add_child (new_node name)) root))
        ≡ label_at q root
  label_at-created name l free q ne =
      label_at-set_fileserv (Leads-new name l free) q ne ∙ label_at-edit name l q ne

  -- create_file of a path that is not there, in a directory that is, on a free mutex: it answers with the
  -- last name of the path, leaves the mutex free, the path leads to a node of this file server, and all
  -- other names lead to what they led to before.
  pub create_file-creates :
      (fi : FileinfoSect) (s : Server) (dir : List (List ℕ)) (name : List ℕ)
      → s.dirlock ≡ false
      → All IsName dir
      → IsName name
      → strndup fi.path ≡ path_of (dir ++ name ∷ [])
      → node_at (path_of dir) s.dirroot ≢ none
      → dir_find_node (path_of (dir ++ name ∷ [])) true s.dirroot ≡ none
      → (root : Dir) × ((create_file heap fsid i info fi s
            ≡ sent (record s { dirroot = root }) (create_reply heap fsid i info name))
          × (IsCreated (dir ++ name ∷ []) name i root
              × ((q : List (List ℕ))
                  → q ≢ dir ++ name ∷ []
                  → label_at q root ≡ label_at q s.dirroot)))
  unfolding create_file create_at
  create_file-creates fi s dir name free names is_name path there missing =
      let all_names = All-append IsName dir (name ∷ []) names (is_name, tt) in
      let (a, e, l) = Led-there dir s.dirroot names there in
      let absent = ap (λ o. label_of (o >>= λ a. target a s.dirroot)) missing in
      let free_name = no_child name l (sym (node_at-path_of _ s.dirroot all_names) ∙ absent) in
      let added =
        add_node-at (path_of (dir ++ name ∷ [])) name l name [] free_name
          (levels-path_of _ all_names) (base_name-file_path dir name is_name.no_slash) in
      let way = Leads-new name l free_name in
      let pointer = a ++ count e.children ∷ [] in
      (
        edit pointer (set_fileserv i) (edit a (add_child (new_node name)) s.dirroot),
        (
          rw (free, path, missing, added, target-Leads way) refl,
          (
            record {
              pointer = _;
              node = _;
              way = edit-Leads (set_fileserv i) (λ e. refl) way;
              labelled = refl;
            },
            label_at-created name l free_name,
          ),
        ),
      )

  -- Whoever asks for the replicas of a file that create_file has made is sent the address of the file
  -- server that made it, if the table holds one.
  pub replica_status-created :
      (s : Server) (names : List (List ℕ)) (name : List ℕ) (j : ℕ) (srv : FileservInfo)
      → s.dirlock ≡ false
      → All IsName names
      → IsCreated names name j s.dirroot
      → get_elem? s.fileservers j ≡ some srv
      → replica_status heap fsid i info (path_of names) s
        ≡ sent s (dcp_send_replica_list heap fsid info srv.address)
  unfolding replica_status dir_find_node address_of
  replica_status-created s names name j srv free is_names c entry =
      rw
        (
          free,
          levels-path_of names is_names,
          find_levels-found c.way,
          target-Leads c.way,
          c.labelled,
          entry,
        )
        refl
