-- ===== src/Examples/DirectoryServer.antt =====
-- src/fsdird.c at concrete trees and requests.
use netpro_project.Prelude.{◌≡◌, ◌≢◌, refl, ℕ, List, [], ◌∷◌, ◌++◌, true, false, none, some, arith}
use netpro_project.Protomsg.{FileinfoSect}
use netpro_project.Dcp.Send.{FileservInfo, dcp_send_error}
use netpro_project.Directory.Path.{IsName, path_of, levels, same_name}
use netpro_project.Directory.Tree.{Node, null, node, Dir, dir_find_node, target, Added, add_node}
use netpro_project.Directory.Tree.Find.{here}
use netpro_project.Directory.Tree.Leads.{stop, step}
use netpro_project.Directory.Tree.Create.{node_at}
use netpro_project.Directory.Tree.Inserts.{IsInserted, add_node-inserts, add_node-missing}
use netpro_project.Directory.Handlers.{
  Server, sent, strndup, err_exists, already_exists, user, create_file,
}
use netpro_project.Directory.Handlers.Lock.{AllBlocked, create_file-existing}
use netpro_project.Directory.Handlers.Replicas.{IsCreated}

abbrev pub a : List ℕ
a = b'a' ∷ []

abbrev pub b : List ℕ
b = b'b' ∷ []

abbrev pub owned : List ℕ → Node
owned name = record { name = name; user = none; fileserv = some 0 }

-- The directory "/a" with the file "/a/b".
abbrev tree : Dir
tree = record {
  label = record { name = 0x2f ∷ []; user = none; fileserv = none };
  children = node (owned a) (node (owned b) null null) null;
}

abbrev pub info : FileservInfo
info = record { id = 1; lasttid = 4; address = b'h' ∷ [] }

abbrev pub server : Server
server = record { dirroot = tree; dirlock = false; fileservers = info ∷ [] }

abbrev fi : List ℕ → FileinfoSect
fi path = record { type = 1; path = path; username = user; modified = 0; size = 0; replicas = 0 }

pub IsName-a : IsName a
IsName-a = record { not_empty = λ h. cc; no_slash = omega arith }

pub IsName-b : IsName b
IsName-b = record { not_empty = λ h. cc; no_slash = omega arith }

-- A trailing slash and a double slash make no level.
levels_run : levels (path_of (a ∷ b ∷ []) ++ 0x2f ∷ 0x2f ∷ []) ≡ a ∷ b ∷ []
unfolding levels
levels_run = refl

find_run : dir_find_node (path_of (a ∷ b ∷ [])) true tree ≡ some (0 ∷ 0 ∷ [])
unfolding dir_find_node same_name
find_run = refl

parent_run : dir_find_node (path_of (a ∷ a ∷ b ∷ [])) false tree ≡ some (0 ∷ [])
unfolding dir_find_node same_name
parent_run = refl

there_a : node_at (path_of (a ∷ [])) tree ≢ none
unfolding dir_find_node same_name target
there_a h = cc

missing_b : node_at (path_of (b ∷ [])) tree ≡ none
unfolding dir_find_node same_name target
missing_b = refl

missing_a-a : node_at (path_of (a ∷ a ∷ [])) tree ≡ none
unfolding dir_find_node same_name target
missing_a-a = refl

add_node-inserts_example :
    (added : Added) × ((add_node (path_of (a ∷ a ∷ [])) tree ≡ some added)
      × IsInserted (path_of (a ∷ a ∷ [])) a tree added)
add_node-inserts_example =
    add_node-inserts tree (a ∷ []) a (IsName-a, tt) IsName-a there_a missing_a-a

root_there : node_at (path_of []) tree ≢ none
unfolding dir_find_node same_name target
root_there h = cc

add_node-missing_example :
    (added : Added) × ((add_node (path_of (b ∷ a ∷ a ∷ [])) tree ≡ some added)
      × ((node_at (path_of (b ∷ a ∷ a ∷ [])) added.root ≡ none)
          × (node_at (path_of (a ∷ [])) added.root ≢ none)))
add_node-missing_example =
    add_node-missing tree [] b (a ∷ []) a tt IsName-b (IsName-a, tt) IsName-a root_there missing_b

create_file-existing_example :
    (after : Server) × ((create_file 0 9 0 info (fi (path_of (a ∷ []))) server
        ≡ sent after (dcp_send_error 0 9 4 1 err_exists already_exists))
      × ((after.dirroot ≡ tree) × AllBlocked after))
unfolding strndup dir_find_node same_name
create_file-existing_example =
    create_file-existing 0 9 0 info (fi (path_of (a ∷ []))) server (0 ∷ []) refl refl

IsCreated-b : IsCreated (a ∷ b ∷ []) b 0 tree
unfolding same_name
IsCreated-b = record {
  pointer = 0 ∷ 0 ∷ [];
  node = record { label = owned b; children = null };
  way = step (here refl) (step (here refl) stop);
  labelled = refl;
}
