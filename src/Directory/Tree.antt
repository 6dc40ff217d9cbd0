-- ===== src/Directory/Tree.antt =====
-- The tree of struct node in src/fsdird.c: dir_init, dir_find_node, add_child and add_node.
-- A pointer to a node is the list of the positions, among the children, on the way from the root; its
-- target is looked up in the tree of the moment, so a change through one pointer is seen through all.
pub mod Find
pub mod Leads
pub mod Insert
pub mod Create
pub mod Inserts
use netpro_project.Prelude.{
  ℕ, zero, suc, List, [], ◌∷◌, ◌++◌, ◌>>=◌, Bool, true, false, Option, none, some, if◌then◌else◌,
}
use netpro_project.Directory.Path.{levels, base_name, same_name, slash}
use mathlib.Core.Option

-- What struct node holds besides the two pointers. `fileserv` is the index of the file server in the
-- table of the directory server, `none` for NULL.
pub record Node : Type 0 where
  pub name : List ℕ
  pub user : Option (List ℕ)
  pub fileserv : Option ℕ

-- A pointer `children` or `next`: NULL, or a node with its own `children` and `next`.
pub data Forest : Type 0 where
  null : Forest
  node : Node → Forest → Forest → Forest

-- A node with what hangs below it; for the root, whose `next` is always NULL, the whole tree.
pub record Dir : Type 0 where
  pub label : Node
  pub children : Forest

unfoldable pub dir_init : Dir
dir_init = record {
  label = record { name = slash ∷ []; user = none; fileserv = none };
  children = null;
}

-- A child, and its position among its siblings.
pub record Child : Type 0 where
  pub index : ℕ
  pub dir : Dir

abbrev pub later : Option Child → Option Child
later none = none
later (some c) = some (record c { index = suc c.index })

-- `for(n=p->children;n!=NULL;n=n->next)` up to the first node of that name
unfoldable pub find_child : List ℕ → Forest → Option Child
find_child level null = none
find_child level (node x children next) =
    if same_name x.name level
    then some (record { index = 0; dir = record { label = x; children = children } })
    else later (find_child level next)

-- The two pointers that the walk carries, below the node where it stands: `n`, NULL after a level that
-- was not found, and `p`, the last node that was.
pub record Walk : Type 0 where
  pub n : Option (List ℕ)
  pub p : List ℕ

abbrev pub below : ℕ → Walk → Walk
below i w = record { n = Option.map (λ a. i ∷ a) w.n; p = i ∷ w.p }

-- The inner loop has left `n` at NULL, and the walk ends, or at a child, from where it goes on.
abbrev pub step_into : Option Child → (Dir → Walk) → Walk
step_into none on = record { n = none; p = [] }
step_into (some c) on = below c.index (on c.dir)

-- `while(level && level[0] != '\0')`: after a level that is found, `n` and `p` are the same node.
unfoldable pub walk : List (List ℕ) → Dir → Walk
unfolding find_child
walk [] d = record { n = some []; p = [] }
walk (level ∷ ls) d = step_into (find_child level d.children) (walk ls)

-- A path without a level is the root.
unfoldable pub find_levels : List (List ℕ) → Bool → Dir → Option (List ℕ)
unfolding walk
find_levels [] exact root = some []
find_levels (level ∷ ls) exact root =
    let w = walk (level ∷ ls) root in if exact then w.n else some w.p

unfoldable pub dir_find_node : List ℕ → Bool → Dir → Option (List ℕ)
unfolding levels find_levels
dir_find_node pathc exact root = find_levels (levels pathc) exact root

-- A change of the node at a pointer.
unfoldable pub edit_nth : ℕ → (Dir → Dir) → Forest → Forest
edit_nth i f null = null
edit_nth zero f (node x children next) =
    let d = f (record { label = x; children = children }) in node d.label d.children next
edit_nth (suc i) f (node x children next) = node x children (edit_nth i f next)

unfoldable pub edit : List ℕ → (Dir → Dir) → Dir → Dir
unfolding edit_nth
edit [] f d = f d
edit (i ∷ a) f d = record d { children = edit_nth i (edit a f) d.children }

-- `while(i->next) i=i->next; i->next = c;`, or `p->children = c;`
unfoldable pub add_last : Forest → Node → Forest
add_last null c = node c null null
add_last (node x children next) c = node x children (add_last next c)

unfoldable pub add_child : Node → Dir → Dir
unfolding add_last
add_child c p = record p { children = add_last p.children c }

abbrev pub count : Forest → ℕ
count null = 0
count (node x children next) = suc (count next)

-- The node that a pointer points to.
unfoldable pub nth : ℕ → Forest → Option Dir
nth i null = none
nth zero (node x children next) = some (record { label = x; children = children })
nth (suc i) (node x children next) = nth i next

unfoldable pub target : List ℕ → Dir → Option Dir
unfolding nth
target [] d = some d
target (i ∷ a) d = nth i d.children >>= target a

-- The tree and the pointer that add_node returns.
pub record Added : Type 0 where
  pub root : Dir
  pub pointer : List ℕ

abbrev pub new_node : List ℕ → Node
new_node name = record { name = name; user = none; fileserv = none }

abbrev pub children_count : Option Dir → ℕ
children_count none = 0
children_count (some d) = count d.children

-- No result for a path without a slash, where strdup reads from the address 1. dir_find_node with
-- `exact` 0 never returns NULL.
unfoldable pub add_node : List ℕ → Dir → Option Added
unfolding base_name dir_find_node edit add_child target
add_node path root = do
  name ← base_name path
  p ← dir_find_node path false root
  some (record {
    root = edit p (add_child (new_node name)) root;
    pointer = p ++ children_count (target p root) ∷ [];
  })
