-- ===== src/Directory/Tree/Inserts.antt =====
-- add_node as an insertion into the directory: where the directory of the path is there, and where it is not.
use netpro_project.Prelude.{
  ℕ, ◌≡◌, ◌≢◌, sym, ap, ◌∙◌, List, [], ◌∷◌, ◌++◌, true, All, All-append, length, length-append,
  append_assoc, none, some, arith,
}
use netpro_project.Directory.Path.{
  levels, base_name, slash, IsName, path_of, levels-path_of, base_name-path_of, path_of-append,
}
use netpro_project.Directory.Tree.{
  Dir, find_child, find_levels, dir_find_node, edit, add_child, new_node, count, Added, add_node,
}
use netpro_project.Directory.Tree.Leads.{Leads}
use netpro_project.Directory.Tree.Insert.{label_at-edit}
use netpro_project.Directory.Tree.Create.{
  node_at, node_at-levels, find_levels-found, add_node-at, Leads-new, label_at-Leads,
  node_at-path_of, Led-there, no_child, lookup-missing, label_at-given,
}

-- The path is in the directory with the new node, the pointer is what dir_find_node finds there, and
-- every path with other levels finds what it found before.
pub record IsInserted (path name : List ℕ) (root : Dir) (added : Added) : Type 0 where
  pub found : dir_find_node path true added.root ≡ some added.pointer
  pub new : node_at path added.root ≡ some (new_node name)
  pub others : (q : List ℕ) → levels q ≢ levels path → node_at q added.root ≡ node_at q root

pub base_name-file_path :
    (dir : List (List ℕ)) (name : List ℕ)
    → All (λ c. c ≢ slash) name
    → base_name (path_of (dir ++ name ∷ [])) ≡ some name
base_name-file_path dir name h =
    ap base_name (path_of-append dir name) ∙ base_name-path_of (path_of dir) name h

others-edit :
    {ls : List (List ℕ)} {root e : Dir} {a : List ℕ} (name : List ℕ)
    → Leads ls root a e
    → (q : List ℕ) → levels q ≢ ls ++ name ∷ []
    → node_at q (edit a (add_child (new_node name)) root) ≡ node_at q root
others-edit name l q ne =
    node_at-levels q _ ∙ label_at-edit name l (levels q) ne ∙ sym (node_at-levels q _)

inserted :
    {dir : List (List ℕ)} {root e : Dir} {a : List ℕ} (name : List ℕ)
    → All IsName (dir ++ name ∷ [])
    → Leads dir root a e
    → find_child name e.children ≡ none
    → IsInserted (path_of (dir ++ name ∷ [])) name root (record {
      root = edit a (add_child (new_node name)) root;
      pointer = a ++ count e.children ∷ [];
    })
unfolding dir_find_node
inserted {dir} {root} {e} {a} name names l h =
    let split = levels-path_of (dir ++ name ∷ []) names in
    let way = Leads-new name l h in
    record {
      found =
          ap (λ ls. find_levels ls true (edit a (add_child (new_node name)) root)) split
          ∙ find_levels-found way;
      new = node_at-path_of _ _ names ∙ label_at-Leads way;
      others = λ q ne. others-edit name l q (λ z. ne (z ∙ sym split));
    }

-- If the directory of a path is there and the path is not, add_node puts a node there: dir_find_node
-- finds the returned pointer at the path, the node has the last name of the path, and every path with
-- other levels finds the node that it found before, or none as before.
pub add_node-inserts :
    (root : Dir) (dir : List (List ℕ)) (name : List ℕ)
    → All IsName dir
    → IsName name
    → node_at (path_of dir) root ≢ none
    → node_at (path_of (dir ++ name ∷ [])) root ≡ none
    → (added : Added) × ((add_node (path_of (dir ++ name ∷ [])) root ≡ some added)
        × IsInserted (path_of (dir ++ name ∷ [])) name root added)
add_node-inserts root dir name names is_name there missing =
    let all_names = All-append IsName dir (name ∷ []) names (is_name, tt) in
    let (a, e, l) = Led-there dir root names there in
    let free = no_child name l (sym (node_at-path_of _ root all_names) ∙ missing) in
    (
      _,
      (
        add_node-at _ name l name [] free (levels-path_of _ all_names)
            (base_name-file_path dir name is_name.no_slash),
        inserted name all_names l free,
      ),
    )

longer : (ls more : List (List ℕ)) (x y z : List ℕ) → ls ++ x ∷ (more ++ y ∷ []) ≢ ls ++ z ∷ []
longer ls more x y z h =
    let same = ap length h in
    omega (
      arith,
      same,
      length-append ls (x ∷ (more ++ y ∷ [])),
      length-append more (y ∷ []),
      length-append ls (z ∷ []),
    )

-- If a directory of a path is missing, add_node still adds a node for its last name: it hangs below the
-- last directory of the path that is there, where a path of that name finds a node afterwards, while
-- the path itself still finds nothing.
pub add_node-missing :
    (root : Dir) (dir : List (List ℕ)) (level : List ℕ) (more : List (List ℕ)) (name : List ℕ)
    → All IsName dir
    → IsName level
    → All IsName more
    → IsName name
    → node_at (path_of dir) root ≢ none
    → node_at (path_of (dir ++ level ∷ [])) root ≡ none
    → (added : Added) × ((add_node (path_of (dir ++ level ∷ (more ++ name ∷ []))) root ≡ some added)
        × ((node_at (path_of (dir ++ level ∷ (more ++ name ∷ []))) added.root ≡ none)
            × (node_at (path_of (dir ++ name ∷ [])) added.root ≢ none)))
add_node-missing root dir level more name dirs is_level mores is_name there missing =
    let rest = more ++ name ∷ [] in
    let rest_names = All-append IsName more (name ∷ []) mores (is_name, tt) in
    let all_names = All-append IsName dir (level ∷ rest) dirs (is_level, rest_names) in
    let level_names = All-append IsName dir (level ∷ []) dirs (is_level, tt) in
    let file_names = All-append IsName dir (name ∷ []) dirs (is_name, tt) in
    let split = levels-path_of (dir ++ level ∷ rest) all_names in
    let (a, e, l) = Led-there dir root dirs there in
    let stops = no_child level l (sym (node_at-path_of _ root level_names) ∙ missing) in
    let base =
      ap (λ ls. base_name (path_of ls)) (sym (append_assoc dir (level ∷ more) (name ∷ [])))
      ∙ base_name-file_path (dir ++ level ∷ more) name is_name.no_slash in
    (
      _,
      (
        add_node-at _ name l level rest stops split base,
        (
          others-edit name l _ (λ z. longer dir more level name name (sym split ∙ z))
              ∙ node_at-path_of _ root all_names
              ∙ lookup-missing l level rest stops,
          λ h. label_at-given name l (sym (node_at-path_of _ _ file_names) ∙ h),
        ),
      ),
    )
