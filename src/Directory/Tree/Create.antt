-- ===== src/Directory/Tree/Create.antt =====
-- add_node followed by dir_find_node, on paths as the protocol writes them.
use netpro_project.Prelude.{
  ℕ, ◌≡◌, ◌≢◌, refl, sym, ap, ◌∙◌, List, [], ◌∷◌, ◌++◌, ◌>>=◌, true, false, inl, inr, All, Option,
  none, some,
}
use netpro_project.Directory.Path.{levels, base_name, IsName, path_of, levels-path_of}
use netpro_project.Directory.Tree.{
  Node, Dir, find_child, walk, find_levels, dir_find_node, edit, target, add_child, new_node, count,
  add_node,
}
use netpro_project.Directory.Tree.Find.{lookup, Finds→find_child, find_child_cases}
use netpro_project.Directory.Tree.Leads.{
  Leads, stop, step, Led, lookup-Leads, walk-Leads, walk-missing, target-Leads, lookup_cases,
  edit-Leads, Leads-append, leaf, add_last-Finds, add_last-new,
}
use netpro_project.Directory.Tree.Insert.{label_of, label_at, add_child-name}

-- What stands in the node that dir_find_node finds at exactly this path.
abbrev pub node_at : List ℕ → Dir → Option Node
node_at path root = label_of (dir_find_node path true root >>= λ a. target a root)

find_levels-lookup :
    (ls : List (List ℕ)) (root : Dir)
    → (find_levels ls true root >>= λ a. target a root) ≡ lookup ls root
unfolding find_levels lookup target
find_levels-lookup [] root = refl
find_levels-lookup (level ∷ ls) root = elim (lookup_cases (level ∷ ls) root) [
  | inl (h, w) ↦ rw (w, h) refl
  | inr (a, e, l) ↦ rw (walk-Leads l, lookup-Leads l) (target-Leads l)
]

pub node_at-levels : (path : List ℕ) (root : Dir) → node_at path root ≡ label_at (levels path) root
unfolding dir_find_node
node_at-levels path root = ap label_of (find_levels-lookup (levels path) root)

-- Where the walk stops that does not look for an exact match.
find_levels-missing :
    {ls : List (List ℕ)} {root e : Dir} {a : List ℕ}
    → Leads ls root a e
    → (level : List ℕ) (more : List (List ℕ)) → find_child level e.children ≡ none
    → find_levels (ls ++ level ∷ more) false root ≡ some a
unfolding find_levels
find_levels-missing {ls = []} l level more h = rw (walk-missing l level more h) refl
find_levels-missing {ls = m ∷ ls} l level more h = rw (walk-missing l level more h) refl

-- What add_node comes to on a path that breaks off after the names `ls`.
pub add_node-at :
    {ls : List (List ℕ)} {root e : Dir} {a : List ℕ} (path name : List ℕ)
    → Leads ls root a e
    → (level : List ℕ) (more : List (List ℕ)) → find_child level e.children ≡ none
    → levels path ≡ ls ++ level ∷ more
    → base_name path ≡ some name
    → add_node path root
      ≡ some (record {
        root = edit a (add_child (new_node name)) root;
        pointer = a ++ count e.children ∷ [];
      })
unfolding add_node dir_find_node
add_node-at path name l level more h split base =
    rw (base, split, find_levels-missing l level more h, target-Leads l) refl

-- The way to the new node.
pub Leads-new :
    {ls : List (List ℕ)} {root e : Dir} {a : List ℕ} (name : List ℕ)
    → Leads ls root a e
    → find_child name e.children ≡ none
    → Leads
        (ls ++ name ∷ [])
        (edit a (add_child (new_node name)) root)
        (a ++ count e.children ∷ [])
        (leaf (new_node name))
unfolding add_child
Leads-new {e} name l h =
    Leads-append (edit-Leads (add_child (new_node name)) (add_child-name (new_node name)) l)
      (step (add_last-new e.children (new_node name) h) stop)

pub label_at-Leads :
    {ls : List (List ℕ)} {d e : Dir} {a : List ℕ} → Leads ls d a e → label_at ls d ≡ some e.label
label_at-Leads l = ap label_of (lookup-Leads l)

pub node_at-path_of :
    (names : List (List ℕ)) (root : Dir)
    → All IsName names
    → node_at (path_of names) root ≡ label_at names root
node_at-path_of names root h =
    node_at-levels (path_of names) root ∙ ap (λ ls. label_at ls root) (levels-path_of names h)

-- A directory that is there is led to.
pub Led-there :
    (names : List (List ℕ)) (root : Dir)
    → All IsName names
    → node_at (path_of names) root ≢ none
    → Led names root
Led-there names root h there = elim (lookup_cases names root) [
  | inl (none_there, w) ↦ absurd (there (node_at-path_of names root h ∙ ap label_of none_there))
  | inr led ↦ led
]

pub some≢none : {x : Node} → some x ≢ none
some≢none h = cc

-- A name that is not there under a directory is no child of it.
pub no_child :
    {names : List (List ℕ)} {root e : Dir} {a : List ℕ} (name : List ℕ)
    → Leads names root a e
    → label_at (names ++ name ∷ []) root ≡ none
    → find_child name e.children ≡ none
no_child name l h = elim (find_child_cases name _) [
  | inl missing ↦ missing
  | inr (i, c, f) ↦
      let found = label_at-Leads (Leads-append l (step f stop)) in
      absurd (some≢none (sym found ∙ h))
]

pub find_levels-found :
    {ls : List (List ℕ)} {root e : Dir} {a : List ℕ}
    → Leads ls root a e
    → find_levels ls true root ≡ some a
unfolding find_levels
find_levels-found {ls = []} stop = refl
find_levels-found {ls = m ∷ ls} l = rw (walk-Leads l) refl

pub lookup-missing :
    {ls : List (List ℕ)} {d e : Dir} {a : List ℕ}
    → Leads ls d a e
    → (level : List ℕ) (more : List (List ℕ)) → find_child level e.children ≡ none
    → label_at (ls ++ level ∷ more) d ≡ none
unfolding lookup
lookup-missing stop level more h = rw h refl
lookup-missing (step f l) level more h = rw (Finds→find_child f) (lookup-missing l level more h)

-- Below the node that got a child of this name there is one, new or old.
pub label_at-given :
    {ls : List (List ℕ)} {root e : Dir} {a : List ℕ} (name : List ℕ)
    → Leads ls root a e
    → label_at (ls ++ name ∷ []) (edit a (add_child (new_node name)) root) ≢ none
unfolding add_child
label_at-given {e} name l = elim (find_child_cases name e.children) [
  | inl free ↦ λ h. some≢none (sym (label_at-Leads (Leads-new name l free)) ∙ h)
  | inr (i, c, f) ↦
      let kept = edit-Leads (add_child (new_node name)) (add_child-name (new_node name)) l in
      let way = Leads-append kept (step (add_last-Finds (new_node name) f) stop) in
      λ h. some≢none (sym (label_at-Leads way) ∙ h)
]

pub find_levels-none :
    (ls : List (List ℕ)) (root : Dir) → (walk ls root).n ≡ none → find_levels ls true root ≡ none
unfolding find_levels
find_levels-none [] root h = h
find_levels-none (level ∷ ls) root h = h
