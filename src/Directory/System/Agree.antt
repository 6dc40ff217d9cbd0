-- ===== src/Directory/System/Agree.antt =====
-- When the state of the directory server of src/fsdird.c and the abstract directory agree, and what
-- dir_find_node finds then.
use netpro_project.Prelude.{
  ℕ, ◌≡◌, ◌≢◌, refl, ◌∙◌, List, [], ◌∷◌, ◌++◌, true, false, Bool-cases, ◌⊎◌, inl, inr, All, Option,
  none, some, arith,
}
use mathlib.Core.Path.{subst}
use netpro_project.Directory.Path.{
  IsName, path_of, levels-path_of, same_names, same_names_refl, same_names_sound,
}
use netpro_project.Directory.Tree.{Node, Dir, dir_find_node, target}
use netpro_project.Directory.Tree.Leads.{Leads, lookup_cases}
use netpro_project.Directory.Tree.Insert.{label_at}
use netpro_project.Directory.Tree.Create.{find_levels-found, find_levels-none, label_at-Leads}
use netpro_project.Directory.Handlers.{Server, strndup, address_of}
use netpro_project.Directory.System.{
  Request, creates, updates, replicas, Directory, Nodes, put, Step, next, stuck, fileserv_address,
  transition,
}

-- The state of the server and the abstract one agree.
pub record Refines (s : Server) (a : Directory) : Type 0 where
  pub same_nodes : (q : List (List ℕ)) → label_at q s.dirroot ≡ a.nodes q
  pub same_held : s.dirlock ≡ a.held
  pub same_table : s.fileservers ≡ a.table

-- Names that can be sent in a path.
pub record IsPath (names : List (List ℕ)) : Type 0 where
  pub are_names : All IsName names
  pub no_nul : All (λ c. c ≢ 0) (path_of names)

-- The names of a request can be sent; a file is created in a directory that is there.
abbrev pub Legal : Request → Directory → Type 0
Legal (creates i info dir name) a =
    All IsName dir
    × (IsName name × (All (λ c. c ≢ 0) (path_of (dir ++ name ∷ [])) × (a.nodes dir ≢ none)))
Legal (updates i info names) a = All IsName names
Legal (replicas i info names) a = All IsName names

module _ (heap fsid : ℕ) where
  abbrev pub LegalAfter : Step → (Directory → Type 0) → Type 0
  LegalAfter (next a msg) rest = rest a
  LegalAfter stuck rest = Unit {0}

  abbrev pub AllLegal : List Request → Directory → Type 0
  AllLegal [] a = Unit {0}
  AllLegal (r ∷ rs) a = Legal r a × LegalAfter (transition heap fsid r a) (AllLegal rs)

pub strndup-All : (text : List ℕ) → All (λ c. c ≢ 0) text → strndup text ≡ text
unfolding strndup
strndup-All [] h = refl
strndup-All (c ∷ cs) (h, hs) = rw (strndup-All cs hs) (ground arith)

same_names-other : (a b : List (List ℕ)) → a ≢ b → same_names a b ≡ false
same_names-other a b ne = elim (Bool-cases (same_names a b)) [
  | inl e ↦ absurd (ne (same_names_sound a b e))
  | inr e ↦ e
]

names_cases : (a b : List (List ℕ)) → (a ≡ b) ⊎ (a ≢ b)
names_cases a b = elim (Bool-cases (same_names a b)) [
  | inl e ↦ inl (same_names_sound a b e)
  | inr e ↦ inr (λ q. let same = same_names_refl b in cc)
]

pub put-Refines :
    {nodes : Nodes} (root after : Dir) (names : List (List ℕ)) (x : Node)
    → ((q : List (List ℕ)) → label_at q root ≡ nodes q)
    → label_at names after ≡ some x
    → ((q : List (List ℕ)) → q ≢ names → label_at q after ≡ label_at q root)
    → (q : List (List ℕ)) → label_at q after ≡ put names x nodes q
unfolding put
put-Refines root after names x same at others q = elim (names_cases q names) [
  | inl e ↦ rw (e, same_names_refl names) at
  | inr ne ↦ rw (same_names-other q names ne) (others q ne ∙ same q)
]

-- What dir_find_node finds at the names, by what the abstract directory holds there.
abbrev pub Lookup : List (List ℕ) → Dir → Option Node → Type 0
Lookup names root none = dir_find_node (path_of names) true root ≡ none
Lookup names root (some x) =
    (n : List ℕ) × ((e : Dir) × (Leads names root n e
        × ((dir_find_node (path_of names) true root ≡ some n) × (e.label ≡ x))))

find-Lookup :
    (names : List (List ℕ)) (root : Dir)
    → All IsName names
    → Lookup names root (label_at names root)
unfolding dir_find_node
find-Lookup names root h = elim (lookup_cases names root) [
  | inl (gone, w) ↦ rw (gone, levels-path_of names h) (find_levels-none names root w)
  | inr (n, e, l) ↦
      rw (label_at-Leads l) (n, (e, (l, (rw (levels-path_of names h) (find_levels-found l), refl))))
]

module _ (s : Server) (a : Directory) (same : Refines s a) where
  pub find-Refines :
      (names : List (List ℕ)) (o : Option Node)
      → All IsName names
      → a.nodes names ≡ o
      → Lookup names s.dirroot o
  find-Refines names o h e =
      subst (λ o. Lookup names s.dirroot o) (same.same_nodes names ∙ e)
        (find-Lookup names s.dirroot h)

  pub free-Refines : a.held ≡ false → s.dirlock ≡ false
  free-Refines h = same.same_held ∙ h

  pub address-Refines :
      (n : List ℕ) (e : Dir) (x : Node)
      → target n s.dirroot ≡ some e
      → e.label ≡ x
      → address_of s n ≡ fileserv_address a.table x
  unfolding address_of
  address-Refines n e x there label = rw (there, label, same.same_table) refl
