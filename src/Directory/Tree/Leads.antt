-- ===== src/Directory/Tree/Leads.antt =====
-- The way that dir_find_node takes through the tree, and what add_child changes beside it.
use netpro_project.Prelude.{
  ℕ, ◌≡◌, ◌≢◌, refl, List, [], ◌∷◌, ◌++◌, Bool-cases, ◌⊎◌, inl, inr, Option, none, some,
}
use netpro_project.Directory.Path.{same_name, same_name_refl}
use netpro_project.Directory.Tree.{
  Node, Forest, null, node, Dir, Child, later, find_child, walk, edit, target, add_last, count,
}
use netpro_project.Directory.Tree.Find.{
  lookup, Finds, here, there, Finds→find_child, find_child_cases, nth-Finds, edit_nth-Finds,
  same_name-other,
}

-- The names lead from a node, by a pointer, to another.
pub data Leads : List (List ℕ) → Dir → List ℕ → Dir → Type 0 where
  stop : {d : Dir} → Leads [] d [] d
  step :
      {level : List ℕ} {ls : List (List ℕ)} {d c e : Dir} {i : ℕ} {a : List ℕ}
      → Finds level d.children i c
      → Leads ls c a e
      → Leads (level ∷ ls) d (i ∷ a) e

abbrev pub Led : List (List ℕ) → Dir → Type 0
Led ls d = (a : List ℕ) × (e : Dir) × Leads ls d a e

pub walk-Leads :
    {ls : List (List ℕ)} {d e : Dir} {a : List ℕ}
    → Leads ls d a e
    → walk ls d ≡ record { n = some a; p = a }
unfolding walk
walk-Leads stop = refl
walk-Leads (step f l) = rw (Finds→find_child f, walk-Leads l) refl

pub lookup-Leads :
    {ls : List (List ℕ)} {d e : Dir} {a : List ℕ} → Leads ls d a e → lookup ls d ≡ some e
unfolding lookup
lookup-Leads stop = refl
lookup-Leads (step f l) = rw (Finds→find_child f) (lookup-Leads l)

pub target-Leads :
    {ls : List (List ℕ)} {d e : Dir} {a : List ℕ} → Leads ls d a e → target a d ≡ some e
unfolding target
target-Leads stop = refl
target-Leads (step f l) = rw (nth-Finds f) (target-Leads l)

-- The walk breaks off at the first name that is no child.
pub walk-missing :
    {ls : List (List ℕ)} {d e : Dir} {a : List ℕ}
    → Leads ls d a e
    → (level : List ℕ) (more : List (List ℕ)) → find_child level e.children ≡ none
    → walk (ls ++ level ∷ more) d ≡ record { n = none; p = a }
unfolding walk
walk-missing stop level more h = rw h refl
walk-missing (step f l) level more h = rw (Finds→find_child f, walk-missing l level more h) refl

-- The names lead somewhere, or neither the walk nor the lookup finds them.
pub lookup_cases :
    (ls : List (List ℕ)) (d : Dir) → ((lookup ls d ≡ none) × ((walk ls d).n ≡ none)) ⊎ Led ls d
unfolding lookup walk
lookup_cases [] d = inr ([], d, stop)
lookup_cases (level ∷ ls) d = elim (find_child_cases level d.children) [
  | inl h ↦ inl (rw h refl, rw h refl)
  | inr (i, c, f) ↦ elim (lookup_cases ls c) [
    | inl (h, w) ↦ inl (rw (Finds→find_child f) h, rw (Finds→find_child f, w) refl)
    | inr (a, e, l) ↦ inr (i ∷ a, e, step f l)
  ]
]

pub edit-name :
    (a : List ℕ) (f : Dir → Dir) (d : Dir)
    → ((e : Dir) → (f e).label.name ≡ e.label.name)
    → (edit a f d).label.name ≡ d.label.name
unfolding edit
edit-name [] f d keep = keep d
edit-name (i ∷ a) f d keep = refl

-- A change at the end of the way leaves the way as it is.
pub edit-Leads :
    {ls : List (List ℕ)} {d e : Dir} {a : List ℕ} (f : Dir → Dir)
    → ((e : Dir) → (f e).label.name ≡ e.label.name)
    → Leads ls d a e
    → Leads ls (edit a f d) a (f e)
unfolding edit
edit-Leads f keep stop = stop
edit-Leads f keep (step {level} {ls} {d} {c} {e} {i} {a} h l) =
    step (edit_nth-Finds (edit a f) h (edit-name a f c keep)) (edit-Leads f keep l)

-- Leads can go on.
pub Leads-append :
    {ls more : List (List ℕ)} {d e g : Dir} {a b : List ℕ}
    → Leads ls d a e
    → Leads more e b g
    → Leads (ls ++ more) d (a ++ b) g
Leads-append stop m = m
Leads-append (step f l) m = step f (Leads-append l m)

abbrev pub leaf : Node → Dir
leaf x = record { label = x; children = null }

pub add_last-Finds :
    {level : List ℕ} {t : Forest} {i : ℕ} {d : Dir} (x : Node)
    → Finds level t i d
    → Finds level (add_last t x) i d
unfolding add_last
add_last-Finds x (here e) = here e
add_last-Finds x (there e f) = there e (add_last-Finds x f)

later-none : (o : Option Child) → later o ≡ none → o ≡ none
later-none none h = refl
later-none (some c) h = cc

pub add_last-new :
    (t : Forest) (x : Node)
    → find_child x.name t ≡ none
    → Finds x.name (add_last t x) (count t) (leaf x)
unfolding add_last find_child
add_last-new null x h = here (same_name_refl x.name)
add_last-new (node y children next) x h = elim (Bool-cases (same_name y.name x.name)) [
  | inl e ↦ let found = (rw e at h) in cc
  | inr e ↦ there e (add_last-new next x (later-none _ (rw e at h)))
]

pub add_last-other :
    (level : List ℕ) (t : Forest) (x : Node)
    → x.name ≢ level
    → find_child level (add_last t x) ≡ find_child level t
unfolding add_last find_child
add_last-other level null x ne = rw (same_name-other x.name level ne) refl
add_last-other level (node y children next) x ne = rw (add_last-other level next x ne) refl
