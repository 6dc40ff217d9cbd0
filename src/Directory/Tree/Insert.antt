-- ===== src/Directory/Tree/Insert.antt =====
-- What add_node does.
use netpro_project.Prelude.{
  ℕ, ◌≡◌, ◌≢◌, refl, sym, ap, ◌∙◌, List, [], ◌∷◌, ◌++◌, inl, inr, Option, none, some,
}
use netpro_project.Directory.Path.{name_cases}
use netpro_project.Directory.Tree.{Node, Dir, find_child, edit, add_child, new_node}
use netpro_project.Directory.Tree.Find.{
  lookup, Finds→find_child, find_child_cases, edit_nth-Finds, find_child-other,
}
use netpro_project.Directory.Tree.Leads.{
  Leads, stop, step, edit-name, leaf, add_last-Finds, add_last-new, add_last-other,
}

abbrev pub label_of : Option Dir → Option Node
label_of none = none
label_of (some d) = some d.label

-- The node at the names, without what hangs below it.
abbrev pub label_at : List (List ℕ) → Dir → Option Node
label_at ls d = label_of (lookup ls d)

pub add_child-name : (x : Node) (d : Dir) → (add_child x d).label.name ≡ d.label.name
unfolding add_child
add_child-name x d = refl

lookup-leaf : (x : Node) (q : List (List ℕ)) → q ≢ [] → lookup q (leaf x) ≡ none
unfolding lookup find_child
lookup-leaf x [] ne = absurd (ne refl)
lookup-leaf x (level ∷ q) ne = refl

new_child-only :
    (name : List ℕ) (d : Dir) (q : List (List ℕ))
    → find_child name d.children ≡ none
    → q ≢ []
    → lookup (name ∷ q) (add_child (new_node name) d) ≡ none
unfolding lookup add_child
new_child-only name d q h ne =
    rw (Finds→find_child (add_last-new d.children (new_node name) h))
      (lookup-leaf (new_node name) q ne)

lookup-none :
    (level : List ℕ) (d : Dir) (q : List (List ℕ))
    → find_child level d.children ≡ none
    → lookup (level ∷ q) d ≡ none
unfolding lookup
lookup-none level d q h = rw h refl

-- Under the node that gets the child, only the child's own name is new.
label_at-add_child :
    (name : List ℕ) (d : Dir) (q : List (List ℕ))
    → q ≢ name ∷ []
    → label_at q (add_child (new_node name) d) ≡ label_at q d
unfolding lookup add_child
label_at-add_child name d [] ne = refl
label_at-add_child name d (level ∷ q) ne = elim (find_child_cases level d.children) [
  | inr (i, c, f) ↦
      rw (Finds→find_child f, Finds→find_child (add_last-Finds (new_node name) f)) refl
  | inl h ↦ elim (name_cases level name) [
    | inl e ↦ rw e (
        ap label_of (new_child-only name d q (rw e at h) (λ z. ne (rw (e, z) refl)))
        ∙ sym (ap label_of (lookup-none name d q (rw e at h))))
    | inr other ↦ rw (add_last-other level d.children (new_node name) (λ z. other (sym z))) refl
  ]
]

-- A change at the end of a way is seen at one place below that end only, if it is there itself.
pub label_at-edit_at :
    {ls : List (List ℕ)} {d e : Dir} {a : List ℕ} (f : Dir → Dir) (tail : List (List ℕ))
    → ((e : Dir) → (f e).label.name ≡ e.label.name)
    → ((e : Dir) (q : List (List ℕ)) → q ≢ tail → label_at q (f e) ≡ label_at q e)
    → Leads ls d a e
    → (q : List (List ℕ)) → q ≢ ls ++ tail
    → label_at q (edit a f d) ≡ label_at q d
unfolding lookup edit
label_at-edit_at f tail keep inside stop q ne = inside _ q ne
label_at-edit_at f tail keep inside (step w l) [] ne = refl
label_at-edit_at f tail keep inside (step {level} {ls} {d} {c} {e} {i} {a} w l) (m ∷ q) ne =
    let kept = edit-name a f c keep in
    elim (name_cases m level) [
      | inl same ↦
          rw (same, Finds→find_child w, Finds→find_child (edit_nth-Finds (edit a f) w kept))
            (label_at-edit_at f tail keep inside l q (λ z. ne (rw (same, z) refl)))
      | inr other ↦ rw (find_child-other (edit a f) w kept other) refl
    ]

pub label_at-edit :
    {ls : List (List ℕ)} {d e : Dir} {a : List ℕ} (name : List ℕ)
    → Leads ls d a e
    → (q : List (List ℕ)) → q ≢ ls ++ name ∷ []
    → label_at q (edit a (add_child (new_node name)) d) ≡ label_at q d
label_at-edit name l q ne =
    label_at-edit_at (add_child (new_node name)) (name ∷ []) (add_child-name (new_node name))
      (label_at-add_child name) l q ne
