-- ===== src/Directory/Tree/Find.antt =====
-- What dir_find_node finds: the nodes that the names of a path lead to.
use netpro_project.Prelude.{
  ℕ, suc, ◌≡◌, ◌≢◌, refl, sym, ◌∙◌, List, [], ◌∷◌, ◌>>=◌, true, false, Bool-cases, ◌⊎◌, inl, inr,
  Option, none, some,
}
use netpro_project.Directory.Path.{same_name, same_name_sound}
use netpro_project.Directory.Tree.{Node, Forest, null, node, Dir, find_child, edit_nth, nth}

-- The directory as a function from the names on the way to the node there.
unfoldable pub lookup : List (List ℕ) → Dir → Option Dir
unfolding find_child
lookup [] d = some d
lookup (level ∷ ls) d = find_child level d.children >>= λ c. lookup ls c.dir

-- The first child of that name: its position and what hangs below it.
pub data Finds (level : List ℕ) : Forest → ℕ → Dir → Type 0 where
  here :
      {x : Node} {children next : Forest}
      → same_name x.name level ≡ true
      → Finds level (node x children next) 0 (record { label = x; children = children })
  there :
      {x : Node} {children next : Forest} {i : ℕ} {d : Dir}
      → same_name x.name level ≡ false
      → Finds level next i d
      → Finds level (node x children next) (suc i) d

pub Finds→find_child :
    {level : List ℕ} {t : Forest} {i : ℕ} {d : Dir}
    → Finds level t i d
    → find_child level t ≡ some (record { index = i; dir = d })
unfolding find_child
Finds→find_child (here e) = rw e refl
Finds→find_child (there e f) = rw (e, Finds→find_child f) refl

-- A child that is found, or none.
abbrev pub Found : List ℕ → Forest → Type 0
Found level t = (i : ℕ) × (d : Dir) × Finds level t i d

Found-later :
    {level : List ℕ} {x : Node} {children next : Forest}
    → same_name x.name level ≡ false
    → (find_child level next ≡ none) ⊎ Found level next
    → (find_child level (node x children next) ≡ none) ⊎ Found level (node x children next)
unfolding find_child
Found-later e (inl h) = inl (rw (e, h) refl)
Found-later e (inr (i, d, f)) = inr (suc i, d, there e f)

pub find_child_cases : (level : List ℕ) (t : Forest) → (find_child level t ≡ none) ⊎ Found level t
unfolding find_child
find_child_cases level null = inl refl
find_child_cases level (node x children next) = elim (Bool-cases (same_name x.name level)) [
  | inl e ↦ inr (0, _, here e)
  | inr e ↦ Found-later e (find_child_cases level next)
]

pub Finds-name :
    {level : List ℕ} {t : Forest} {i : ℕ} {d : Dir} → Finds level t i d → d.label.name ≡ level
Finds-name (here e) = same_name_sound _ _ e
Finds-name (there e f) = Finds-name f

pub nth-Finds :
    {level : List ℕ} {t : Forest} {i : ℕ} {d : Dir} → Finds level t i d → nth i t ≡ some d
unfolding nth
nth-Finds (here e) = refl
nth-Finds (there e f) = nth-Finds f

pub same_name-other : (a b : List ℕ) → a ≢ b → same_name a b ≡ false
same_name-other a b ne = elim (Bool-cases (same_name a b)) [
  | inl e ↦ absurd (ne (same_name_sound a b e))
  | inr e ↦ e
]

module _ {level : List ℕ} (f : Dir → Dir) where
  -- A change of the child that is found, which keeps its name.
  pub edit_nth-Finds :
      {t : Forest} {i : ℕ} {d : Dir}
      → Finds level t i d
      → (f d).label.name ≡ d.label.name
      → Finds level (edit_nth i f t) i (f d)
  unfolding edit_nth
  edit_nth-Finds (here e) keep = here (rw keep e)
  edit_nth-Finds (there e h) keep = there e (edit_nth-Finds h keep)

  pub find_child-other :
      {other : List ℕ} {t : Forest} {i : ℕ} {d : Dir}
      → Finds level t i d
      → (f d).label.name ≡ d.label.name
      → other ≢ level
      → find_child other (edit_nth i f t) ≡ find_child other t
  unfolding find_child edit_nth
  find_child-other (here e) keep ne =
      rw (keep, same_name-other _ _ (λ q. ne (sym q ∙ same_name_sound _ _ e))) refl
  find_child-other (there e h) keep ne = rw (find_child-other h keep ne) refl
