-- ===== src/Directory/Path.antt =====
-- Paths as the directory server cuts them up: strtok(path, "/"), strrchr(path, '/') and strcmp.
-- A C string is the list of its bytes, without the NUL.
use netpro_project.Prelude.{
  ℕ, ◌≡◌, ◌≢◌, refl, sym, ap, ◌∙◌, append-nil, append_assoc, List, [], ◌∷◌, ◌++◌, Bool, true, false,
  Bool-cases, ◌⊎◌, inl, inr, ◌&&◌, ◌==◌, ==_iff, Option, none, some, All, if◌then◌else◌, arith,
}

abbrev pub slash : ℕ
slash = 0x2f

-- The token that begins here, and the tokens of the text behind it.
pub record Cut : Type 0 where
  pub token : List ℕ
  pub rest : List (List ℕ)

-- A token that is put in front of the others, unless it is empty.
abbrev pub add_token : List ℕ → List (List ℕ) → List (List ℕ)
add_token [] ts = ts
add_token (c ∷ cs) ts = (c ∷ cs) ∷ ts

abbrev pub cut_step : ℕ → Cut → Cut
cut_step c r =
    if c == slash
    then record { token = []; rest = add_token r.token r.rest }
    else record { token = c ∷ r.token; rest = r.rest }

unfoldable pub cut : List ℕ → Cut
cut [] = record { token = []; rest = [] }
cut (c ∷ cs) = cut_step c (cut cs)

-- The levels that repeated calls of strtok(path, "/") return: no level is empty.
unfoldable pub levels : List ℕ → List (List ℕ)
unfolding cut
levels path = let r = cut path in add_token r.token r.rest

-- strrchr(path, '/') + 1, if there is a slash
unfoldable pub base_name : List ℕ → Option (List ℕ)
base_name [] = none
base_name (c ∷ cs) = elim (base_name cs) [
  | some name ↦ some name
  | none ↦ if c == slash then some cs else none
]

-- !strcmp(a, b)
unfoldable pub same_name : List ℕ → List ℕ → Bool
same_name [] [] = true
same_name [] (b ∷ u) = false
same_name (a ∷ t) [] = false
same_name (a ∷ t) (b ∷ u) = (a == b) && same_name t u

pub same_name_refl : (a : List ℕ) → same_name a a ≡ true
unfolding same_name
same_name_refl [] = refl
same_name_refl (a ∷ t) = rw ((==_iff a a).1 refl) (same_name_refl t)

pub same_name_sound : (a b : List ℕ) → same_name a b ≡ true → a ≡ b
unfolding same_name
same_name_sound [] [] h = refl
same_name_sound [] (b ∷ u) h = cc
same_name_sound (a ∷ t) [] h = cc
same_name_sound (a ∷ t) (b ∷ u) h = elim (Bool-cases (a == b)) [
  | inl e ↦
      let tail = same_name_sound t u (rw e at h) in
      rw ((==_iff a b).0 e) (ap {B = List ℕ} (λ s. b ∷ s) tail)
  | inr e ↦ ground arith
]

pub name_cases : (a b : List ℕ) → (a ≡ b) ⊎ (a ≢ b)
name_cases a b = elim (Bool-cases (same_name a b)) [
  | inl e ↦ inl (same_name_sound a b e)
  | inr e ↦ inr (λ q. let same = same_name_refl b in cc)
]

-- The same names in the same order.
unfoldable pub same_names : List (List ℕ) → List (List ℕ) → Bool
unfolding same_name
same_names [] [] = true
same_names [] (b ∷ u) = false
same_names (a ∷ t) [] = false
same_names (a ∷ t) (b ∷ u) = same_name a b && same_names t u

pub same_names_refl : (a : List (List ℕ)) → same_names a a ≡ true
unfolding same_names
same_names_refl [] = refl
same_names_refl (a ∷ t) = rw (same_name_refl a) (same_names_refl t)

pub same_names_sound : (a b : List (List ℕ)) → same_names a b ≡ true → a ≡ b
unfolding same_names
same_names_sound [] [] h = refl
same_names_sound [] (b ∷ u) h = cc
same_names_sound (a ∷ t) [] h = cc
same_names_sound (a ∷ t) (b ∷ u) h = elim (Bool-cases (same_name a b)) [
  | inl e ↦
      let tail = same_names_sound t u (rw e at h) in
      rw (same_name_sound a b e) (ap {B = List (List ℕ)} (λ s. b ∷ s) tail)
  | inr e ↦ let wrong = (rw e at h) in cc
]

-- A name of a file or a directory: not empty, and without a slash.
pub record IsName (name : List ℕ) : Type 0 where
  pub not_empty : name ≢ []
  pub no_slash : All (λ c. c ≢ slash) name

-- The path "/a/b/c" of the names a, b, c.
abbrev pub path_of : List (List ℕ) → List ℕ
path_of [] = []
path_of (name ∷ names) = slash ∷ name ++ path_of names

cut-name :
    (name path : List ℕ)
    → All (λ c. c ≢ slash) name
    → cut (name ++ path) ≡ record { token = name ++ (cut path).token; rest = (cut path).rest }
unfolding cut
cut-name [] path h = refl
cut-name (c ∷ cs) path (h, hs) = rw (cut-name cs path hs) (ground arith)

add_token-name : (name : List ℕ) (ts : List (List ℕ)) → name ≢ [] → add_token name ts ≡ name ∷ ts
add_token-name [] ts h = absurd (h refl)
add_token-name (c ∷ cs) ts h = refl

cut-path_of :
    (names : List (List ℕ))
    → All IsName names
    → cut (path_of names) ≡ record { token = []; rest = names }
unfolding cut
cut-path_of [] h = refl
cut-path_of (name ∷ names) (h, hs) =
    rw
      (
        cut-name name (path_of names) h.no_slash,
        cut-path_of names hs,
        append-nil name,
        add_token-name name names h.not_empty,
      )
      refl

-- The levels of "/a/b/c" are a, b, c.
pub levels-path_of : (names : List (List ℕ)) → All IsName names → levels (path_of names) ≡ names
unfolding levels
levels-path_of names h = rw (cut-path_of names h) refl

base_name-none : (name : List ℕ) → All (λ c. c ≢ slash) name → base_name name ≡ none
unfolding base_name
base_name-none [] h = refl
base_name-none (c ∷ cs) (h, hs) = rw (base_name-none cs hs) (ground arith)

base_name-append :
    (front back name : List ℕ) → base_name back ≡ some name → base_name (front ++ back) ≡ some name
unfolding base_name
base_name-append [] back name h = h
base_name-append (c ∷ front) back name h = rw (base_name-append front back name h) refl

-- The last name of a path.
pub base_name-path_of :
    (front : List ℕ) (name : List ℕ)
    → All (λ c. c ≢ slash) name
    → base_name (front ++ slash ∷ name) ≡ some name
unfolding base_name
base_name-path_of front name h =
    base_name-append front (slash ∷ name) name (rw (base_name-none name h) refl)

pub path_of-append :
    (names : List (List ℕ)) (name : List ℕ)
    → path_of (names ++ name ∷ []) ≡ path_of names ++ slash ∷ name
path_of-append [] name = ap {B = List ℕ} (λ t. slash ∷ t) (append-nil name)
path_of-append (n ∷ names) name =
    ap {B = List ℕ} (λ t. slash ∷ (n ++ t)) (path_of-append names name)
    ∙ ap {B = List ℕ} (λ t. slash ∷ t) (sym (append_assoc n (path_of names) (slash ∷ name)))
