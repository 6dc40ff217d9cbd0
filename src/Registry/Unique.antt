-- ===== src/Registry/Unique.antt =====
-- The ids in a table of connections are different.
use netpro_project.Prelude.{
  ℕ, suc, ◌+◌, ◌<◌, ◌≤◌, ◌≡◌, ◌≢◌, refl, ◌⊎◌, inl, inr, ◌==◌, ==_iff, length, List, [], ◌∷◌, All,
  get_elem?, false, Bool-cases, none, some, arith,
}
use netpro_project.Registry.{claim}

module _ {A : Type 0} (id_of : A → ℕ) (put : A → A) where
  pub data Claims : List A → ℕ → List A → Type 0 where
    here : {x : A} {xs : List A} → id_of x ≡ 0 → Claims (x ∷ xs) 0 (put x ∷ xs)
    there :
        {x : A} {xs t : List A} {i : ℕ}
        → id_of x ≢ 0
        → Claims xs i t
        → Claims (x ∷ xs) (suc i) (x ∷ t)

  abbrev pub Claimed : List A → Type 0
  Claimed xs = (i : ℕ) × ((t : List A) × ((claim id_of put xs ≡ some (i, t)) × Claims xs i t))

  later_cases :
      (x : A) (xs : List A)
      → (id_of x == 0) ≡ false
      → ((claim id_of put xs ≡ none) × All (λ x. id_of x ≢ 0) xs) ⊎ Claimed xs
      → ((claim id_of put (x ∷ xs) ≡ none) × All (λ x. id_of x ≢ 0) (x ∷ xs)) ⊎ Claimed (x ∷ xs)
  unfolding claim
  later_cases x xs e (inl (h, all)) = inl (rw (e, h) refl, (ground arith, all))
  later_cases x xs e (inr (i, (t, (h, c)))) =
      inr (suc i, (x ∷ t, (rw (e, h) refl, there (ground arith) c)))

  pub claim_cases :
      (xs : List A) → ((claim id_of put xs ≡ none) × All (λ x. id_of x ≢ 0) xs) ⊎ Claimed xs
  unfolding claim
  claim_cases [] = inl (refl, tt)
  claim_cases (x ∷ xs) = elim (Bool-cases (id_of x == 0)) [
    | inl e ↦ inr (0, (put x ∷ xs, (rw e refl, here ((==_iff (id_of x) 0).0 e))))
    | inr e ↦ later_cases x xs e (claim_cases xs)
  ]

  -- A property of all entries that also holds of what is put.
  pub All-Claims :
      (P : A → Type 0) {xs t : List A} {i : ℕ}
      → ((x : A) → P (put x))
      → Claims xs i t
      → All P xs
      → All P t
  All-Claims P h (here e) (p, ps) = (h _, ps)
  All-Claims P h (there e c) (p, ps) = (p, All-Claims P h c ps)

  pub Claims-get_elem? :
      {xs t : List A} {i : ℕ} → Claims xs i t → (x : A) × (get_elem? t i ≡ some (put x))
  Claims-get_elem? (here {x} e) = (x, refl)
  Claims-get_elem? (there e c) = Claims-get_elem? c

  -- Different ids, up to 0.
  abbrev pub Apart : A → A → Type 0
  Apart x y = (id_of x ≡ 0) ⊎ (id_of x ≢ id_of y)

  abbrev pub Unique : List A → Type 0
  Unique [] = Unit {0}
  Unique (x ∷ xs) = All (Apart x) xs × Unique xs

  All-map : {P Q : A → Type 0} (xs : List A) → ((x : A) → P x → Q x) → All P xs → All Q xs
  All-map [] f h = tt
  All-map (x ∷ xs) f (h, hs) = (f x h, All-map xs f hs)

  module _ (n : ℕ) (fresh : (x : A) → n < id_of (put x)) where
    Apart-put : (x y : A) → id_of y ≤ n → Apart (put x) y
    Apart-put x y h = inr (λ e. let f = fresh x in omega arith)

    put-Apart : (x y : A) → id_of x ≤ n → Apart x (put y)
    put-Apart x y h = inr (λ e. let f = fresh y in omega arith)

    pub Unique-Claims :
        {xs t : List A} {i : ℕ} → Claims xs i t → All (λ x. id_of x ≤ n) xs → Unique xs → Unique t
    Unique-Claims (here {x} {xs} e) (_, small) (_, u) =
        (All-map xs (λ y h. Apart-put x y h) small, u)
    Unique-Claims (there {x} e c) (le, small) (a, u) =
        (All-Claims (Apart x) (λ y. put-Apart x y le) c a, Unique-Claims c small u)

  pub All-weaken : (n : ℕ) (xs : List A) → All (λ x. id_of x ≤ n) xs → All (λ x. id_of x ≤ n + 1) xs
  All-weaken n xs h = All-map xs (λ x le. omega arith) h

pub claim-none :
    {A : Type 0} (id_of : A → ℕ) (put : A → A) (xs : List A)
    → All (λ x. id_of x ≢ 0) xs
    → claim id_of put xs ≡ none
unfolding claim
claim-none id_of put [] h = refl
claim-none id_of put (x ∷ xs) (h, hs) =
    let e : (id_of x == 0) ≡ false = ground arith in rw (e, claim-none id_of put xs hs) refl

pub get_elem?-length : {A : Type 0} (xs : List A) → get_elem? xs (length xs) ≡ none
get_elem?-length [] = refl
get_elem?-length (x ∷ xs) = get_elem?-length xs
