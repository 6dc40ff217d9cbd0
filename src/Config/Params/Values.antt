-- ===== src/Config/Params/Values.antt =====
-- The values that a file of comments and settings gives to the parameters, said without the code of
-- read_config.
use netpro_project.Prelude.{
  ℕ, suc, ◌+◌, ◌<◌, ◌≡◌, refl, sym, ap, ◌∙◌, ◌==◌, if◌then◌else◌, List, [], ◌∷◌, length, map, All,
  Bool, true, false, Bool-cases, inl, inr, Option, some, arith,
}
use netpro_project.Directory.Path.{same_name, same_name_sound}
use netpro_project.Config.Lines.{Fits, file_of}
use netpro_project.Config.Params.{
  Param, blank, has_param, store_value, Reading, configured, exits, read_config,
}
use netpro_project.Config.Params.Settings.{
  ConfigLine, comment, setting, text_of, IsConfigLine, settings, read_config-settings,
}

-- The value that the last setting of a name gives it, or the one that it had before.
unfoldable pub value_after : List ConfigLine → List ℕ → Option (List ℕ) → Option (List ℕ)
unfolding same_name
value_after [] name before = before
value_after (comment text ∷ lines) name before = value_after lines name before
value_after (setting set gap value ∷ lines) name before =
    value_after lines name (if same_name name set then some value else before)

-- Whether a name is in a list, and how many settings have a name of the list.
unfoldable pub is_among : List (List ℕ) → List ℕ → Bool
unfolding same_name
is_among [] name = false
is_among (n ∷ ns) name = if same_name n name then true else is_among ns name

unfoldable pub settings_of : List ConfigLine → List (List ℕ) → ℕ
unfolding is_among
settings_of [] names = 0
settings_of (comment text ∷ lines) names = settings_of lines names
settings_of (setting set gap value ∷ lines) names =
    let others = settings_of lines names in if is_among names set then 1 + others else others

abbrev pub names_of : List Param → List (List ℕ)
names_of params = map (λ p. p.name) params

abbrev pub valued : List ConfigLine → Param → Param
valued lines p = record { name = p.name; value = value_after lines p.name p.value }

-- The names are different.
abbrev pub Different : List Param → Type 0
Different [] = Unit {0}
Different (p ∷ ps) = (is_among (names_of ps) p.name ≡ false) × Different ps

-- The value of a setting does not start with a blank or a tab.
abbrev pub OneGap : ConfigLine → Type 0
OneGap (setting name gap (c ∷ value)) = blank c ≡ false
OneGap line = Unit {0}

has_param-is_among :
    (name : List ℕ) (params : List Param) → has_param name params ≡ is_among (names_of params) name
unfolding has_param is_among
has_param-is_among name [] = refl
has_param-is_among name (p ∷ ps) = rw (has_param-is_among name ps) refl

names_of-store_value :
    (name value : List ℕ) (params : List Param)
    → names_of (store_value name value params) ≡ names_of params
unfolding store_value
names_of-store_value name value [] = refl
names_of-store_value name value (p ∷ ps) = elim (Bool-cases (same_name p.name name)) [
  | inl e ↦ rw e refl
  | inr e ↦ rw e (ap (λ t. p.name ∷ t) (names_of-store_value name value ps))
]

store_value-Different :
    (name value : List ℕ) (params : List Param)
    → Different params
    → Different (store_value name value params)
unfolding store_value
store_value-Different name value [] d = tt
store_value-Different name value (p ∷ ps) (first, d) = elim (Bool-cases (same_name p.name name)) [
  | inl e ↦ rw e (first, d)
  | inr e ↦ rw e (
    ap (λ t. is_among t p.name) (names_of-store_value name value ps) ∙ first,
    store_value-Different name value ps d,
  )
]

module _ (lines : List ConfigLine) (set : List ℕ) (gap : ℕ) (value : List ℕ) where
  -- A setting of another name changes nothing.
  valued-other :
      (ps : List Param)
      → is_among (names_of ps) set ≡ false
      → map (valued (setting set gap value ∷ lines)) ps ≡ map (valued lines) ps
  unfolding is_among value_after
  valued-other [] other = refl
  valued-other (p ∷ ps) other = elim (Bool-cases (same_name p.name set)) [
    | inl e ↦ (let clash : true ≡ false = (rw e at other) in cc)
    | inr e ↦ rw e (ap (λ t. valued lines p ∷ t) (valued-other ps (rw e at other)))
  ]

  -- A setting of a name that is there is the store of its value in front of the other lines.
  valued-store_value :
      (ps : List Param)
      → Different ps
      → is_among (names_of ps) set ≡ true
      → map (valued lines) (store_value set value ps)
        ≡ map (valued (setting set gap value ∷ lines)) ps
  unfolding is_among value_after store_value
  valued-store_value [] d there = cc
  valued-store_value (p ∷ ps) (first, d) there = elim (Bool-cases (same_name p.name set)) [
    | inl e ↦
        let rest : is_among (names_of ps) set ≡ false =
          ap (is_among (names_of ps)) (sym (same_name_sound p.name set e)) ∙ first in
        rw e (
          ap (λ t. record { name = p.name; value = value_after lines p.name (some value) } ∷ t)
            (sym (valued-other ps rest)))
    | inr e ↦ rw e (ap (λ t. valued lines p ∷ t) (valued-store_value ps d (rw e at there)))
  ]

valued-none : (ps : List Param) → map (valued []) ps ≡ ps
unfolding value_after
valued-none [] = refl
valued-none (p ∷ ps) = ap (λ t. p ∷ t) (valued-none ps)

length-store_value :
    (name value : List ℕ) (ps : List Param) → length (store_value name value ps) ≡ length ps
unfolding store_value
length-store_value name value [] = refl
length-store_value name value (p ∷ ps) = elim (Bool-cases (same_name p.name name)) [
  | inl e ↦ rw e refl
  | inr e ↦ rw e (ap suc (length-store_value name value ps))
]

-- What read_config comes to, for `found` settings that were counted before.
abbrev Comes : List ConfigLine → List Param → ℕ → Reading → Type 0
Comes lines params found reading = reading ≡ (
    if found + settings_of lines (names_of params) == length params
    then configured (map (valued lines) params) (found + settings_of lines (names_of params))
    else exits)

settings-Comes :
    (lines : List ConfigLine) (params : List Param) (found : ℕ)
    → Different params
    → Comes lines params found (settings lines params found)
unfolding settings settings_of value_after
settings-Comes [] params found d =
    let sum : found + 0 ≡ found = omega arith in rw (sum, valued-none params) refl
settings-Comes (comment text ∷ lines) params found d = settings-Comes lines params found d
settings-Comes (setting set gap value ∷ lines) params found d =
    elim (Bool-cases (is_among (names_of params) set)) [
      | inl there ↦
          let count = settings_of lines (names_of params) in
          let sum : found + 1 + count ≡ found + (1 + count) = omega arith in
          let rest =
            settings-Comes lines (store_value set value params) (found + 1)
              (store_value-Different set value params d) in
          rw (has_param-is_among set params, there)
            (rest
              ∙ rw
                  (
                    names_of-store_value set value params,
                    length-store_value set value params,
                    valued-store_value lines set gap value params d there,
                    sum,
                  )
                  refl)
      | inr other ↦
          rw (has_param-is_among set params, other, valued-other lines set gap value params other)
            (settings-Comes lines params found d)
    ]

-- read_config of a file of comments and of settings, each a name, one blank or tab and a value that does not
-- start with another, for parameters with different names: if the settings of these names are as many as the
-- parameters, it gives each parameter the value of the last setting of its name and returns the number,
-- and otherwise it ends the process. What the buffer holds before, and behind a line, does not matter. Every
-- line fits into the buffer.
pub read_config-values :
    (fuel maxline : ℕ) (garbage : List ℕ) (lines : List ConfigLine) (params : List Param)
    → Different params
    → All IsConfigLine lines
    → All OneGap lines
    → All (Fits maxline) (map text_of lines)
    → 0 < maxline
    → length (map text_of lines) < fuel
    → read_config fuel maxline garbage (file_of (map text_of lines) []) params ≡ (
        if settings_of lines (names_of params) == length params
        then configured (map (valued lines) params) (settings_of lines (names_of params))
        else exits)
read_config-values fuel maxline garbage lines params d good one_gap fits some_room enough =
    let sum : 0 + settings_of lines (names_of params) ≡ settings_of lines (names_of params) =
      omega arith in
    read_config-settings fuel maxline garbage lines params good fits some_room enough
    ∙ settings-Comes lines params 0 d
    ∙ rw sum refl
