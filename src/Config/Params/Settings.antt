-- ===== src/Config/Params/Settings.antt =====
-- What read_config makes of a file of comments and settings.
use netpro_project.Prelude.{
  ℕ, ◌+◌, ◌<◌, ◌≡◌, ◌≢◌, refl, ap, ◌∙◌, ◌==◌, if◌then◌else◌, List, [], ◌∷◌, ◌++◌, length, map,
  append_assoc, All, Bool, true, false, Bool-cases, inl, inr, some, drop, get_or, arith,
}
use netpro_project.Config.{newline}
use netpro_project.Config.Lines.{Fits, file_of, ended, config_lines-file_of}
use netpro_project.Config.Params.{
  Param, take_token, strtok, hash, blank, line_end, has_param, store_value, State, Reading,
  use_value, use_line, finish, use_lines, read_config,
}

-- A line of a configuration file: a comment behind its `#`, or a name, a blank or a tab, and a value.
pub data ConfigLine : Type 0 where
  comment : List ℕ → ConfigLine
  setting : List ℕ → ℕ → List ℕ → ConfigLine

abbrev pub text_of : ConfigLine → List ℕ
text_of (comment text) = hash ∷ text
text_of (setting name gap value) = name ++ gap ∷ value

-- A token of a line: it is not empty, and has no delimiter and no NUL.
pub record IsToken (delim : ℕ → Bool) (word : List ℕ) : Type 0 where
  pub not_empty : word ≢ []
  pub plain : All (λ c. (c ≢ 0) × (delim c ≡ false)) word

abbrev pub IsConfigLine : ConfigLine → Type 0
IsConfigLine (comment text) = Unit {0}
IsConfigLine (setting name gap value) =
    IsToken blank name
    × ((All (λ c. c ≢ hash) name) × ((blank gap ≡ true) × ((gap ≢ 0) × IsToken line_end value)))

-- What the lines mean: a setting of a parameter that was added gives it the value, and is counted.
unfoldable pub settings : List ConfigLine → List Param → ℕ → Reading
unfolding has_param store_value
settings [] params found = finish params found
settings (comment text ∷ lines) params found = settings lines params found
settings (setting name gap value ∷ lines) params found =
    let set = settings lines (store_value name value params) (found + 1) in
    let other = settings lines params found in if has_param name params then set else other

module _ (delim : ℕ → Bool) where
  take_token-word :
      (word : List ℕ) (c : ℕ) (rest : List ℕ)
      → All (λ c. (c ≢ 0) × (delim c ≡ false)) word
      → c ≢ 0
      → delim c ≡ true
      → take_token delim (word ++ c ∷ rest)
        ≡ record { token = word; front = word ++ 0 ∷ []; rest = rest }
  unfolding take_token
  take_token-word [] c rest h nonzero ends =
      let e : (c == 0) ≡ false = ground arith in rw (e, ends) refl
  take_token-word (x ∷ word) c rest ((x_nonzero, x_plain), h) nonzero ends =
      let e : (x == 0) ≡ false = ground arith in
      rw (e, x_plain, take_token-word word c rest h nonzero ends) refl

  strtok-word :
      (word : List ℕ) (c : ℕ) (rest : List ℕ)
      → IsToken delim word
      → c ≢ 0
      → delim c ≡ true
      → strtok delim (word ++ c ∷ rest)
        ≡ some (record { token = word; front = word ++ 0 ∷ []; rest = rest })
  unfolding strtok
  strtok-word [] c rest h nonzero ends = absurd (h.not_empty refl)
  strtok-word (x ∷ word) c rest h nonzero ends =
      let (x_good, others) = h.plain in
      let e : (x == 0) ≡ false = ground (arith, x_good.0) in
      rw (e, x_good.1, take_token-word word c rest others nonzero ends) refl

-- A comment changes nothing but the buffer.
use_line-comment :
    (text : List ℕ) (st : State) (next : State → Reading)
    → use_line (hash ∷ (text ++ newline ∷ [])) st next
      ≡ next (record st {
        linebuffer =
            (hash ∷ (text ++ newline ∷ []))
            ++ drop (length (hash ∷ (text ++ newline ∷ []))) st.linebuffer;
      })
unfolding use_line
use_line-comment text st next = refl

setting_buffer :
    (name value stale : List ℕ) (gap : ℕ)
    → ((name ++ gap ∷ value) ++ newline ∷ []) ++ stale ≡ name ++ gap ∷ (value ++ newline ∷ stale)
setting_buffer name value stale gap =
    append_assoc (name ++ gap ∷ value) (newline ∷ []) stale
    ∙ append_assoc name (gap ∷ value) (newline ∷ stale)

no_hash :
    (name rest : List ℕ)
    → IsToken blank name
    → All (λ c. c ≢ hash) name
    → (get_or (name ++ rest) 0 0 == hash) ≡ false
no_hash [] rest h first = absurd (h.not_empty refl)
no_hash (x ∷ name) rest h (first, _) = ground (arith, first)

-- A setting is cut into its name and its value, whatever stands in the buffer behind the line.
use_line-setting :
    (name value : List ℕ) (gap : ℕ) (st : State)
    → IsConfigLine (setting name gap value)
    → (buffer' buffer'' : List ℕ) × ((next : State → Reading)
        → use_line ((name ++ gap ∷ value) ++ newline ∷ []) st next ≡ (
            if has_param name st.params
            then next (record {
              params = store_value name value st.params;
              found = st.found + 1;
              linebuffer = buffer';
            })
            else next (record st { linebuffer = buffer'' })))
unfolding use_line use_value
use_line-setting name value gap st (name_good, (first, (gap_blank, (gap_nonzero, value_good)))) =
    let stale = drop (length ((name ++ gap ∷ value) ++ newline ∷ [])) st.linebuffer in
    let rest = value ++ newline ∷ stale in
    (
      (name ++ 0 ∷ []) ++ ((value ++ 0 ∷ []) ++ stale),
      (name ++ 0 ∷ []) ++ rest,
      λ next.
          rw
            (
              setting_buffer name value stale gap,
              no_hash name (gap ∷ rest) name_good first,
              strtok-word blank name gap rest name_good gap_nonzero gap_blank,
              strtok-word line_end value newline stale value_good (omega arith) refl,
            )
            refl,
    )

-- The lines with their newlines, as the loop of read_config sees them.
abbrev pub with_ends : List ConfigLine → List (List ℕ)
with_ends [] = []
with_ends (line ∷ lines) = (text_of line ++ newline ∷ []) ∷ with_ends lines

use_lines-settings :
    (lines : List ConfigLine) (st : State)
    → All IsConfigLine lines
    → use_lines (with_ends lines) st ≡ settings lines st.params st.found
unfolding use_lines settings
use_lines-settings [] st h = refl
use_lines-settings (comment text ∷ lines) st (_, h) =
    use_line-comment text st (use_lines (with_ends lines)) ∙ use_lines-settings lines _ h
use_lines-settings (setting name gap value ∷ lines) st (good, h) =
    let (buffer', buffer'', cut) = use_line-setting name value gap st good in
    cut (use_lines (with_ends lines)) ∙ elim (Bool-cases (has_param name st.params)) [
      | inl known ↦ rw known (use_lines-settings lines _ h)
      | inr unknown ↦ rw unknown (use_lines-settings lines _ h)
    ]

ended-with_ends : (lines : List ConfigLine) → ended (map text_of lines) [] ≡ with_ends lines
ended-with_ends [] = refl
ended-with_ends (line ∷ lines) =
    ap {B = List (List ℕ)} (λ t. (text_of line ++ newline ∷ []) ∷ t) (ended-with_ends lines)

-- read_config of a file of comments and of settings gives each parameter that was added its value, in the
-- order of the lines, and returns their number if as many settings as parameters were found, and ends the
-- process otherwise; what the buffer holds before, and behind a line, does not matter. Every line fits
-- into the buffer.
pub read_config-settings :
    (fuel maxline : ℕ) (garbage : List ℕ) (lines : List ConfigLine) (params : List Param)
    → All IsConfigLine lines
    → All (Fits maxline) (map text_of lines)
    → 0 < maxline
    → length (map text_of lines) < fuel
    → read_config fuel maxline garbage (file_of (map text_of lines) []) params
      ≡ settings lines params 0
unfolding read_config
read_config-settings fuel maxline garbage lines params good fits some_room enough =
    ap (λ ls. use_lines ls (record { params = params; found = 0; linebuffer = garbage }))
      (config_lines-file_of fuel maxline (map text_of lines) [] fits
          (record { is_line = tt; short = some_room }) enough
        ∙ ended-with_ends lines)
    ∙ use_lines-settings lines _ good
