-- ===== src/Prompt/Commands.antt =====
-- Which function prompt_loop calls, by the first word of the line.
use netpro_project.Prelude.{
  ℕ, zero, suc, ◌≡◌, ◌≢◌, ◌⊎◌, refl, sym, ap, ◌∙◌, ◌==◌, ◌&&◌, if◌then◌else◌, length, drop,
  drop-append, append_assoc, All, Bool, true, false, Bool-cases, inl, inr, List, [], ◌∷◌, ◌++◌,
  arith,
}
use netpro_project.Directory.Path.{same_name, same_name_sound}
use netpro_project.Config.{newline}
use netpro_project.Prompt.{
  strncmp_equal, min, is_command, Action, client_quit, working_dir, list_dir, read_file, edit_file,
  new_file, not_implemented, unknown_command, checkcmd_args, checkcmd_noargs, check_commands, blank,
  cd, pwd, ls, cat, edit, rm, rmdir, mkdir, cp, find, touch, quit, prompt,
}

-- A word of a command line.
abbrev pub IsWord : List ℕ → Type 0
IsWord word = All (λ c. (c ≢ 0) × ((c ≢ blank) × (c ≢ newline))) word

abbrev IsEnd : ℕ → Type 0
IsEnd c = (c ≡ blank) ⊎ (c ≡ newline)

-- A word that ends in a blank or a newline is compared as a whole.
compared :
    (cmd word rest : List ℕ) (sep other n : ℕ)
    → IsWord cmd
    → IsWord word
    → IsEnd sep
    → IsEnd other
    → n ≡ min (length (word ++ other ∷ rest)) (length (cmd ++ sep ∷ []))
    → strncmp_equal (cmd ++ sep ∷ []) (word ++ other ∷ rest) n
      ≡ (same_name cmd word && (sep == other))
unfolding strncmp_equal same_name
compared [] [] rest sep other zero hc hw hs ho size = absurd (ground arith)
compared [] [] rest sep other (suc zero) hc hw hs ho size = ground arith
compared [] [] rest sep other (suc (suc n)) hc hw hs ho size = absurd (ground arith)
compared [] (w ∷ word) rest sep other zero hc hw hs ho size = absurd (ground arith)
compared [] (w ∷ word) rest sep other (suc n) hc ((_, (not_blank, not_newline)), _) hs ho size =
    let e : (sep == w) ≡ false = ground (arith, not_blank, not_newline) in rw e refl
compared (c ∷ cmd) [] rest sep other zero hc hw hs ho size = absurd (ground arith)
compared (c ∷ cmd) [] rest sep other (suc n) ((_, (not_blank, not_newline)), _) hw hs ho size =
    let e : (c == other) ≡ false = ground (arith, not_blank, not_newline) in rw e refl
compared (c ∷ cmd) (w ∷ word) rest sep other zero hc hw hs ho size = absurd (ground arith)
compared (c ∷ cmd) (w ∷ word) rest sep other (suc n) ((nonzero, _), hcs) (_, hws) hs ho size =
    let e : (c == 0) ≡ false = ground (arith, nonzero) in
    elim (Bool-cases (c == w)) [
      | inl same ↦ rw (same, e) (compared cmd word rest sep other n hcs hws hs ho (ground arith))
      | inr differ ↦ rw differ refl
    ]

is_command-word :
    (cmd word rest : List ℕ) (sep other : ℕ)
    → IsWord cmd
    → IsWord word
    → IsEnd sep
    → IsEnd other
    → is_command (cmd ++ sep ∷ []) (word ++ other ∷ rest) ≡ (same_name cmd word && (sep == other))
unfolding is_command
is_command-word cmd word rest sep other hc hw hs ho =
    compared cmd word rest sep other _ hc hw hs ho refl

and_true : (b : Bool) → (b && true) ≡ b
and_true true = refl
and_true false = refl

and_false : (b : Bool) → (b && false) ≡ false
and_false true = refl
and_false false = refl

if-then :
    (b : Bool) (x x' y : Action)
    → (b ≡ true → x ≡ x')
    → (if b then x else y) ≡ (if b then x' else y)
if-then true x x' y h = h refl
if-then false x x' y h = refl

drop-word : (cmd args : List ℕ) → drop (length (cmd ++ blank ∷ [])) (cmd ++ blank ∷ args) ≡ args
drop-word cmd args =
    ap (drop (length (cmd ++ blank ∷ []))) (sym (append_assoc cmd (blank ∷ []) args))
    ∙ drop-append (cmd ++ blank ∷ []) args

module _ (word : List ℕ) (hw : IsWord word) where
  args-blank :
      (cmd args : List ℕ) (run : List ℕ → Action) (other : Action)
      → IsWord cmd
      → checkcmd_args cmd run (word ++ blank ∷ args) other
        ≡ (if same_name cmd word then run args else other)
  args-blank cmd args run other hc =
      rw
        (
          is_command-word cmd word args blank blank hc hw (inl refl) (inl refl),
          and_true (same_name cmd word),
        )
        (if-then (same_name cmd word) _ _ other (λ same. ap run (
          ap (λ w. drop (length (cmd ++ blank ∷ [])) (w ++ blank ∷ args))
            (sym (same_name_sound cmd word same))
          ∙ drop-word cmd args)))

  noargs-blank :
      (cmd args : List ℕ) (action other : Action)
      → IsWord cmd
      → checkcmd_noargs cmd action (word ++ blank ∷ args) other ≡ other
  noargs-blank cmd args action other hc =
      rw
        (
          is_command-word cmd word args newline blank hc hw (inr refl) (inl refl),
          and_false (same_name cmd word),
        )
        refl

  args-newline :
      (cmd : List ℕ) (run : List ℕ → Action) (other : Action)
      → IsWord cmd
      → checkcmd_args cmd run (word ++ newline ∷ []) other ≡ other
  args-newline cmd run other hc =
      rw
        (
          is_command-word cmd word [] blank newline hc hw (inl refl) (inr refl),
          and_false (same_name cmd word),
        )
        refl

  noargs-newline :
      (cmd : List ℕ) (action other : Action)
      → IsWord cmd
      → checkcmd_noargs cmd action (word ++ newline ∷ []) other
        ≡ (if same_name cmd word then action else other)
  noargs-newline cmd action other hc =
      rw
        (
          is_command-word cmd word [] newline newline hc hw (inr refl) (inr refl),
          and_true (same_name cmd word),
        )
        refl

-- The commands with arguments, and those without.
abbrev pub with_args : List (List ℕ × (List ℕ → Action))
with_args =
    (cd, λ args. not_implemented)
    ∷ (ls, λ args. not_implemented)
    ∷ (cat, read_file)
    ∷ (edit, edit_file)
    ∷ (rm, λ args. not_implemented)
    ∷ (rmdir, λ args. not_implemented)
    ∷ (mkdir, λ args. not_implemented)
    ∷ (cp, λ args. not_implemented)
    ∷ (find, λ args. not_implemented)
    ∷ (touch, new_file)
    ∷ []

abbrev pub without_args : List (List ℕ × (List ℕ → Action))
without_args =
    (pwd, λ args. working_dir) ∷ (ls, λ args. list_dir) ∷ (quit, λ args. client_quit) ∷ []

-- The function of a word in such a table.
abbrev pub action_of : List (List ℕ × (List ℕ → Action)) → List ℕ → List ℕ → Action
action_of [] word args = unknown_command
action_of ((cmd, run) ∷ table) word args =
    if same_name cmd word then run args else action_of table word args

prompt_line :
    (word rest : List ℕ) (c : ℕ) → prompt (word ++ c ∷ rest) ≡ check_commands (word ++ c ∷ rest)
unfolding prompt
prompt_line [] rest c = refl
prompt_line (w ∷ word) rest c = refl

-- prompt_loop goes by the first word of the line alone: before a blank it looks the word up among the
-- commands with arguments and passes on all that stands behind the blank, and at the end of the line
-- among those without; a word that is not there is an unknown command.
pub prompt-action_of :
    (word args : List ℕ)
    → IsWord word
    → (prompt (word ++ blank ∷ args) ≡ action_of with_args word args)
      × (prompt (word ++ newline ∷ []) ≡ action_of without_args word [])
unfolding check_commands
prompt-action_of word args hw = (
  prompt_line word args blank
      ∙ rw
          (
            args-blank word hw cd args (λ args. not_implemented) _ (omega arith),
            noargs-blank word hw pwd args working_dir _ (omega arith),
            noargs-blank word hw ls args list_dir _ (omega arith),
            args-blank word hw ls args (λ args. not_implemented) _ (omega arith),
            args-blank word hw cat args read_file _ (omega arith),
            args-blank word hw edit args edit_file _ (omega arith),
            args-blank word hw rm args (λ args. not_implemented) _ (omega arith),
            args-blank word hw rmdir args (λ args. not_implemented) _ (omega arith),
            args-blank word hw mkdir args (λ args. not_implemented) _ (omega arith),
            args-blank word hw cp args (λ args. not_implemented) _ (omega arith),
            args-blank word hw find args (λ args. not_implemented) _ (omega arith),
            args-blank word hw touch args new_file _ (omega arith),
            noargs-blank word hw quit args client_quit _ (omega arith),
          )
          refl,
  prompt_line word [] newline
      ∙ rw
          (
            args-newline word hw cd (λ args. not_implemented) _ (omega arith),
            noargs-newline word hw pwd working_dir _ (omega arith),
            noargs-newline word hw ls list_dir _ (omega arith),
            args-newline word hw ls (λ args. not_implemented) _ (omega arith),
            args-newline word hw cat read_file _ (omega arith),
            args-newline word hw edit edit_file _ (omega arith),
            args-newline word hw rm (λ args. not_implemented) _ (omega arith),
            args-newline word hw rmdir (λ args. not_implemented) _ (omega arith),
            args-newline word hw mkdir (λ args. not_implemented) _ (omega arith),
            args-newline word hw cp (λ args. not_implemented) _ (omega arith),
            args-newline word hw find (λ args. not_implemented) _ (omega arith),
            args-newline word hw touch new_file _ (omega arith),
            noargs-newline word hw quit client_quit _ (omega arith),
          )
          refl,
)
