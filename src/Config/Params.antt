-- ===== src/Config/Params.antt =====
-- The parameters of src/util.c: add_config_param, read_config and read_args. readline writes into one
-- buffer without a NUL, so behind a line stand the bytes of longer lines before it, with the NULs that
-- strtok has put there.
pub mod Settings
pub mod Values
use netpro_project.Prelude.{
  ℕ, zero, suc, ◌+◌, ◌==◌, ◌||◌, if◌then◌else◌, maybe, get_or, drop, length, Bool, true, false,
  List, [], ◌∷◌, ◌++◌, Option, none, some,
}
use netpro_project.Directory.Path.{same_name}
use netpro_project.Config.{newline, config_lines}

-- struct confparam; the list of them stands for the chain from `first_param`.
pub record Param : Type 0 where
  pub name : List ℕ
  pub value : Option (List ℕ)

unfoldable pub add_config_param : List ℕ → List Param → List Param
add_config_param name params = params ++ record { name = name; value = none } ∷ []

-- strtok at a position of the buffer: the token, what the text up to the place from where the next call
-- goes on has become, and the text from there on.
pub record Token : Type 0 where
  pub token : List ℕ
  pub front : List ℕ
  pub rest : List ℕ

abbrev pub cons_token : ℕ → Token → Token
cons_token c t = record { token = c ∷ t.token; front = c ∷ t.front; rest = t.rest }

abbrev pub skip : ℕ → Option Token → Option Token
skip c none = none
skip c (some t) = some (record t { front = c ∷ t.front })

module _ (delim : ℕ → Bool) where
  -- The delimiter behind the token becomes a NUL.
  unfoldable pub take_token : List ℕ → Token
  take_token [] = record { token = []; front = []; rest = [] }
  take_token (c ∷ cs) =
      let more = take_token cs in
      if c == 0
      then record { token = []; front = []; rest = c ∷ cs }
      else if delim c
      then record { token = []; front = 0 ∷ []; rest = cs }
      else cons_token c more

  unfoldable pub strtok : List ℕ → Option Token
  unfolding take_token
  strtok [] = none
  strtok (c ∷ cs) =
      let more = strtok cs in
      if c == 0 then none else if delim c then skip c more else some (take_token (c ∷ cs))

abbrev pub hash : ℕ
hash = 0x23

-- "\t "
abbrev pub blank : ℕ → Bool
blank c = c == 0x09 || c == 0x20

abbrev pub line_end : ℕ → Bool
line_end c = c == newline

-- `while (cur)`, for whether there is such a parameter, and for the store in the first one
unfoldable pub has_param : List ℕ → List Param → Bool
unfolding same_name
has_param name [] = false
has_param name (p ∷ ps) = if same_name p.name name then true else has_param name ps

unfoldable pub store_value : List ℕ → List ℕ → List Param → List Param
unfolding same_name
store_value name value [] = []
store_value name value (p ∷ ps) =
    if same_name p.name name
    then record p { value = some value } ∷ ps
    else p ∷ store_value name value ps

pub record State : Type 0 where
  pub params : List Param
  pub found : ℕ
  pub linebuffer : List ℕ

-- How read_config ends: with the parameters and their number, with the process, or in strdup(NULL), for
-- a name without a value.
pub data Reading : Type 0 where
  configured : List Param → ℕ → Reading
  exits : Reading
  null_value : Reading

-- What stands behind the name; `t` is its token.
unfoldable pub use_value : Token → State → (State → Reading) → Reading
unfolding strtok store_value
use_value t st next = maybe (strtok line_end t.rest) null_value (λ v. next (record {
  params = store_value t.token v.token st.params;
  found = st.found + 1;
  linebuffer = t.front ++ (v.front ++ v.rest);
}))

unfoldable pub use_line : List ℕ → State → (State → Reading) → Reading
unfolding strtok use_value has_param
use_line line st next =
    let buffer = line ++ drop (length line) st.linebuffer in
    if get_or buffer 0 0 == hash
    then next (record st { linebuffer = buffer })
    else maybe (strtok blank buffer) (next (record st { linebuffer = buffer })) (λ t.
      if has_param t.token st.params
      then use_value t st next
      else next (record st { linebuffer = t.front ++ t.rest }))

-- `if (i != paramcnt)`
abbrev pub finish : List Param → ℕ → Reading
finish params found = if found == length params then configured params found else exits

unfoldable pub use_lines : List (List ℕ) → State → Reading
unfolding use_line
use_lines [] st = finish st.params st.found
use_lines (line ∷ lines) st = use_line line st (use_lines lines)

-- `garbage` is what the buffer holds at first; the file is taken to be opened.
unfoldable pub read_config : ℕ → ℕ → List ℕ → List ℕ → List Param → Reading
unfolding config_lines use_lines
read_config fuel maxline garbage file params =
    use_lines (config_lines fuel maxline file)
      (record { params = params; found = 0; linebuffer = garbage })

abbrev pub conf_option : List ℕ
conf_option = b'-' ∷ b'c' ∷ b'o' ∷ b'n' ∷ b'f' ∷ []

-- `argv` from the index `i` on: an option that is the last argument is not tested.
unfoldable pub find_conf : List (List ℕ) → List ℕ → List ℕ
unfolding same_name
find_conf [] defaultval = defaultval
find_conf (arg ∷ []) defaultval = defaultval
find_conf (arg ∷ next ∷ args) defaultval =
    let more = find_conf (next ∷ args) defaultval in
    if same_name arg conf_option then next else more

unfoldable pub read_args : List (List ℕ) → List ℕ → List ℕ
unfolding find_conf
read_args argv defaultval = find_conf (drop 1 argv) defaultval
