-- ===== src/Examples/Prompt.antt =====
-- The command line and the configuration of a client, src/fscli.c and src/util.c.
use netpro_project.Prelude.{ℕ, ◌≡◌, refl, List, [], ◌∷◌, ◌++◌, none, some, arith}
use netpro_project.Directory.Path.{same_name}
use netpro_project.Config.{newline}
use netpro_project.Config.Params.{
  Param, add_config_param, blank as gap, line_end, configured, read_config, read_args,
}
use netpro_project.Config.Params.Settings.{ConfigLine, comment, setting, IsToken}
use netpro_project.Config.Params.Values.{is_among, settings_of, value_after, read_config-values}
use netpro_project.Protomsg.{Fsmsg}
use netpro_project.Fap.Client.{returns, fap_list}
use netpro_project.FileServer.Forwards.{received}
use netpro_project.FileServer.Commands.{create_job, read_job, write_job, list_job}
use netpro_project.FileServer.{answered, list_directory}
use netpro_project.FileServer.Listings.{files_of, names_of}
use netpro_project.Directory.Path.{path_of}
use netpro_project.Directory.Tree.{node, null, dir_find_node, target}
use netpro_project.Directory.Handlers.{strndup, sent, read_dir}
use netpro_project.Prompt.Listing.{
  list_dir, decimal, int_digits, print_names, line_break, files_text,
}
use netpro_project.Prompt.Listing.Shown.{words, number, list_dir-read_dir}
use netpro_project.Examples.DirectoryServer.{a, b, owned, server}
use netpro_project.Prompt.{
  new_file, list_dir as list_action, unknown_command, blank, touch, cat, edit, ls, is_command,
  prompt,
}
use netpro_project.Prompt.Commands.{prompt-action_of}
use netpro_project.Prompt.Names.{Serves, prompt-jobs}
use netpro_project.Examples.Sessions.{client}

abbrev f : List ℕ
f = b'f' ∷ []

ls_run : prompt (b'l' ∷ b's' ∷ newline ∷ []) ≡ list_action
unfolding prompt is_command
ls_run = refl

prompt-action_of_example :
    (prompt (touch ++ blank ∷ (f ++ newline ∷ [])) ≡ new_file (f ++ newline ∷ []))
    × (prompt (touch ++ newline ∷ []) ≡ unknown_command)
unfolding same_name
prompt-action_of_example = prompt-action_of touch (f ++ newline ∷ []) (omega arith)

prompt-jobs_example :
    Serves 0 0 1 9 33 2 client
      (b'/' ∷ [])
      (b'x' ∷ [])
      (touch ++ blank ∷ (f ++ newline ∷ []))
      (create_job (b'/' ∷ b'f' ∷ []))
    × (Serves 0 0 1 9 33 2 client
          (b'/' ∷ [])
          (b'x' ∷ [])
          (cat ++ blank ∷ (f ++ newline ∷ []))
          (read_job (b'/' ∷ b'f' ∷ []))
        × (Serves 0 0 1 9 33 2 client
              (b'/' ∷ [])
              (b'x' ∷ [])
              (edit ++ blank ∷ (f ++ newline ∷ []))
              (write_job (b'/' ∷ b'f' ∷ []) 1)
            × Serves 0 0 1 9 33 2 client
                (b'/' ∷ [])
                (b'x' ∷ [])
                (ls ++ newline ∷ [])
                (list_job 1 (b'/' ∷ []))))
prompt-jobs_example =
    prompt-jobs 0 0 1 9 33 2 client (b'/' ∷ []) f b'x' [] (omega arith) (omega arith)

-- "b 1 files"
output_run :
    list_dir (returns (record { count = 1; files = files_of (node (owned b) null null) }))
    ≡ some (b ++ blank ∷ newline ∷ b'1' ∷ files_text)
unfolding list_dir decimal print_names strndup
output_run = refl

decimal_run : decimal int_digits 120 ≡ b'1' ∷ b'2' ∷ b'0' ∷ []
unfolding decimal
decimal_run = refl

list_dir-read_dir_example :
    (dirmsg : Fsmsg) × (msg : Fsmsg) × (names : List ℕ) × (digits : List ℕ) × ((read_dir 0 9 0
          (record { id = 1; lasttid = 4; address = [] })
          1
          (path_of (a ∷ []))
          server
        ≡ sent server dirmsg)
      × ((list_directory 0 1 9 client 4 (received dirmsg) ≡ answered msg)
          × ((list_dir (fap_list 7 1 2 9 (received msg))
                ≡ some (names ++ line_break 1 ++ digits ++ files_text))
              × ((words [] names ≡ b ∷ []) × (number 0 digits ≡ 1)))))
unfolding dir_find_node same_name target names_of
list_dir-read_dir_example =
    list_dir-read_dir 0 0 1 9 0 4 [] (path_of (a ∷ [])) (0 ∷ []) client server
      (record { label = owned a; children = node (owned b) null null }) refl refl refl (omega arith)
      (((λ h. cc), tt), (omega arith, omega arith))

-- "log_file", a parameter, and a file with a comment and a setting.
abbrev log_file : List ℕ
log_file = b'l' ∷ b'o' ∷ b'g' ∷ []

abbrev params : List Param
params = record { name = log_file; value = none } ∷ []

add_run : add_config_param log_file [] ≡ params
unfolding add_config_param
add_run = refl

args_run : read_args (f ∷ (b'-' ∷ b'c' ∷ b'o' ∷ b'n' ∷ b'f' ∷ []) ∷ log_file ∷ []) f ≡ log_file
unfolding read_args same_name
args_run = refl

abbrev file : List ConfigLine
file = comment (b' ' ∷ b'x' ∷ []) ∷ setting log_file blank (b'o' ∷ b'k' ∷ []) ∷ []

log_file-IsToken : IsToken gap log_file
log_file-IsToken = record {
  not_empty = λ h. cc;
  plain = ((omega arith, refl), ((omega arith, refl), ((omega arith, refl), tt)));
}

ok-IsToken : IsToken line_end (b'o' ∷ b'k' ∷ [])
ok-IsToken = record {
  not_empty = λ h. cc;
  plain = ((omega arith, refl), ((omega arith, refl), tt));
}

-- The buffer is full of old bytes.
read_config-values_example :
    read_config 5 16
      (b'z' ∷ b'z' ∷ b'z' ∷ [])
      (b'#' ∷ b' ' ∷ b'x' ∷ newline ∷ b'l' ∷ b'o' ∷ b'g' ∷ blank ∷ b'o' ∷ b'k' ∷ newline ∷ [])
      params
    ≡ configured (record { name = log_file; value = some (b'o' ∷ b'k' ∷ []) } ∷ []) 1
unfolding is_among settings_of value_after same_name
read_config-values_example =
    read_config-values 5 16 (b'z' ∷ b'z' ∷ b'z' ∷ []) file params (refl, tt)
      (tt, ((log_file-IsToken, (omega arith, (refl, (omega arith, ok-IsToken)))), tt))
      (tt, (refl, tt))
      (
        record { is_line = omega arith; short = omega arith },
        (record { is_line = omega arith; short = omega arith }, tt),
      )
      (omega arith) (omega arith)
