-- ===== src/Prompt.antt =====
-- The command line of the client, src/fscli.c: prompt_loop on the line that readline has returned, and the
-- file names of new_file, edit_file and read_file.
pub mod Commands
pub mod Listing
pub mod Names
pub mod Requests
use netpro_project.Prelude.{
  ℕ, zero, suc, ◌+◌, ◌-◌, ◌<◌, ◌==◌, ltb, if◌then◌else◌, length, take, drop, Bool, true, false,
  List, [], ◌∷◌, ◌++◌,
}
use netpro_project.Directory.Handlers.{strndup}
use netpro_project.Config.{newline}

-- !strncmp(a, b, n); a string that ends has a NUL there.
unfoldable pub strncmp_equal : List ℕ → List ℕ → ℕ → Bool
strncmp_equal a b zero = true
strncmp_equal [] [] (suc n) = true
strncmp_equal [] (c ∷ b) (suc n) = c == 0
strncmp_equal (c ∷ a) [] (suc n) = c == 0
strncmp_equal (c ∷ a) (d ∷ b) (suc n) =
    let rest = strncmp_equal a b n in if c == d then (if c == 0 then true else rest) else false

-- MIN
abbrev pub min : ℕ → ℕ → ℕ
min a b = if ltb a b then a else b

-- The test of CHECKCMD_ARGS and CHECKCMD_NOARGS; `cmd` ends in the blank or the newline.
unfoldable pub is_command : List ℕ → List ℕ → Bool
unfolding strncmp_equal
is_command cmd line = strncmp_equal cmd line (min (length line) (length cmd))

-- What prompt_loop calls, with the rest of the line behind the command and its blank.
pub data Action : Type 0 where
  client_quit : Action
  working_dir : Action
  list_dir : Action
  read_file : List ℕ → Action
  edit_file : List ℕ → Action
  new_file : List ℕ → Action
  not_implemented : Action
  unknown_command : Action

abbrev pub blank : ℕ
blank = 0x20

abbrev pub cd : List ℕ
cd = b'c' ∷ b'd' ∷ []

abbrev pub pwd : List ℕ
pwd = b'p' ∷ b'w' ∷ b'd' ∷ []

abbrev pub ls : List ℕ
ls = b'l' ∷ b's' ∷ []

abbrev pub cat : List ℕ
cat = b'c' ∷ b'a' ∷ b't' ∷ []

abbrev pub edit : List ℕ
edit = b'e' ∷ b'd' ∷ b'i' ∷ b't' ∷ []

abbrev pub rm : List ℕ
rm = b'r' ∷ b'm' ∷ []

abbrev pub rmdir : List ℕ
rmdir = b'r' ∷ b'm' ∷ b'd' ∷ b'i' ∷ b'r' ∷ []

abbrev pub mkdir : List ℕ
mkdir = b'm' ∷ b'k' ∷ b'd' ∷ b'i' ∷ b'r' ∷ []

abbrev pub cp : List ℕ
cp = b'c' ∷ b'p' ∷ []

abbrev pub find : List ℕ
find = b'f' ∷ b'i' ∷ b'n' ∷ b'd' ∷ []

abbrev pub touch : List ℕ
touch = b't' ∷ b'o' ∷ b'u' ∷ b'c' ∷ b'h' ∷ []

abbrev pub quit : List ℕ
quit = b'q' ∷ b'u' ∷ b'i' ∷ b't' ∷ []

-- CHECKCMD_ARGS and CHECKCMD_NOARGS in front of the next test
abbrev pub checkcmd_args : List ℕ → (List ℕ → Action) → List ℕ → Action → Action
checkcmd_args word run line other =
    let cmd = word ++ blank ∷ [] in
    if is_command cmd line then run (drop (length cmd) line) else other

abbrev pub checkcmd_noargs : List ℕ → Action → List ℕ → Action → Action
checkcmd_noargs word action line other =
    if is_command (word ++ newline ∷ []) line then action else other

-- The chain of tests.
unfoldable pub check_commands : List ℕ → Action
unfolding is_command
check_commands line =
    checkcmd_args cd (λ args. not_implemented) line
      (checkcmd_noargs pwd working_dir line (
        checkcmd_noargs ls list_dir line (
          checkcmd_args ls (λ args. not_implemented) line
            (checkcmd_args cat read_file line (
              checkcmd_args edit edit_file line (
                checkcmd_args rm (λ args. not_implemented) line
                  (checkcmd_args rmdir (λ args. not_implemented) line
                    (checkcmd_args mkdir (λ args. not_implemented) line
                      (checkcmd_args cp (λ args. not_implemented) line
                        (checkcmd_args find (λ args. not_implemented) line
                          (checkcmd_args touch new_file line
                            (checkcmd_noargs quit client_quit line unknown_command))))))))))))

-- One round of prompt_loop: a line of no bytes is the end of the input.
unfoldable pub prompt : List ℕ → Action
unfolding check_commands
prompt [] = client_quit
prompt (c ∷ cs) = check_commands (c ∷ cs)

-- `args[arglen-1] = '\0'` in front of strcat, which copies up to a NUL
unfoldable pub cut_last : List ℕ → List ℕ
cut_last args = take (length args - 1) args

-- `filename` of new_file, edit_file and read_file, and the size of its allocation
unfoldable pub filename : List ℕ → List ℕ → List ℕ
unfolding cut_last strndup
filename cwd args = cwd ++ strndup (cut_last args)

abbrev pub filename_size : List ℕ → List ℕ → ℕ
filename_size cwd args = length args + length cwd
