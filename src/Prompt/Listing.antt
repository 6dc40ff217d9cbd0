-- ===== src/Prompt/Listing.antt =====
-- list_dir of src/fscli.c: what it writes to the terminal for what fap_list has returned.
pub mod Shown
use netpro_project.Prelude.{
  ℕ, zero, suc, ◌+◌, ◌^◌, ◌/◌, ◌%◌, ◌==◌, ltb, if◌then◌else◌, List, [], ◌∷◌, ◌++◌, Option, none,
  some,
}
use netpro_project.Protomsg.{FileinfoSect}
use netpro_project.Fap.Client.{Outcome, returns, fails, crash, Files}
use netpro_project.Directory.Handlers.{strndup}
use netpro_project.Config.{newline}
use netpro_project.Prompt.{blank}

-- `%d` of a number that is not negative, with the fuel for its digits
unfoldable pub decimal : ℕ → ℕ → List ℕ
decimal zero n = []
decimal (suc fuel) n =
    let higher = decimal fuel (n / 10) in
    if ltb n 10 then (b'0' + n) ∷ [] else higher ++ (b'0' + n % 10) ∷ []

-- An int has ten digits at most.
abbrev pub int_digits : ℕ
int_digits = 10

-- `printf("%.*s ", namelen, name)` for every file: the path up to its length or to a NUL, and a blank
unfoldable pub print_names : List FileinfoSect → List ℕ
unfolding strndup
print_names [] = []
print_names (f ∷ fs) = strndup f.path ++ blank ∷ print_names fs

-- `ret?"\n":""`
abbrev pub line_break : ℕ → List ℕ
line_break ret = if ret == 0 then [] else newline ∷ []

abbrev pub files_text : List ℕ
files_text = b' ' ∷ b'f' ∷ b'i' ∷ b'l' ∷ b'e' ∷ b's' ∷ newline ∷ []

-- "change_dir listing error\n"
abbrev pub listing_error : List ℕ
listing_error =
    b'c' ∷ b'h' ∷ b'a' ∷ b'n' ∷ b'g' ∷ b'e' ∷ b'_' ∷ b'd' ∷ b'i' ∷ b'r' ∷ b' ' ∷ b'l' ∷ b'i' ∷ b's'
    ∷ b't' ∷ b'i' ∷ b'n' ∷ b'g' ∷ b' ' ∷ b'e' ∷ b'r' ∷ b'r' ∷ b'o' ∷ b'r' ∷ newline ∷ []

-- The output, or none where fap_list has read a section that is not there; `ret` is an int.
unfoldable pub list_dir : Outcome Files → Option (List ℕ)
unfolding decimal print_names
list_dir (returns r) = some (
    if ltb r.count (2 ^ 31)
    then (print_names r.files ++ line_break r.count ++ decimal int_digits r.count ++ files_text)
    else listing_error)
list_dir (fails v) = some listing_error
list_dir crash = none
