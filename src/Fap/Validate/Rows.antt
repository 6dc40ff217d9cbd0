-- ===== src/Fap/Validate/Rows.antt =====
-- The code of each message type as one row of TESTSTs.
use netpro_project.Prelude.{
  ℕ, zero, suc, ◌≡◌, ◌≢◌, refl, sym, ap, ◌∙◌, List, [], ◌∷◌, replicate, append-nil, All, none, some,
  Bool-cases, inl, inr, ◌==◌, arith,
}
use netpro_project.Protomsg.{
  MsgSection, section_type, st_nonext, st_integer, st_string, st_fileinfo, rounds,
}
use netpro_project.Protomsg.Testst.{Check, reject, ◌>>=◌, testst, testst_times, data_integer}
use netpro_project.Protomsg.Testst.Laws.{run, bind_assoc, bind_ext, run-replicate}
use netpro_project.Fap.{
  FapType, hello, hello_response, quit, command, response, error, fap_type, fap_type_of, FapCommand,
  create, open_file, close_file, stat, read, write, delete, copy, find, list, fap_command,
  fap_command_of, FapResponse, fap_ok, fap_fileinfo, fap_dataout, fap_response, fap_response_of,
}
use netpro_project.Fap.Validate.{validate_command, validate_response, validate_type}
use netpro_project.Fap.Validate.Layout.{command_fields, fileinfo_fields}

-- The code of each type as one row of tests, ended by the one for ST_NONEXT.
validate_command-run :
    (c : FapCommand) (s : List MsgSection)
    → (validate_command (some c) s >>= testst st_nonext) ≡ run (command_fields c) s
unfolding validate_command run
validate_command-run create s = simp bind_assoc
validate_command-run open_file s = refl
validate_command-run close_file s = refl
validate_command-run stat s = refl
validate_command-run read s = simp bind_assoc
validate_command-run write s = simp bind_assoc
validate_command-run delete s = simp bind_assoc
validate_command-run copy s = simp bind_assoc
validate_command-run find s = simp bind_assoc
validate_command-run list s = simp bind_assoc

abbrev pub response_fields : FapResponse → List MsgSection → List ℕ
response_fields fap_ok s = []
response_fields fap_fileinfo s = st_integer ∷ replicate (rounds (data_integer s)) st_fileinfo
response_fields fap_dataout s = st_integer ∷ []

run-times :
    (n : ℕ) (s : List MsgSection)
    → (testst_times n st_fileinfo s >>= testst st_nonext) ≡ run (replicate n st_fileinfo) s
unfolding run
run-times n s =
    sym (run-replicate n st_fileinfo [] s)
    ∙ ap (λ ts. run ts s) (append-nil (replicate n st_fileinfo))

validate_response-run :
    (r : FapResponse) (s : List MsgSection)
    → (validate_response (some r) s >>= testst st_nonext) ≡ run (response_fields r s) s
unfolding validate_response run
validate_response-run fap_ok s = refl
validate_response-run fap_fileinfo s =
    bind_assoc (testst st_integer s) _ _
    ∙ bind_ext (testst st_integer s) (run-times (rounds (data_integer s)))
validate_response-run fap_dataout s = refl

-- The tests of a whole message of type `t`.
abbrev pub whole : FapType → List MsgSection → Check (List MsgSection)
whole t s = validate_type (some t) s >>= testst st_nonext

pub whole-command :
    (c : FapCommand) (s : List MsgSection)
    → fap_command_of (data_integer s) ≡ some c
    → whole command s ≡ run (st_integer ∷ command_fields c) s
unfolding validate_type run
whole-command c s e =
    rw e (
      bind_assoc (testst st_integer s) _ _
      ∙ bind_ext (testst st_integer s) (validate_command-run c))

pub whole-response :
    (r : FapResponse) (s : List MsgSection)
    → fap_response_of (data_integer s) ≡ some r
    → whole response s ≡ (testst st_integer s >>= λ s1. run (response_fields r s1) s1)
unfolding validate_type
whole-response r s e = rw e (
    bind_assoc (testst st_integer s) _ _ ∙ bind_ext (testst st_integer s) (validate_response-run r))

pub whole-command_none :
    (s : List MsgSection)
    → fap_command_of (data_integer s) ≡ none
    → whole command s ≡ (testst st_integer s >>= λ s1. reject)
unfolding validate_type validate_command
whole-command_none s e = rw e (bind_assoc (testst st_integer s) _ _)

pub whole-response_none :
    (s : List MsgSection)
    → fap_response_of (data_integer s) ≡ none
    → whole response s ≡ (testst st_integer s >>= λ s1. reject)
unfolding validate_type validate_response
whole-response_none s e = rw e (bind_assoc (testst st_integer s) _ _)

-- The same with the fields written out, as far as the sections go.
unfoldable pub response_row : FapResponse → List MsgSection → List ℕ
response_row fap_ok s = st_integer ∷ []
response_row fap_fileinfo s = fileinfo_fields s
response_row fap_dataout s = st_integer ∷ st_integer ∷ []

pub response-run :
    (r : FapResponse) (s : List MsgSection)
    → (testst st_integer s >>= λ s1. run (response_fields r s1) s1) ≡ run (response_row r s) s
unfolding run response_row
response-run fap_ok s = refl
response-run fap_fileinfo [] = refl
response-run fap_fileinfo (x ∷ s) = elim (Bool-cases (section_type x == st_integer)) [
  | inl e ↦ rw e
  | inr e ↦ rw e
]
response-run fap_dataout s = refl

pub whole-hello : (s : List MsgSection) → whole hello s ≡ run (st_string ∷ st_string ∷ []) s
unfolding validate_type run
whole-hello s = bind_assoc (testst st_string s) _ _

pub whole-hello_response :
    (s : List MsgSection) → whole hello_response s ≡ run (st_string ∷ st_integer ∷ []) s
unfolding validate_type run
whole-hello_response s = bind_assoc (testst st_string s) _ _

pub whole-quit : (s : List MsgSection) → whole quit s ≡ run [] s
unfolding validate_type run
whole-quit s = refl

pub whole-error : (s : List MsgSection) → whole error s ≡ run (st_integer ∷ st_string ∷ []) s
unfolding validate_type run
whole-error s = bind_assoc (testst st_integer s) _ _

-- The numbers of the enumerators.
pub of_type : (n : ℕ) (t : FapType) → fap_type_of n ≡ some t → n ≡ fap_type t
of_type n t h = ground arith

pub of_command : (n : ℕ) (c : FapCommand) → fap_command_of n ≡ some c → n ≡ fap_command c
of_command n c h = ground arith

pub of_response : (n : ℕ) (r : FapResponse) → fap_response_of n ≡ some r → n ≡ fap_response r
of_response n r h = ground arith

pub type_of : (t : FapType) → fap_type_of (fap_type t) ≡ some t
type_of hello = refl
type_of _ = refl

pub command_of : (c : FapCommand) → fap_command_of (fap_command c) ≡ some c
command_of create = refl
command_of _ = refl

command_fields-ne-zero : (c : FapCommand) → All (λ t. t ≢ 0) (command_fields c)
command_fields-ne-zero create = omega arith
command_fields-ne-zero _ = omega arith

replicate-ne-zero : (n : ℕ) → All (λ t. t ≢ 0) (replicate n st_fileinfo)
replicate-ne-zero zero = tt
replicate-ne-zero (suc n) = (omega arith, replicate-ne-zero n)

pub command_row-ne-zero : (c : FapCommand) → All (λ t. t ≢ 0) (st_integer ∷ command_fields c)
command_row-ne-zero c = (omega arith, command_fields-ne-zero c)

pub fileinfo_fields-ne-zero : (s : List MsgSection) → All (λ t. t ≢ 0) (fileinfo_fields s)
fileinfo_fields-ne-zero s = (omega arith, (omega arith, replicate-ne-zero _))
