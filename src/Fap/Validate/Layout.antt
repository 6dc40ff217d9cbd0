-- ===== src/Fap/Validate/Layout.antt =====
-- The messages of the file access protocol whose types src/fap.h has: which sections each has. These are those
-- of doc/desc/protocols.md without the ack, and with negative file counts, which count as none.
use netpro_project.Prelude.{ℕ, ◌≡◌, List, [], ◌∷◌, replicate}
use netpro_project.Protomsg.{MsgSection, Fsmsg, st_integer, st_string, st_fileinfo, rounds}
use netpro_project.Protomsg.Testst.{data_integer}
use netpro_project.Protomsg.Testst.Laws.{Matches}
use netpro_project.Fap.{
  FapType, hello, hello_response, quit, command, response, error, fap_type, FapCommand, create,
  open_file, close_file, stat, read, write, delete, copy, find, list, fap_command,
}

-- The sections of a command behind its number.
abbrev pub command_fields : FapCommand → List ℕ
command_fields create = st_string ∷ st_integer ∷ []
command_fields open_file = st_string ∷ []
command_fields close_file = st_string ∷ []
command_fields stat = st_string ∷ []
command_fields read = st_string ∷ st_integer ∷ st_integer ∷ []
command_fields write = st_string ∷ st_integer ∷ []
command_fields delete = st_string ∷ st_integer ∷ []
command_fields copy = st_string ∷ st_string ∷ st_integer ∷ []
command_fields find = st_string ∷ st_string ∷ []
command_fields list = st_integer ∷ st_string ∷ []

abbrev pub behind_first : List MsgSection → List MsgSection
behind_first [] = []
behind_first (s ∷ ss) = ss

-- A file information response has as many file sections as its count says, a negative count being
-- none.
abbrev pub fileinfo_fields : List MsgSection → List ℕ
fileinfo_fields ss =
    st_integer ∷ st_integer ∷ replicate (rounds (data_integer (behind_first ss))) st_fileinfo

pub data FapBody (ss : List MsgSection) : FapType → Type 0 where
  hello_body : Matches (st_string ∷ st_string ∷ []) ss → FapBody ss hello
  hello_response_body : Matches (st_string ∷ st_integer ∷ []) ss → FapBody ss hello_response
  quit_body : Matches [] ss → FapBody ss quit
  command_body :
      (c : FapCommand)
      → data_integer ss ≡ fap_command c
      → Matches (st_integer ∷ command_fields c) ss
      → FapBody ss command
  ok_body : data_integer ss ≡ 1 → Matches (st_integer ∷ []) ss → FapBody ss response
  fileinfo_body : data_integer ss ≡ 2 → Matches (fileinfo_fields ss) ss → FapBody ss response
  dataout_body :
      data_integer ss ≡ 3 → Matches (st_integer ∷ st_integer ∷ []) ss → FapBody ss response
  error_body : Matches (st_integer ∷ st_string ∷ []) ss → FapBody ss error

-- A message of a type that the code has, with the sections of that type.
pub record IsFapMessage (msg : Fsmsg) : Type 0 where
  pub type : FapType
  pub typed : msg.msg_type ≡ fap_type type
  pub body : FapBody msg.sections type
