-- ===== src/Fap/Validate/Documented.antt =====
-- fap_validate_sections and the messages of the file access protocol in doc/desc/protocols.md.
use netpro_project.Prelude.{ℕ, ◌^◌, ◌<◌, ◌≤◌, ◌≡◌, ◌≢◌, ◌⊎◌, [], ◌∷◌, replicate}
use netpro_project.Protomsg.{Fsmsg, st_integer, st_string, st_fileinfo}
use netpro_project.Protomsg.Testst.{data_integer}
use netpro_project.Protomsg.Testst.Laws.{Matches}
use netpro_project.Fap.{
  FapCommand, create, open_file, close_file, stat, read, write, delete, copy, find, list, response,
}
use netpro_project.Fap.Validate.Layout.{command_fields, behind_first}

-- The numbers of the commands in the description.
abbrev pub command_number : FapCommand → ℕ
command_number create = 1
command_number open_file = 2
command_number close_file = 3
command_number stat = 4
command_number read = 5
command_number write = 6
command_number delete = 7
command_number copy = 8
command_number find = 9
command_number list = 10

-- The messages of the description, by their type numbers and sections. A file count is not negative, which
-- an int32_t is from 2 ^ 31 on.
pub data IsDocumented (msg : Fsmsg) : Type 0 where
  hello_message :
      msg.msg_type ≡ 1 → Matches (st_string ∷ st_string ∷ []) msg.sections → IsDocumented msg
  hello_response_message :
      msg.msg_type ≡ 2 → Matches (st_string ∷ st_integer ∷ []) msg.sections → IsDocumented msg
  quit_message : msg.msg_type ≡ 3 → Matches [] msg.sections → IsDocumented msg
  command_message :
      (c : FapCommand)
      → msg.msg_type ≡ 5
      → data_integer msg.sections ≡ command_number c
      → Matches (st_integer ∷ command_fields c) msg.sections
      → IsDocumented msg
  ok_message :
      msg.msg_type ≡ 6
      → data_integer msg.sections ≡ 1
      → Matches (st_integer ∷ []) msg.sections
      → IsDocumented msg
  fileinfo_message :
      (count : ℕ)
      → msg.msg_type ≡ 6
      → data_integer msg.sections ≡ 2
      → data_integer (behind_first msg.sections) ≡ count
      → count < 2 ^ 31
      → Matches (st_integer ∷ st_integer ∷ replicate count st_fileinfo) msg.sections
      → IsDocumented msg
  dataout_message :
      msg.msg_type ≡ 6
      → data_integer msg.sections ≡ 3
      → Matches (st_integer ∷ st_integer ∷ []) msg.sections
      → IsDocumented msg
  ack_message : msg.msg_type ≡ 7 → Matches [] msg.sections → IsDocumented msg
  error_message :
      msg.msg_type ≡ 8 → Matches (st_integer ∷ st_string ∷ []) msg.sections → IsDocumented msg

-- A file information response with a negative file count and no files.
pub record NegativeCount (msg : Fsmsg) : Type 0 where
  pub response : msg.msg_type ≡ 6
  pub files : data_integer msg.sections ≡ 2
  pub negative : 2 ^ 31 ≤ data_integer (behind_first msg.sections)
  pub no_files : Matches (st_integer ∷ st_integer ∷ []) msg.sections

abbrev Verdict : Fsmsg → Type 0
Verdict msg = (IsDocumented msg × (msg.msg_type ≢ 7)) ⊎ NegativeCount msg
