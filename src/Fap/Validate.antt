-- ===== src/Fap/Validate.antt =====
-- fap_validate_sections of src/fap.c.
pub mod Layout
pub mod Rows
pub mod Laws
pub mod Documented
pub mod Short
use netpro_project.Prelude.{Option, none, some, List, [], ◌∷◌}
use netpro_project.Protomsg.{
  MsgSection, Fsmsg, st_nonext, st_integer, st_string, st_fileinfo, rounds,
}
use netpro_project.Protomsg.Testst.{Check, pass, reject, ◌>>=◌, testst, testst_times, data_integer}
use netpro_project.Fap.{
  FapType, hello, hello_response, quit, command, response, error, fap_type_of, FapCommand, create,
  open_file, close_file, stat, read, write, delete, copy, find, list, fap_command_of, FapResponse,
  fap_ok, fap_fileinfo, fap_dataout, fap_response_of,
}

-- The inner switch of FAP_COMMAND, on the sections behind the command number.
unfoldable pub validate_command : Option FapCommand → List MsgSection → Check (List MsgSection)
unfolding testst
validate_command (some create) s = do s1 ← testst st_string s; testst st_integer s1
validate_command (some open_file) s = testst st_string s
validate_command (some close_file) s = testst st_string s
validate_command (some stat) s = testst st_string s
validate_command (some read) s = do
  s1 ← testst st_string s
  s2 ← testst st_integer s1
  testst st_integer s2
validate_command (some write) s = do s1 ← testst st_string s; testst st_integer s1
validate_command (some delete) s = do s1 ← testst st_string s; testst st_integer s1
validate_command (some copy) s = do
  s1 ← testst st_string s
  s2 ← testst st_string s1
  testst st_integer s2
validate_command (some find) s = do s1 ← testst st_string s; testst st_string s1
validate_command (some list) s = do s1 ← testst st_integer s; testst st_string s1
validate_command none s = reject

-- The inner switch of FAP_RESPONSE, on the sections behind the response number.
unfoldable pub validate_response : Option FapResponse → List MsgSection → Check (List MsgSection)
unfolding testst testst_times
validate_response (some fap_ok) s = pass s
validate_response (some fap_fileinfo) s = do
  s1 ← testst st_integer s
  testst_times (rounds (data_integer s)) st_fileinfo s1
validate_response (some fap_dataout) s = testst st_integer s
validate_response none s = reject

unfoldable pub validate_type : Option FapType → List MsgSection → Check (List MsgSection)
unfolding validate_command validate_response
validate_type (some hello) s = do s1 ← testst st_string s; testst st_string s1
validate_type (some hello_response) s = do s1 ← testst st_string s; testst st_integer s1
validate_type (some quit) s = pass s
validate_type (some command) s = do
  s1 ← testst st_integer s
  validate_command (fap_command_of (data_integer s)) s1
validate_type (some response) s = do
  s1 ← testst st_integer s
  validate_response (fap_response_of (data_integer s)) s1
validate_type (some error) s = do s1 ← testst st_integer s; testst st_string s1
validate_type none s = reject

-- `pass tt` is the result 0 and `reject` is -1; ST_NONEXT is always tested last.
unfoldable pub fap_validate_sections : Fsmsg → Check (Unit {0})
unfolding validate_type
fap_validate_sections msg = do
  s ← validate_type (fap_type_of msg.msg_type) msg.sections
  end ← testst st_nonext s
  pass tt
