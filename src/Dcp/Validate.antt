-- ===== src/Dcp/Validate.antt =====
-- dcp_validate_sections of src/dcp.c.
pub mod Laws
pub mod Documented
use netpro_project.Prelude.{Option, none, some, List, [], ◌∷◌}
use netpro_project.Protomsg.{
  MsgSection, Fsmsg, st_nonext, st_integer, st_string, st_fileinfo, rounds,
}
use netpro_project.Protomsg.Testst.{Check, pass, ◌>>=◌, testst, testst_times, data_integer}
use netpro_project.Dcp.{
  DcpType, hello, hello_response, lock, create, read, update, delete, search, invalidate,
  replica_update, replica_status, get_replicas, disconnect, fileinfo, error, dcp_type_of,
}

-- The switch has no default case: a number that is no message type goes on to the last test.
unfoldable pub validate_type : Option DcpType → List MsgSection → Check (List MsgSection)
unfolding testst testst_times
validate_type (some hello) s = do
  s1 ← testst st_string s
  s2 ← testst st_integer s1
  s3 ← testst st_integer s2
  testst st_integer s3
validate_type (some hello_response) s = testst st_integer s
validate_type (some lock) s = pass s
validate_type (some create) s = testst st_fileinfo s
validate_type (some read) s = do s1 ← testst st_integer s; testst st_string s1
validate_type (some update) s = testst st_fileinfo s
validate_type (some delete) s = pass s
validate_type (some search) s = pass s
validate_type (some invalidate) s = pass s
validate_type (some replica_update) s = pass s
validate_type (some replica_status) s = do
  s1 ← testst st_integer s
  testst_times (rounds (data_integer s)) st_string s1
validate_type (some get_replicas) s = testst st_string s
validate_type (some disconnect) s = pass s
validate_type (some fileinfo) s = do
  s1 ← testst st_integer s
  testst_times (rounds (data_integer s)) st_fileinfo s1
validate_type (some error) s = pass s
validate_type none s = pass s

unfoldable pub dcp_validate_sections : Fsmsg → Check (Unit {0})
unfolding validate_type
dcp_validate_sections msg = do
  s ← validate_type (dcp_type_of msg.msg_type) msg.sections
  end ← testst st_nonext s
  pass tt
