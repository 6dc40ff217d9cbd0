-- ===== src/Fap/Validate/Short.antt =====
-- What fap_validate_sections does with a message that breaks off.
use netpro_project.Prelude.{
  ℕ, ◌≡◌, ◌≢◌, refl, ap, ◌∙◌, List, [], ◌∷◌, ◌++◌, replicate, All, some, ==_iff, arith,
}
use netpro_project.Protomsg.{MsgSection, Fsmsg, section_type, st_integer, st_fileinfo, rounds}
use netpro_project.Protomsg.Testst.{crash, testst, data_integer}
use netpro_project.Protomsg.Testst.Laws.{
  run, Matches, run-crash, finish-crash, NoEnd, data_integer-cons,
}
use netpro_project.Fap.{
  FapType, command, response, fap_type_of, FapCommand, fap_command, fap_command_of, FapResponse,
  fap_response, fap_ok, fap_fileinfo, fap_dataout, fap_response_of,
}
use netpro_project.Fap.Validate.{validate_type, fap_validate_sections}
use netpro_project.Fap.Validate.Layout.{
  command_fields, fileinfo_fields, FapBody, hello_body, hello_response_body, quit_body,
  command_body, ok_body, fileinfo_body, dataout_body, error_body, IsFapMessage,
}
use netpro_project.Fap.Validate.Rows.{
  whole, whole-command, whole-response, whole-hello, whole-hello_response, whole-quit, whole-error,
  response_row, response-run, type_of, command_of, command_row-ne-zero, fileinfo_fields-ne-zero,
}

module _ (s : MsgSection) (more : List MsgSection) where
  command-crash :
      (c : FapCommand) (front : List MsgSection)
      → NoEnd (front ++ s ∷ [])
      → data_integer (front ++ s ∷ more) ≡ fap_command c
      → Matches (st_integer ∷ command_fields c) (front ++ s ∷ more)
      → whole command front ≡ crash
  command-crash c [] end e m = unfold validate_type testst in refl
  command-crash c (x ∷ front) end e m =
      let same = data_integer-cons x front (front ++ s ∷ more) in
      whole-command c (x ∷ front) (ap fap_command_of (same ∙ e) ∙ command_of c)
      ∙ run-crash (st_integer ∷ command_fields c) (x ∷ front) s more (command_row-ne-zero c) end m

  row-crash :
      (r : FapResponse) (ts : List ℕ) (front : List MsgSection)
      → fap_response_of (data_integer front) ≡ some r
      → response_row r front ≡ ts
      → All (λ t. t ≢ 0) ts
      → NoEnd (front ++ s ∷ [])
      → Matches ts (front ++ s ∷ more)
      → whole response front ≡ crash
  row-crash r ts front e row nz end m =
      whole-response r front e
      ∙ response-run r front
      ∙ ap (λ t. run t front) row
      ∙ run-crash ts front s more nz end m

  fileinfo-crash :
      (front : List MsgSection)
      → NoEnd (front ++ s ∷ [])
      → data_integer (front ++ s ∷ more) ≡ 2
      → Matches (fileinfo_fields (front ++ s ∷ more)) (front ++ s ∷ more)
      → whole response front ≡ crash
  unfolding response_row run
  fileinfo-crash [] end e m = unfold validate_type testst in refl
  fileinfo-crash (x ∷ []) end e m =
      whole-response fap_fileinfo (x ∷ [])
        (ap fap_response_of (data_integer-cons x [] (s ∷ more) ∙ e))
      ∙ response-run fap_fileinfo (x ∷ [])
      ∙ rw ((==_iff (section_type x) st_integer).1 m.0) refl
  fileinfo-crash (x ∷ (y ∷ front)) end e m =
      row-crash fap_fileinfo _ (x ∷ y ∷ front)
        (ap fap_response_of (data_integer-cons x (y ∷ front) (y ∷ (front ++ s ∷ more)) ∙ e))
        (ap (λ n. st_integer ∷ st_integer ∷ replicate (rounds n) st_fileinfo)
          (data_integer-cons y front (front ++ s ∷ more)))
        (fileinfo_fields-ne-zero (x ∷ y ∷ (front ++ s ∷ more))) end m

  response-crash :
      (r : FapResponse) (ts : List ℕ) (front : List MsgSection)
      → response_row r front ≡ st_integer ∷ ts
      → All (λ t. t ≢ 0) (st_integer ∷ ts)
      → fap_response_of (fap_response r) ≡ some r
      → NoEnd (front ++ s ∷ [])
      → data_integer (front ++ s ∷ more) ≡ fap_response r
      → Matches (st_integer ∷ ts) (front ++ s ∷ more)
      → whole response front ≡ crash
  response-crash r ts [] row nz of end e m = unfold validate_type testst in refl
  response-crash r ts (x ∷ front) row nz of end e m =
      row-crash r (st_integer ∷ ts) (x ∷ front)
        (ap fap_response_of (data_integer-cons x front (front ++ s ∷ more) ∙ e) ∙ of) row nz end m

  FapBody-crash :
      {t : FapType} (front : List MsgSection)
      → NoEnd (front ++ s ∷ [])
      → FapBody (front ++ s ∷ more) t
      → whole t front ≡ crash
  unfolding response_row
  FapBody-crash front end (hello_body m) =
      whole-hello front ∙ run-crash _ front s more (omega arith) end m
  FapBody-crash front end (hello_response_body m) =
      whole-hello_response front ∙ run-crash _ front s more (omega arith) end m
  FapBody-crash front end (quit_body m) = whole-quit front ∙ run-crash [] front s more tt end m
  FapBody-crash front end (command_body c e m) = command-crash c front end e m
  FapBody-crash front end (ok_body e m) =
      response-crash fap_ok _ front refl (omega arith) refl end e m
  FapBody-crash front end (fileinfo_body e m) = fileinfo-crash front end e m
  FapBody-crash front end (dataout_body e m) =
      response-crash fap_dataout _ front refl (omega arith) refl end e m
  FapBody-crash front end (error_body m) =
      whole-error front ∙ run-crash _ front s more (omega arith) end m

-- If a message of the protocol breaks off in front of one of its sections, fap_validate_sections does
-- not return: it follows the NULL at the end of the section array. The sections are those that
-- fsmsg_from_socket can return, without an ST_NONEXT.
pub fap_validate_sections-crash :
    (msg : Fsmsg) (s : MsgSection) (more : List MsgSection)
    → NoEnd (msg.sections ++ s ∷ [])
    → IsFapMessage (record msg { sections = msg.sections ++ s ∷ more })
    → fap_validate_sections msg ≡ crash
unfolding fap_validate_sections
fap_validate_sections-crash msg s more end m = rw (ap fap_type_of m.typed ∙ type_of m.type) (
    finish-crash (validate_type (some m.type) msg.sections)
      (FapBody-crash s more msg.sections end m.body))
