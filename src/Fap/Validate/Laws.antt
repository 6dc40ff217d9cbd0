-- ===== src/Fap/Validate/Laws.antt =====
-- fap_validate_sections accepts the messages of the protocol and no others.
use netpro_project.Prelude.{
  ◌≡◌, ◌↔◌, sym, ap, ◌∙◌, List, [], ◌∷◌, some, Option-cases, inl, inr, arith,
}
use netpro_project.Protomsg.{MsgSection, Fsmsg, st_nonext, st_integer}
use netpro_project.Protomsg.Testst.{Check, pass, reject, ◌>>=◌, testst, data_integer}
use netpro_project.Protomsg.Testst.Laws.{
  run, Matches, Passes, Passes-run→Matches, Matches→Passes-run, Passes-reject, finish_iff,
}
use netpro_project.Fap.{
  FapType, hello, hello_response, quit, command, response, error, fap_type_of, fap_command_of,
  FapResponse, fap_ok, fap_fileinfo, fap_dataout, fap_response, fap_response_of,
}
use netpro_project.Fap.Validate.{validate_type, fap_validate_sections}
use netpro_project.Fap.Validate.Layout.{
  command_fields, fileinfo_fields, FapBody, hello_body, hello_response_body, quit_body,
  command_body, ok_body, fileinfo_body, dataout_body, error_body, IsFapMessage,
}
use mathlib.Core.Path.{subst}
use netpro_project.Fap.Validate.Rows.{
  whole, whole-command, whole-command_none, whole-response, whole-response_none, whole-hello,
  whole-hello_response, whole-quit, whole-error, response_row, response-run, of_type, of_command,
  of_response, type_of, command_of, command_row-ne-zero, fileinfo_fields-ne-zero,
}

-- From the tests to the description.
command-FapBody : (s : List MsgSection) → Passes (whole command s) → FapBody s command
command-FapBody s h = elim (Option-cases (fap_command_of (data_integer s))) [
  | inl e ↦ absurd (Passes-reject (testst st_integer s) (subst Passes (whole-command_none s e) h))
  | inr (c, e) ↦ command_body c (of_command (data_integer s) c e) (
      Passes-run→Matches (st_integer ∷ command_fields c) s (command_row-ne-zero c)
        (subst Passes (whole-command c s e) h))
]

response_row-FapBody :
    (r : FapResponse) (s : List MsgSection)
    → data_integer s ≡ fap_response r
    → Passes (run (response_row r s) s)
    → FapBody s response
unfolding response_row
response_row-FapBody fap_ok s e h = ok_body e (Passes-run→Matches _ s (omega arith) h)
response_row-FapBody fap_fileinfo s e h =
    fileinfo_body e (Passes-run→Matches (fileinfo_fields s) s (fileinfo_fields-ne-zero s) h)
response_row-FapBody fap_dataout s e h = dataout_body e (Passes-run→Matches _ s (omega arith) h)

response-FapBody : (s : List MsgSection) → Passes (whole response s) → FapBody s response
response-FapBody s h = elim (Option-cases (fap_response_of (data_integer s))) [
  | inl e ↦ absurd (Passes-reject (testst st_integer s) (subst Passes (whole-response_none s e) h))
  | inr (r, e) ↦
      response_row-FapBody r s (of_response (data_integer s) r e)
        (subst Passes (whole-response r s e ∙ response-run r s) h)
]

whole-FapBody : (t : FapType) (s : List MsgSection) → Passes (whole t s) → FapBody s t
whole-FapBody hello s h =
    hello_body (Passes-run→Matches _ s (omega arith) (subst Passes (whole-hello s) h))
whole-FapBody hello_response s h =
    hello_response_body
      (Passes-run→Matches _ s (omega arith) (subst Passes (whole-hello_response s) h))
whole-FapBody quit s h = quit_body (Passes-run→Matches [] s tt (subst Passes (whole-quit s) h))
whole-FapBody command s h = command-FapBody s h
whole-FapBody response s h = response-FapBody s h
whole-FapBody error s h =
    error_body (Passes-run→Matches _ s (omega arith) (subst Passes (whole-error s) h))

-- And back.
response_run-Passes :
    (r : FapResponse) (s : List MsgSection)
    → fap_response_of (data_integer s) ≡ some r
    → Matches (response_row r s) s
    → Passes (whole response s)
response_run-Passes r s e m =
    subst Passes (sym (whole-response r s e ∙ response-run r s))
      (Matches→Passes-run (response_row r s) s m)

FapBody-whole : {t : FapType} {s : List MsgSection} → FapBody s t → Passes (whole t s)
unfolding response_row
FapBody-whole {s = s} (hello_body m) = subst Passes (sym (whole-hello s)) (Matches→Passes-run _ s m)
FapBody-whole {s = s} (hello_response_body m) =
    subst Passes (sym (whole-hello_response s)) (Matches→Passes-run _ s m)
FapBody-whole {s = s} (quit_body m) = subst Passes (sym (whole-quit s)) (Matches→Passes-run [] s m)
FapBody-whole {s = s} (command_body c e m) =
    subst Passes (sym (whole-command c s (ap fap_command_of e ∙ command_of c)))
      (Matches→Passes-run (st_integer ∷ command_fields c) s m)
FapBody-whole {s = s} (ok_body e m) = response_run-Passes fap_ok s (ap fap_response_of e) m
FapBody-whole {s = s} (fileinfo_body e m) =
    response_run-Passes fap_fileinfo s (ap fap_response_of e) m
FapBody-whole {s = s} (dataout_body e m) =
    response_run-Passes fap_dataout s (ap fap_response_of e) m
FapBody-whole {s = s} (error_body m) = subst Passes (sym (whole-error s)) (Matches→Passes-run _ s m)

-- fap_validate_sections returns 0 on a message exactly when it is one of the messages that the
-- protocol description lists: its type is known, and its sections are those of the type (for a
-- command, of the command that its first section names; for a response, of its response number, with
-- as many file sections as it announces), up to the end of the array or a section ST_NONEXT.
pub fap_validate_sections_iff :
    (msg : Fsmsg) → (fap_validate_sections msg ≡ pass tt) ↔ IsFapMessage msg
unfolding fap_validate_sections
fap_validate_sections_iff msg = (there, back)
  where
    there :
        (validate_type (fap_type_of msg.msg_type) msg.sections >>= λ s.
        testst st_nonext s >>= λ end. pass tt)
          ≡ pass tt
        → IsFapMessage msg
    there h = elim (Option-cases (fap_type_of msg.msg_type)) [
      | inl e ↦ let r : ◌≡◌ {A = Check (Unit {0})} reject (pass tt) = rw e at h in cc
      | inr (t, e) ↦ record {
        type = t;
        typed = of_type msg.msg_type t e;
        body =
            whole-FapBody t msg.sections
              ((finish_iff (validate_type (some t) msg.sections)).0 (rw e at h));
      }
    ]

    back : IsFapMessage msg → fap_validate_sections msg ≡ pass tt
    back m =
        rw (ap fap_type_of m.typed ∙ type_of m.type)
          ((finish_iff (validate_type (some m.type) msg.sections)).1 (FapBody-whole m.body))
