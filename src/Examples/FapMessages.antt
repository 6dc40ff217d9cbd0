-- ===== src/Examples/FapMessages.antt =====
-- src/fap.c at concrete messages.
use netpro_project.Prelude.{◌≡◌, ◌↔◌, refl, [], ◌∷◌, some, arith}
use netpro_project.Protomsg.{integer, string, nonext, Fsmsg}
use netpro_project.Protomsg.Testst.{pass, reject, crash}
use netpro_project.Protomsg.Response.{accepted, crash as null_pointer}
use netpro_project.Fap.{hello}
use netpro_project.Fap.Respond.{fap_check_response, IsResponse, fap_check_response_iff}
use netpro_project.Fap.Validate.{fap_validate_sections}
use netpro_project.Fap.Validate.Layout.{hello_body}
use netpro_project.Fap.Validate.Short.{fap_validate_sections-crash}

abbrev error_msg : Fsmsg
error_msg = record { tid = 4; ids = 1 ∷ 2 ∷ 9 ∷ []; msg_type = 8; sections = integer 3 ∷ [] }

abbrev response_msg : Fsmsg
response_msg = record error_msg { msg_type = 6 }

abbrev hello_msg : Fsmsg
hello_msg = record {
  tid = 1;
  ids = 0 ∷ 0 ∷ 0 ∷ [];
  msg_type = 1;
  sections = string (b'h' ∷ []) ∷ string (b'u' ∷ []) ∷ [];
}

-- FAP_HELLO with the host name alone.
abbrev short_hello : Fsmsg
short_hello = record hello_msg { sections = string (b'h' ∷ []) ∷ [] }

hello_accepted : fap_validate_sections hello_msg ≡ pass tt
unfolding fap_validate_sections
hello_accepted = refl

list_refused :
    fap_validate_sections (record hello_msg {
      msg_type = 5;
      sections = integer 10 ∷ string [] ∷ string [] ∷ nonext ∷ [];
    })
    ≡ reject
unfolding fap_validate_sections
list_refused = refl

-- A file information response with a negative count of files, ended by ST_NONEXT.
negative_count_accepted :
    fap_validate_sections
      (record hello_msg { msg_type = 6; sections = integer 2 ∷ integer 0xffff_ffff ∷ nonext ∷ [] })
    ≡ pass tt
unfolding fap_validate_sections
negative_count_accepted = refl

fap_validate_sections-crash_example : fap_validate_sections short_hello ≡ crash
fap_validate_sections-crash_example =
    fap_validate_sections-crash short_hello (string (b'u' ∷ [])) [] (omega arith)
      (record { type = hello; typed = refl; body = hello_body (omega arith) })

fap_check_response_iff_example :
    (fap_check_response (some response_msg) 4 1 2 9 5 ≡ accepted)
    ↔ IsResponse response_msg 4 1 2 9 5
fap_check_response_iff_example = fap_check_response_iff response_msg 4 1 2 9 5

short_error_crashes : fap_check_response (some error_msg) 4 1 2 9 5 ≡ null_pointer
unfolding fap_check_response
short_error_crashes = refl
