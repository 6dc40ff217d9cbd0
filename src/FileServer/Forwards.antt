-- ===== src/FileServer/Forwards.antt =====
-- A response of the directory server as the file server passes it on to the client.
use netpro_project.Prelude.{
  ℕ, zero, suc, ◌≡◌, ◌≢◌, ◌&&◌, if◌then◌else◌, Bool, true, false, Option, none, refl, ap, ◌∙◌, List,
  [], ◌∷◌, ◌++◌, append_assoc, inl, inr, replicate, take, All, some, arith,
}
use netpro_project.Protomsg.{
  MsgSection, integer, string, binary, fileinfo, nonext, unknown, Fsmsg, fsmsg_add_section, rounds,
  st_fileinfo,
}
use netpro_project.Protomsg.Testst.{pass}
use netpro_project.Protomsg.Testst.Laws.{Matches}
use netpro_project.Protomsg.Response.{accepted, expect_id-same}
use netpro_project.Dcp.{read, fileinfo as fileinfo_reply, dcp_type, dcp_type_of}
use netpro_project.Dcp.Validate.{dcp_validate_sections}
use netpro_project.Dcp.Validate.Laws.{dcp_fields, dcp_validate_sections_iff}
use netpro_project.Dcp.Respond.{dcp_check_response, dcp_check_response_iff}
use netpro_project.Dcp.Send.{dcp_send_error}
use netpro_project.Fap.{response, fap_create_msg}
use netpro_project.Fap.Validate.{fap_validate_sections}
use netpro_project.Fap.Validate.Layout.{fileinfo_body}
use netpro_project.Fap.Validate.Laws.{fap_validate_sections_iff}
use netpro_project.Fap.Send.{fap_send_error}
use netpro_project.Directory.Handlers.{listed, user, err_exists, already_exists, create_reply}
use netpro_project.FileServer.{
  ClientInfo, answered, fileinfo_msg, copy_files, list_answer, list_directory, create_answer,
  create_file,
}
use mathlib.Core.Path.{subst}

-- A message as fsmsg_from_socket returns it: its sections end in front of ST_NONEXT.
abbrev pub up_to_end : List MsgSection → List MsgSection
up_to_end [] = []
up_to_end (nonext ∷ ss) = []
up_to_end (s ∷ ss) = s ∷ up_to_end ss

abbrev pub arrived : Fsmsg → Fsmsg
arrived msg = record msg { sections = up_to_end msg.sections }

-- A file information with an empty path or user name cannot be read.
abbrev pub not_empty : List ℕ → Bool
not_empty [] = false
not_empty (c ∷ cs) = true

abbrev pub is_readable : MsgSection → Bool
is_readable (fileinfo f) = not_empty f.path && not_empty f.username
is_readable s = true

abbrev pub are_readable : List MsgSection → Bool
are_readable [] = true
are_readable (s ∷ ss) = is_readable s && are_readable ss

-- What fsmsg_from_socket returns of the bytes of a message.
abbrev pub received : Fsmsg → Option Fsmsg
received msg = if are_readable (up_to_end msg.sections) then some (arrived msg) else none

pub not_empty-true : (text : List ℕ) → text ≢ [] → not_empty text ≡ true
not_empty-true [] h = absurd (h refl)
not_empty-true (c ∷ cs) h = refl

-- Every section has one of the tags of enum section_type, as in every message that fsmsg_from_socket
-- returns.
abbrev pub IsKnown : MsgSection → Type 0
IsKnown (unknown t) = ⊥
IsKnown _ = Unit {0}

copy_files_lem :
    (heap sid fsid : ℕ) (info : ClientInfo) (n : ℕ) (ss : List MsgSection) (climsg : Fsmsg)
    → All IsKnown ss
    → Matches (replicate n st_fileinfo) ss
    → copy_files heap sid fsid info n ss climsg
      ≡ answered (record climsg { sections = climsg.sections ++ (take n ss ++ nonext ∷ []) })
unfolding copy_files fsmsg_add_section
copy_files_lem heap sid fsid info zero ss climsg k m = refl
copy_files_lem heap sid fsid info (suc n) [] climsg k m = elim m [ ]
copy_files_lem heap sid fsid info (suc n) (fileinfo f ∷ ss) climsg (_, k) (_, m) =
    copy_files_lem heap sid fsid info n ss _ k m
    ∙ ap (λ t. answered (record climsg { sections = t }))
        (append_assoc climsg.sections (fileinfo f ∷ []) (take n ss ++ nonext ∷ []))
copy_files_lem heap sid fsid info (suc n) (integer k ∷ ss) climsg _ (e, m) = absurd (omega arith)
copy_files_lem heap sid fsid info (suc n) (string k ∷ ss) climsg _ (e, m) = absurd (omega arith)
copy_files_lem heap sid fsid info (suc n) (binary k ∷ ss) climsg _ (e, m) = absurd (omega arith)
copy_files_lem heap sid fsid info (suc n) (nonext ∷ ss) climsg _ (e, m) = absurd (omega arith)
copy_files_lem heap sid fsid info (suc n) (unknown t ∷ ss) climsg (k, _) m = absurd k

files-Matches :
    (n : ℕ) (ss : List MsgSection)
    → Matches (replicate n st_fileinfo) ss
    → Matches (replicate n st_fileinfo) (take n ss ++ nonext ∷ [])
files-Matches zero ss m = refl
files-Matches (suc n) [] m = elim m [ ]
files-Matches (suc n) (s ∷ ss) (e, m) = (e, files-Matches n ss m)

-- A response to DCP_READ that passes the checks is a list of files.
response-type :
    (dirmsg : Fsmsg) (tid sid fsid : ℕ)
    → dcp_check_response (some dirmsg) tid sid fsid (dcp_type read) ≡ accepted
    → dirmsg.msg_type ≡ dcp_type fileinfo_reply
response-type dirmsg tid sid fsid checked =
    elim ((dcp_check_response_iff dirmsg tid sid fsid (dcp_type read)).0 checked).answers [
      | inl zero_type ↦ absurd (omega arith)
      | inr is_reply ↦ is_reply
    ]

reply-Matches :
    (n : ℕ) (ss : List MsgSection) (dirmsg : Fsmsg)
    → dirmsg.sections ≡ integer n ∷ ss
    → dirmsg.msg_type ≡ dcp_type fileinfo_reply
    → dcp_validate_sections dirmsg ≡ pass tt
    → Matches (replicate (rounds n) st_fileinfo) ss
reply-Matches n ss dirmsg sections type valid =
    let m = (dcp_validate_sections_iff dirmsg).0 valid in
    let at_type : Matches (dcp_fields (dcp_type_of 15) dirmsg.sections) dirmsg.sections =
      (rw type at m) in
    let at_sections : Matches (dcp_fields (dcp_type_of 15) (integer n ∷ ss)) (integer n ∷ ss) =
      subst (λ t. Matches (dcp_fields (dcp_type_of 15) t) t) sections at_type in
    at_sections.1

module _ (heap sid fsid : ℕ) (info : ClientInfo) where
  -- The message that a client is sent with these files.
  abbrev pub files_msg : ℕ → List MsgSection → Fsmsg
  files_msg n files = record (fap_create_msg heap info.lasttid sid info.id fsid response) {
    sections = integer 2 ∷ integer n ∷ (files ++ nonext ∷ []);
  }

  files_msg-accepted :
      (n : ℕ) (files : List MsgSection)
      → Matches (replicate (rounds n) st_fileinfo) (files ++ nonext ∷ [])
      → fap_validate_sections (files_msg n files) ≡ pass tt
  unfolding fap_create_msg
  files_msg-accepted n files m =
      (fap_validate_sections_iff _).1
        (record { type = response; typed = refl; body = fileinfo_body refl (refl, (refl, m)) })

  list_answer_lem :
      (n : ℕ) (ss : List MsgSection)
      → All IsKnown ss
      → Matches (replicate (rounds n) st_fileinfo) ss
      → list_answer heap sid fsid info (integer n ∷ ss)
        ≡ answered (files_msg n (take (rounds n) ss))
  unfolding list_answer fileinfo_msg fap_create_msg fsmsg_add_section
  list_answer_lem n ss k m = copy_files_lem heap sid fsid info (rounds n) ss _ k m

  -- If the directory server's response to list_directory passes the checks, and has no sections of unknown
  -- types, then the client is sent the count of the response and as many of its file informations, in
  -- their order, and fap_validate_sections accepts the message.
  pub list_directory-answers :
      (tid n : ℕ) (ss : List MsgSection) (dirmsg : Fsmsg)
      → dirmsg.sections ≡ integer n ∷ ss
      → All IsKnown ss
      → dcp_check_response (some dirmsg) tid sid fsid (dcp_type read) ≡ accepted
      → dcp_validate_sections dirmsg ≡ pass tt
      → (list_directory heap sid fsid info tid (some dirmsg)
          ≡ answered (files_msg n (take (rounds n) ss)))
        × (fap_validate_sections (files_msg n (take (rounds n) ss)) ≡ pass tt)
  unfolding list_directory
  list_directory-answers tid n ss dirmsg sections known checked valid =
      let m =
        reply-Matches n ss dirmsg sections (response-type dirmsg tid sid fsid checked) valid in
      (
        rw (checked, valid, sections) (list_answer_lem n ss known m),
        files_msg-accepted n (take (rounds n) ss) (files-Matches (rounds n) ss m),
      )

  -- The answer of the directory server that a path exists reaches the client of create_file as the FAP
  -- error ERR_EXISTS of its own transaction.
  pub create_file-exists :
      (heap' tid : ℕ)
      → create_file heap sid fsid info tid
          (received (dcp_send_error heap' fsid tid sid err_exists already_exists))
        ≡ answered (fap_send_error heap sid fsid info.lasttid info.id err_exists already_exists)
  unfolding create_file dcp_check_response dcp_send_error
  create_file-exists heap' tid = simp expect_id-same

  -- The answer of the directory server to a path that it has added, with a name, reaches the client of create_file as
  -- one file information with the name of the node, which fap_validate_sections accepts.
  pub create_file-answers :
      (heap' i tid : ℕ) (address name : List ℕ)
      → name ≢ []
      → (create_file heap sid fsid info tid (
            received (
              create_reply heap' fsid i
                (record { id = sid; lasttid = tid; address = address })
                name))
          ≡ answered (files_msg 1 (fileinfo (listed name user) ∷ [])))
        × (fap_validate_sections (files_msg 1 (fileinfo (listed name user) ∷ [])) ≡ pass tt)
  unfolding create_file dcp_check_response create_reply create_answer fileinfo_msg
      dcp_validate_sections fap_create_msg fsmsg_add_section
  create_file-answers heap' i tid address name named = (
    rw (not_empty-true name named) (simp expect_id-same),
    files_msg-accepted 1 (fileinfo (listed name user) ∷ []) (refl, refl),
  )
