-- ===== src/FileServer/Listings.antt =====
-- A listing on its way from the tree of the directory server through the file server to the client.
use netpro_project.Prelude.{
  ℕ, ◌<◌, ◌≢◌, ◌^◌, ◌≡◌, refl, ap, ◌∙◌, inr, List, [], ◌∷◌, ◌++◌, All, replicate, take, true, false,
  some,
}
use netpro_project.Protomsg.{
  MsgSection, integer, fileinfo, nonext, FileinfoSect, Fsmsg, st_fileinfo,
}
use netpro_project.Protomsg.Testst.{pass}
use netpro_project.Protomsg.Testst.Laws.{Matches}
use netpro_project.Protomsg.Response.{accepted, expect_id-same}
use netpro_project.Dcp.{read, fileinfo as fileinfo_reply, dcp_type, dcp_create_msg}
use netpro_project.Dcp.Send.{FileservInfo}
use netpro_project.Dcp.Respond.{dcp_check_response, dcp_check_response_iff}
use netpro_project.Dcp.Validate.{dcp_validate_sections}
use netpro_project.Dcp.Validate.Laws.{dcp_validate_sections_iff}
use netpro_project.Fap.{response, fap_create_msg}
use netpro_project.Fap.Respond.{fap_check_response}
use netpro_project.Fap.Validate.{fap_validate_sections}
use netpro_project.Fap.Validate.Layout.{fileinfo_body}
use netpro_project.Fap.Validate.Laws.{fap_validate_sections_iff}
use netpro_project.Fap.Client.{returns, copy_files, list_result, command_response, fap_list}
use netpro_project.Directory.Tree.{Forest, null, node, Dir, dir_find_node, target, count}
use netpro_project.Directory.Handlers.{Server, sent, user, listed, read_dir_reply, read_dir}
use netpro_project.Directory.Handlers.Listing.{entries, read_dir_reply_lem, rounds-small}
use netpro_project.FileServer.{ClientInfo, answered, list_directory}
use netpro_project.FileServer.Forwards.{
  IsKnown, up_to_end, are_readable, received, not_empty-true, files_msg, list_directory-answers,
}

-- The files that a client is to see: the names of the nodes in their order, the user name "user", and
-- zeros for the rest.
abbrev pub file_of : List ℕ → FileinfoSect
file_of name = record {
  type = 0;
  path = name;
  username = b'u' ∷ b's' ∷ b'e' ∷ b'r' ∷ [];
  modified = 0;
  size = 0;
  replicas = 0;
}

abbrev pub files_of : Forest → List FileinfoSect
files_of null = []
files_of (node x children next) = file_of x.name ∷ files_of next

-- The names of the files in a directory, in their order.
unfoldable pub names_of : Forest → List (List ℕ)
names_of null = []
names_of (node x children next) = x.name ∷ names_of next

entries-are_readable :
    (t : Forest) → All (λ n. n ≢ []) (names_of t) → are_readable (entries t) ≡ true
unfolding names_of
entries-are_readable null h = refl
entries-are_readable (node x children next) (h, hs) =
    rw (not_empty-true x.name h, entries-are_readable next hs) refl

up_to_end-entries : (t : Forest) → up_to_end (entries t ++ nonext ∷ []) ≡ entries t
up_to_end-entries null = refl
up_to_end-entries (node x children next) =
    ap {B = List MsgSection} (λ ss. fileinfo (listed x.name user) ∷ ss) (up_to_end-entries next)

take-entries : (t : Forest) → take (count t) (entries t) ≡ entries t
take-entries null = refl
take-entries (node x children next) =
    ap {B = List MsgSection} (λ ss. fileinfo (listed x.name user) ∷ ss) (take-entries next)

entries-IsKnown : (t : Forest) → All IsKnown (entries t)
entries-IsKnown null = tt
entries-IsKnown (node x children next) = (tt, entries-IsKnown next)

entries-Matches : (t : Forest) → Matches (replicate (count t) st_fileinfo) (entries t)
entries-Matches null = tt
entries-Matches (node x children next) = (refl, entries-Matches next)

copy_files-entries : (t : Forest) → copy_files (count t) (entries t) ≡ some (files_of t)
unfolding copy_files
copy_files-entries null = refl
copy_files-entries (node x children next) = rw (copy_files-entries next) refl

module _ (heap sid fsid tid : ℕ) where
  -- The answer of read_dir as fsmsg_from_socket returns it.
  abbrev reply : Forest → Fsmsg
  reply t = record (dcp_create_msg heap tid sid fsid fileinfo_reply) {
    sections = integer (count t) ∷ entries t;
  }

  reply-accepted :
      (t : Forest) → dcp_check_response (some (reply t)) tid sid fsid (dcp_type read) ≡ accepted
  unfolding dcp_create_msg
  reply-accepted t = (dcp_check_response_iff (reply t) tid sid fsid (dcp_type read)).1 (record {
    same_tid = inr refl;
    same_sid = inr refl;
    same_fsid = inr refl;
    answers = inr refl;
  })

  reply-valid : (t : Forest) → count t < 2 ^ 31 → dcp_validate_sections (reply t) ≡ pass tt
  unfolding dcp_create_msg
  reply-valid t small =
      (dcp_validate_sections_iff (reply t)).1
        (refl, rw (rounds-small (count t) small) (entries-Matches t))

module _ (heap sid fsid : ℕ) (info : ClientInfo) where
  -- The client's list as fsmsg_from_socket returns it.
  abbrev climsg : Forest → Fsmsg
  climsg t = record (fap_create_msg heap info.lasttid sid info.id fsid response) {
    sections = integer 2 ∷ integer (count t) ∷ entries t;
  }

  climsg-valid : (t : Forest) → count t < 2 ^ 31 → fap_validate_sections (climsg t) ≡ pass tt
  unfolding fap_create_msg
  climsg-valid t small = (fap_validate_sections_iff (climsg t)).1 (record {
    type = response;
    typed = refl;
    body = fileinfo_body refl (refl, (refl, rw (rounds-small (count t) small) (entries-Matches t)));
  })

  fap_list-climsg :
      (t : Forest)
      → count t < 2 ^ 31
      → fap_list info.lasttid sid info.id fsid (some (climsg t))
        ≡ returns (record { count = count t; files = files_of t })
  unfolding fap_list command_response fap_check_response list_result fap_create_msg
  fap_list-climsg t small =
      rw
        (
          expect_id-same info.lasttid 2 _,
          expect_id-same sid 3 _,
          expect_id-same info.id 4 _,
          expect_id-same fsid 5 _,
          climsg-valid t small,
          rounds-small (count t) small,
          copy_files-entries t,
        )
        refl

  list_directory-reply :
      (heap' tid : ℕ) (t : Forest)
      → count t < 2 ^ 31
      → list_directory heap sid fsid info tid (some (reply heap' sid fsid tid t))
        ≡ answered (files_msg heap sid fsid info (count t) (entries t))
  list_directory-reply heap' tid t small =
      (list_directory-answers heap sid fsid info tid (count t) (entries t)
        (reply heap' sid fsid tid t) refl (entries-IsKnown t) (reply-accepted heap' sid fsid tid t)
        (reply-valid heap' sid fsid tid t small)).0
      ∙ ap (λ ss. answered (files_msg heap sid fsid info (count t) ss))
          (ap (λ n. take n (entries t)) (rounds-small (count t) small) ∙ take-entries t)

received-sections :
    (msg : Fsmsg) (head : List MsgSection → List MsgSection) (t : Forest)
    → ((ss : List MsgSection) → up_to_end (head ss) ≡ head (up_to_end ss))
    → ((ss : List MsgSection) → are_readable (head ss) ≡ are_readable ss)
    → All (λ n. n ≢ []) (names_of t)
    → received (record msg { sections = head (entries t ++ nonext ∷ []) })
      ≡ some (record msg { sections = head (entries t) })
received-sections msg head t front readable named =
    rw
      (
        front (entries t ++ nonext ∷ []),
        up_to_end-entries t,
        readable (entries t),
        entries-are_readable t named,
      )
      refl

-- A listing from end to end: for a path that is there, on a free mutex, with fewer than 2 ^ 31 entries
-- of which none has an empty name, the answer of read_dir for one level makes list_directory answer the
-- client, and of that answer fap_list returns the number of the children and their names in the order of
-- the tree, each with the user name "user" and zeros for the rest.
pub fap_list-read_dir :
    (heap heap' sid fsid i tid : ℕ) (address path n : List ℕ) (info : ClientInfo) (s : Server)
    (d : Dir)
    → s.dirlock ≡ false
    → dir_find_node path true s.dirroot ≡ some n
    → target n s.dirroot ≡ some d
    → count d.children < 2 ^ 31
    → All (λ n. n ≢ []) (names_of d.children)
    → (dirmsg : Fsmsg) × (msg : Fsmsg) × ((read_dir heap' fsid i
            (record { id = sid; lasttid = tid; address = address })
            1
            path
            s
          ≡ sent s dirmsg)
        × ((list_directory heap sid fsid info tid (received dirmsg) ≡ answered msg)
            × (fap_list info.lasttid sid info.id fsid (received msg)
                ≡ returns (record { count = count d.children; files = files_of d.children }))))
unfolding read_dir
fap_list-read_dir heap heap' sid fsid i tid address path n info s d free found there small named =
    let srv : FileservInfo = record { id = sid; lasttid = tid; address = address } in
    let t = d.children in
    (
      read_dir_reply heap' fsid i srv t,
      files_msg heap sid fsid info (count t) (entries t),
      (
        rw (free, found, there) refl,
        (
          ap (list_directory heap sid fsid info tid) (
                ap received (read_dir_reply_lem heap' fsid i srv t small)
                ∙ received-sections (dcp_create_msg heap' tid sid fsid fileinfo_reply)
                    (λ ss. integer (count t) ∷ ss) t (λ ss. refl) (λ ss. refl) named)
              ∙ list_directory-reply heap sid fsid info heap' tid t small,
          ap (fap_list info.lasttid sid info.id fsid) (
                received-sections (fap_create_msg heap info.lasttid sid info.id fsid response)
                  (λ ss. integer 2 ∷ integer (count t) ∷ ss) t (λ ss. refl) (λ ss. refl) named)
              ∙ fap_list-climsg heap sid fsid info t small,
        ),
      ),
    )
