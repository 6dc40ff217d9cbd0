-- ===== src/Directory/Handlers/Listing.antt =====
-- What read_dir answers.
use netpro_project.Prelude.{
  ℕ, suc, ◌+◌, ◌%◌, ◌^◌, ◌<◌, ◌≡◌, refl, sym, ap, ◌∙◌, List, [], ◌∷◌, ◌++◌, append_assoc,
  append-nil, true, false, some, replicate, arith,
}
use netpro_project.Protomsg.{
  MsgSection, integer, fileinfo, nonext, Fsmsg, fsmsg_add_section, st_fileinfo, rounds,
}
use netpro_project.Protomsg.Testst.{pass}
use netpro_project.Protomsg.Testst.Laws.{Matches}
use netpro_project.Dcp.{fileinfo as fileinfo_reply, dcp_type, dcp_create_msg}
use netpro_project.Dcp.Validate.{dcp_validate_sections}
use netpro_project.Dcp.Validate.Laws.{dcp_validate_sections_iff, dcp_fields}
use netpro_project.Dcp.Send.{FileservInfo}
use netpro_project.Directory.Tree.{Forest, null, node, Dir, dir_find_node, target, count}
use netpro_project.Directory.Handlers.{
  Server, sent, user, listed, add_files, count_up, read_dir_reply, read_dir,
}

-- One section for each node, in their order.
abbrev pub entries : Forest → List MsgSection
entries null = []
entries (node x children next) = fileinfo (listed x.name user) ∷ entries next

sum-zero : (n : ℕ) → n ≡ n + 0
sum-zero n = omega arith

zero-sum : (n : ℕ) → 0 + n ≡ n
zero-sum n = omega arith

sum-suc : (n k : ℕ) → n + 1 + k ≡ n + suc k
sum-suc n k = omega arith

pub rounds-small : (n : ℕ) → n < 2 ^ 31 → rounds n ≡ n
rounds-small n h = ground arith

pub small-mod : (n : ℕ) → n < 2 ^ 32 → n % 2 ^ 32 ≡ n
small-mod n h = omega arith

one-more :
    (n : ℕ) (ss : List MsgSection) (entry : MsgSection) (sections : List MsgSection)
    → sections ≡ integer n ∷ ss
    → n + 1 < 2 ^ 32
    → count_up sections ++ entry ∷ [] ≡ integer (n + 1) ∷ (ss ++ entry ∷ [])
one-more n ss entry sections h small = rw (h, small-mod (n + 1) small) refl

add_files-sections :
    (t : Forest) (msg : Fsmsg) (n : ℕ) (ss : List MsgSection)
    → msg.sections ≡ integer n ∷ ss
    → n + count t < 2 ^ 32
    → (add_files t msg).sections ≡ integer (n + count t) ∷ (ss ++ entries t)
unfolding add_files fsmsg_add_section
add_files-sections null msg n ss h small =
    h
    ∙ ap (λ k. integer k ∷ ss) (sum-zero n)
    ∙ ap {B = List MsgSection} (λ t. integer (n + 0) ∷ t) (sym (append-nil ss))
add_files-sections (node x children next) msg n ss h small =
    let entry = fileinfo (listed x.name user) in
    add_files-sections next _ (n + 1) (ss ++ entry ∷ [])
      (one-more n ss entry msg.sections h (omega arith)) (omega arith)
    ∙ ap (λ k. integer k ∷ ((ss ++ entry ∷ []) ++ entries next)) (sum-suc n (count next))
    ∙ ap {B = List MsgSection} (λ t. integer (n + suc (count next)) ∷ t)
        (append_assoc ss (entry ∷ []) (entries next))

add_files-type : (t : Forest) (msg : Fsmsg) → (add_files t msg).msg_type ≡ msg.msg_type
unfolding add_files fsmsg_add_section
add_files-type null msg = refl
add_files-type (node x children next) msg = add_files-type next _

entries-match : (t : Forest) → Matches (replicate (count t) st_fileinfo) (entries t ++ nonext ∷ [])
entries-match null = refl
entries-match (node x children next) = (refl, entries-match next)

module _ (heap fsid i : ℕ) (info : FileservInfo) where
  reply-type : (t : Forest) → (read_dir_reply heap fsid i info t).msg_type ≡ dcp_type fileinfo_reply
  unfolding read_dir_reply dcp_create_msg fsmsg_add_section
  reply-type t = add_files-type t _

  reply-sections :
      (t : Forest)
      → count t < 2 ^ 31
      → (read_dir_reply heap fsid i info t).sections
        ≡ integer (count t) ∷ (entries t ++ nonext ∷ [])
  unfolding read_dir_reply dcp_create_msg fsmsg_add_section
  reply-sections t small =
      ap (λ ss. ss ++ nonext ∷ []) (add_files-sections t _ 0 [] refl (omega arith))
      ∙ ap (λ k. integer k ∷ (entries t ++ nonext ∷ [])) (zero-sum (count t))

  -- The whole message, but for the ids.
  add_files-record :
      (t : Forest) (msg : Fsmsg)
      → add_files t msg ≡ record msg { sections = (add_files t msg).sections }
  unfolding add_files fsmsg_add_section
  add_files-record null msg = refl
  add_files-record (node x children next) msg = add_files-record next _

  pub read_dir_reply_lem :
      (t : Forest)
      → count t < 2 ^ 31
      → read_dir_reply heap fsid i info t
        ≡ record (dcp_create_msg heap info.lasttid info.id fsid fileinfo_reply) {
          sections = integer (count t) ∷ (entries t ++ nonext ∷ []);
        }
  unfolding read_dir_reply dcp_create_msg fsmsg_add_section
  read_dir_reply_lem t small =
      ap (λ m. fsmsg_add_section m nonext) (add_files-record t _)
      ∙ ap
          (λ ss. record (dcp_create_msg heap info.lasttid info.id fsid fileinfo_reply) {
            sections = ss;
          })
          (reply-sections t small)

  reply-Matches :
      (t : Forest)
      → count t < 2 ^ 31
      → Matches
          (dcp_fields (some fileinfo_reply) (integer (count t) ∷ (entries t ++ nonext ∷ [])))
          (integer (count t) ∷ (entries t ++ nonext ∷ []))
  reply-Matches t small = (refl, rw (rounds-small (count t) small) (entries-match t))

  reply-accepted :
      (t : Forest)
      → count t < 2 ^ 31
      → dcp_validate_sections (read_dir_reply heap fsid i info t) ≡ pass tt
  reply-accepted t small =
      (dcp_validate_sections_iff _).1
        (rw (reply-type t, reply-sections t small) (reply-Matches t small))

  -- read_dir, on a free mutex and a path that is there, sends the children of its node in their order,
  -- with their number, if that is a positive int32_t, and leaves the state as it was; dcp_validate_sections
  -- accepts the message.
  pub read_dir-lists :
      (recurse : ℕ) (path n : List ℕ) (s : Server) (d : Dir)
      → s.dirlock ≡ false
      → dir_find_node path true s.dirroot ≡ some n
      → target n s.dirroot ≡ some d
      → count d.children < 2 ^ 31
      → (msg : Fsmsg) × ((read_dir heap fsid i info recurse path s ≡ sent s msg)
          × ((msg.sections ≡ integer (count d.children) ∷ (entries d.children ++ nonext ∷ []))
              × (dcp_validate_sections msg ≡ pass tt)))
  unfolding read_dir
  read_dir-lists recurse path n s d free found there small = (
    read_dir_reply heap fsid i info d.children,
    (
      rw (free, found, there) refl,
      (reply-sections d.children small, reply-accepted d.children small),
    ),
  )
