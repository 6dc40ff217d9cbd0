-- ===== src/Dcp/Validate/Laws.antt =====
-- What dcp_validate_sections accepts, refuses, and does not survive.
use netpro_project.Prelude.{
  ℕ, zero, suc, ◌≡◌, ◌≢◌, ◌↔◌, refl, sym, ap, ◌∙◌, List, [], ◌∷◌, ◌++◌, replicate, append-nil, All,
  Option, none, some, arith,
}
use netpro_project.Protomsg.{
  MsgSection, Fsmsg, section_type, st_nonext, st_integer, st_string, st_fileinfo, rounds,
}
use netpro_project.Protomsg.Testst.{pass, crash, ◌>>=◌, testst, testst_times, data_integer}
use netpro_project.Protomsg.Testst.Laws.{
  run, Matches, Passes, Passes-run→Matches, Matches→Passes-run, run-crash, bind_assoc, bind_ext,
  run-replicate, finish_iff, finish-crash, NoEnd, data_integer-cons,
}
use netpro_project.Dcp.{
  DcpType, hello, hello_response, create, read, update, replica_status, get_replicas, fileinfo,
  dcp_type_of,
}
use netpro_project.Dcp.Validate.{validate_type, dcp_validate_sections}
use mathlib.Core.Path.{subst}

-- The types of the sections that a message must have: for the requests and responses that the servers
-- exchange those of doc/desc/protocols.md, and none for the types that the servers do not use yet,
-- for errors and for unknown numbers.
abbrev pub dcp_fields : Option DcpType → List MsgSection → List ℕ
dcp_fields (some hello) ss = st_string ∷ st_integer ∷ st_integer ∷ st_integer ∷ []
dcp_fields (some hello_response) ss = st_integer ∷ []
dcp_fields (some create) ss = st_fileinfo ∷ []
dcp_fields (some read) ss = st_integer ∷ st_string ∷ []
dcp_fields (some update) ss = st_fileinfo ∷ []
dcp_fields (some get_replicas) ss = st_string ∷ []
dcp_fields (some replica_status) ss = st_integer ∷ replicate (rounds (data_integer ss)) st_string
dcp_fields (some fileinfo) ss = st_integer ∷ replicate (rounds (data_integer ss)) st_fileinfo
dcp_fields _ ss = []

run-times :
    (n t : ℕ) (s : List MsgSection)
    → (testst_times n t s >>= testst st_nonext) ≡ run (replicate n t) s
unfolding run
run-times n t s = sym (run-replicate n t [] s) ∙ ap (λ ts. run ts s) (append-nil (replicate n t))

counted-run :
    (t : ℕ) (s : List MsgSection)
    → ((testst st_integer s >>= λ s1. testst_times (rounds (data_integer s)) t s1)
        >>= testst st_nonext)
      ≡ run (st_integer ∷ replicate (rounds (data_integer s)) t) s
unfolding run
counted-run t s =
    bind_assoc (testst st_integer s) _ _
    ∙ bind_ext (testst st_integer s) (run-times (rounds (data_integer s)) t)

validate_type-run :
    (t : Option DcpType) (s : List MsgSection)
    → (validate_type t s >>= testst st_nonext) ≡ run (dcp_fields t s) s
unfolding validate_type run
validate_type-run (some hello) s = simp bind_assoc
validate_type-run (some hello_response) s = refl
validate_type-run (some create) s = refl
validate_type-run (some read) s = simp bind_assoc
validate_type-run (some update) s = refl
validate_type-run (some get_replicas) s = refl
validate_type-run (some replica_status) s = counted-run st_string s
validate_type-run (some fileinfo) s = counted-run st_fileinfo s
validate_type-run none s = refl
validate_type-run (some _) s = refl

replicate-ne-zero : (n t : ℕ) → t ≢ 0 → All (λ t. t ≢ 0) (replicate n t)
replicate-ne-zero zero t h = tt
replicate-ne-zero (suc n) t h = (h, replicate-ne-zero n t h)

dcp_fields-ne-zero : (t : Option DcpType) (s : List MsgSection) → All (λ t. t ≢ 0) (dcp_fields t s)
dcp_fields-ne-zero (some hello) s = omega arith
dcp_fields-ne-zero (some hello_response) s = omega arith
dcp_fields-ne-zero (some create) s = omega arith
dcp_fields-ne-zero (some read) s = omega arith
dcp_fields-ne-zero (some update) s = omega arith
dcp_fields-ne-zero (some get_replicas) s = omega arith
dcp_fields-ne-zero (some replica_status) s =
    (omega arith, replicate-ne-zero (rounds (data_integer s)) st_string (omega arith))
dcp_fields-ne-zero (some fileinfo) s =
    (omega arith, replicate-ne-zero (rounds (data_integer s)) st_fileinfo (omega arith))
dcp_fields-ne-zero none s = tt
dcp_fields-ne-zero (some _) s = tt

-- dcp_validate_sections returns 0 on a message exactly when its sections have the types that the
-- table gives for its message type, up to the end of the array or a section ST_NONEXT.
pub dcp_validate_sections_iff :
    (msg : Fsmsg)
    → (dcp_validate_sections msg ≡ pass tt)
      ↔ Matches (dcp_fields (dcp_type_of msg.msg_type) msg.sections) msg.sections
unfolding dcp_validate_sections
dcp_validate_sections_iff msg =
    let t = dcp_type_of msg.msg_type in
    let s = msg.sections in
    let fields = dcp_fields t s in
    (
      λ h.
          Passes-run→Matches fields s (dcp_fields-ne-zero t s)
            (subst Passes (validate_type-run t s) ((finish_iff (validate_type t s)).0 h)),
      λ m.
          (finish_iff (validate_type t s)).1
            (subst Passes (sym (validate_type-run t s)) (Matches→Passes-run fields s m)),
    )

-- The table does not depend on what follows the first section.
dcp_fields-front :
    (t : Option DcpType) (x : MsgSection) (a b : List MsgSection)
    → dcp_fields t (x ∷ a) ≡ dcp_fields t (x ∷ b)
dcp_fields-front (some replica_status) x a b =
    ap (λ n. st_integer ∷ replicate (rounds n) st_string) (data_integer-cons x a b)
dcp_fields-front (some fileinfo) x a b =
    ap (λ n. st_integer ∷ replicate (rounds n) st_fileinfo) (data_integer-cons x a b)
dcp_fields-front (some hello) x a b = refl
dcp_fields-front (some hello_response) x a b = refl
dcp_fields-front (some create) x a b = refl
dcp_fields-front (some read) x a b = refl
dcp_fields-front (some update) x a b = refl
dcp_fields-front (some get_replicas) x a b = refl
dcp_fields-front none x a b = refl
dcp_fields-front (some _) x a b = refl

-- The first test of an empty message reads through NULL, if its type has one.
empty-crash :
    (t : Option DcpType) (s : MsgSection) (more : List MsgSection)
    → section_type s ≢ st_nonext
    → Matches (dcp_fields t (s ∷ more)) (s ∷ more)
    → run (dcp_fields t []) [] ≡ crash
unfolding run testst
empty-crash (some hello) s more h m = refl
empty-crash (some hello_response) s more h m = refl
empty-crash (some create) s more h m = refl
empty-crash (some read) s more h m = refl
empty-crash (some update) s more h m = refl
empty-crash (some get_replicas) s more h m = refl
empty-crash (some replica_status) s more h m = refl
empty-crash (some fileinfo) s more h m = refl
empty-crash none s more h m = absurd (h m)
empty-crash (some _) s more h m = absurd (h m)

fields-crash :
    (t : Option DcpType) (front : List MsgSection) (s : MsgSection) (more : List MsgSection)
    → NoEnd (front ++ s ∷ [])
    → Matches (dcp_fields t (front ++ s ∷ more)) (front ++ s ∷ more)
    → run (dcp_fields t front) front ≡ crash
fields-crash t [] s more (end, _) m = empty-crash t s more end m
fields-crash t (x ∷ front) s more end m =
    ap (λ ts. run ts (x ∷ front)) (dcp_fields-front t x front (front ++ s ∷ more))
    ∙ run-crash _ (x ∷ front) s more (dcp_fields-ne-zero t (x ∷ front ++ s ∷ more)) end m

-- If a message that matches the table breaks off in front of one of its sections, where none so far is an
-- ST_NONEXT, dcp_validate_sections does not return: it follows the NULL at the end of the section array.
pub dcp_validate_sections-crash :
    (msg : Fsmsg) (s : MsgSection) (more : List MsgSection)
    → NoEnd (msg.sections ++ s ∷ [])
    → Matches
        (dcp_fields (dcp_type_of msg.msg_type) (msg.sections ++ s ∷ more))
        (msg.sections ++ s ∷ more)
    → dcp_validate_sections msg ≡ crash
unfolding dcp_validate_sections
dcp_validate_sections-crash msg s more end m =
    let t = dcp_type_of msg.msg_type in
    finish-crash (validate_type t msg.sections)
      (validate_type-run t msg.sections ∙ fields-crash t msg.sections s more end m)
