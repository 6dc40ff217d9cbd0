-- ===== src/Dcp/Respond.antt =====
-- dcp_check_response of src/dcp.c.
use netpro_project.Prelude.{
  ℕ, ◌≡◌, ◌≢◌, ◌↔◌, ◌⊎◌, Option, none, some, get_or, ◌==◌, if◌then◌else◌, arith,
}
use netpro_project.Protomsg.{Fsmsg}
use netpro_project.Protomsg.Response.{
  Answer, accepted, refused, expect_id, expect_type, Agrees, expect_id_iff, if_asked_iff,
}
use netpro_project.Dcp.{
  DcpType, hello, hello_response, create, read, update, get_replicas, replica_status, fileinfo,
  error, dcp_type, dcp_type_of,
}

-- `switch (request_type)` with EXPECTTYPE for the type `t` of the response
unfoldable pub expect_answer : Option DcpType → ℕ → Answer
expect_answer (some hello) t = expect_type (dcp_type hello_response) t 6
expect_answer (some read) t = expect_type (dcp_type fileinfo) t 6
expect_answer (some create) t = expect_type (dcp_type fileinfo) t 6
expect_answer (some update) t = expect_type (dcp_type fileinfo) t 6
expect_answer (some get_replicas) t = expect_type (dcp_type replica_status) t 6
expect_answer _ t = accepted

-- The ids and the type of the request are the expected ones; a 0 expects nothing.
unfoldable pub dcp_check_response : Option Fsmsg → ℕ → ℕ → ℕ → ℕ → Answer
unfolding expect_answer
dcp_check_response none tid sid fsid request_type = refused 1
dcp_check_response (some msg) tid sid fsid request_type = expect_id tid msg.tid 2 (
    expect_id sid (get_or msg.ids 0 0) 3 (
      expect_id fsid (get_or msg.ids 1 0) 4 (
        if request_type == 0
        then accepted
        else if msg.msg_type == dcp_type error
        then refused 5
        else expect_answer (dcp_type_of request_type) msg.msg_type)))

-- The responses that the protocol gives to a request.
abbrev pub Answers : Option DcpType → ℕ → Type 0
Answers (some hello) t = t ≡ dcp_type hello_response
Answers (some read) t = t ≡ dcp_type fileinfo
Answers (some create) t = t ≡ dcp_type fileinfo
Answers (some update) t = t ≡ dcp_type fileinfo
Answers (some get_replicas) t = t ≡ dcp_type replica_status
Answers _ t = t ≢ dcp_type error

-- The ids are the expected ones where one is expected, and the type, if a request type is given, is
-- the one that answers it.
pub record IsResponse (msg : Fsmsg) (tid sid fsid request_type : ℕ) : Type 0 where
  pub same_tid : Agrees tid msg.tid
  pub same_sid : Agrees sid (get_or msg.ids 0 0)
  pub same_fsid : Agrees fsid (get_or msg.ids 1 0)
  pub answers : (request_type ≡ 0) ⊎ Answers (dcp_type_of request_type) msg.msg_type

expect_answer_iff :
    (r : Option DcpType) (t : ℕ)
    → ((if t == dcp_type error then refused 5 else expect_answer r t) ≡ accepted) ↔ Answers r t
unfolding expect_answer
expect_answer_iff (some hello) t = ground arith
expect_answer_iff (some read) t = ground arith
expect_answer_iff (some create) t = ground arith
expect_answer_iff (some update) t = ground arith
expect_answer_iff (some get_replicas) t = ground arith
expect_answer_iff none t = ground arith
expect_answer_iff (some _) t = ground arith

-- dcp_check_response returns 0 on a message exactly when its ids are the expected ones, where one is
-- expected, and its type answers the type of the request, if one is given.
pub dcp_check_response_iff :
    (msg : Fsmsg) (tid sid fsid request_type : ℕ)
    → (dcp_check_response (some msg) tid sid fsid request_type ≡ accepted)
      ↔ IsResponse msg tid sid fsid request_type
unfolding dcp_check_response
dcp_check_response_iff msg tid sid fsid request_type =
    let typed =
      if_asked_iff request_type _ (expect_answer_iff (dcp_type_of request_type) msg.msg_type) in
    let of_fsid = expect_id_iff fsid (get_or msg.ids 1 0) 4 _ in
    let of_sid = expect_id_iff sid (get_or msg.ids 0 0) 3 _ in
    let of_tid = expect_id_iff tid msg.tid 2 _ in
    (
      λ h.
          let (t, h1) = of_tid.0 h in
          let (s, h2) = of_sid.0 h1 in
          let (f, h3) = of_fsid.0 h2 in
          record { same_tid = t; same_sid = s; same_fsid = f; answers = typed.0 h3 },
      λ r. of_tid.1 (r.same_tid, of_sid.1 (r.same_sid, of_fsid.1 (r.same_fsid, typed.1 r.answers))),
    )
