-- ===== src/Fap/Respond.antt =====
-- fap_check_response of src/fap.c.
use netpro_project.Prelude.{
  ℕ, ◌≡◌, ◌≢◌, ◌↔◌, sym, ◌∙◌, ◌⊎◌, Option, none, some, Bool, true, false, get_or, get_elem?, ◌==◌,
  if◌then◌else◌, arith,
}
use netpro_project.Protomsg.{MsgSection, integer, string, binary, fileinfo, nonext, unknown, Fsmsg}
use netpro_project.Protomsg.Response.{
  Answer, accepted, refused, crash, expect_id, expect_type, Agrees, expect_id-skip,
  expect_id-through,
}
use netpro_project.Fap.{
  FapType, hello, hello_response, quit, command, response, error, fap_type, fap_type_of,
}

-- Whether `SECS(msg, 1)` can be printed: there is a section 1, and a pointer stands in its union
-- where a string has its data. The path of a file information stands at that place too.
unfoldable pub has_text : Option MsgSection → Bool
has_text none = false
has_text (some (integer n)) = false
has_text (some (string s)) = true
has_text (some (binary s)) = true
has_text (some (fileinfo f)) = true
has_text (some nonext) = false
has_text (some (unknown t)) = false

-- `switch (request_type)` with EXPECTTYPE for the type `t` of the response
unfoldable pub expect_answer : Option FapType → ℕ → Answer
expect_answer (some hello) t = expect_type (fap_type hello_response) t 7
expect_answer (some quit) t = expect_type (fap_type response) t 7
expect_answer (some command) t = expect_type (fap_type response) t 7
expect_answer _ t = accepted

-- The test for FAP_ERROR prints the text of the error before any section has been validated.
unfoldable pub check_type : Fsmsg → ℕ → Answer
unfolding has_text expect_answer
check_type msg request_type =
    if msg.msg_type == fap_type error
    then (if has_text (get_elem? msg.sections 1) then refused 6 else crash)
    else if request_type == 0
    then accepted
    else expect_answer (fap_type_of request_type) msg.msg_type

unfoldable pub fap_check_response : Option Fsmsg → ℕ → ℕ → ℕ → ℕ → ℕ → Answer
unfolding check_type
fap_check_response none tid sid cid fsid request_type = refused 1
fap_check_response (some msg) tid sid cid fsid request_type = expect_id tid msg.tid 2 (
    expect_id sid (get_or msg.ids 0 0) 3 (
      expect_id cid (get_or msg.ids 1 0) 4
        (expect_id fsid (get_or msg.ids 2 0) 5 (check_type msg request_type))))

-- The responses that the protocol gives to a request.
abbrev pub Answers : Option FapType → ℕ → Type 0
Answers (some hello) t = t ≡ fap_type hello_response
Answers (some quit) t = t ≡ fap_type response
Answers (some command) t = t ≡ fap_type response
Answers _ t = Unit {0}

-- The ids are the expected ones where one is expected.
pub record SameIds (msg : Fsmsg) (tid sid cid fsid : ℕ) : Type 0 where
  pub same_tid : Agrees tid msg.tid
  pub same_sid : Agrees sid (get_or msg.ids 0 0)
  pub same_cid : Agrees cid (get_or msg.ids 1 0)
  pub same_fsid : Agrees fsid (get_or msg.ids 2 0)

pub record IsResponse (msg : Fsmsg) (tid sid cid fsid request_type : ℕ) : Type 0 where
  pub same_ids : SameIds msg tid sid cid fsid
  pub no_error : msg.msg_type ≢ fap_type error
  pub answers : (request_type ≡ 0) ⊎ Answers (fap_type_of request_type) msg.msg_type

expect_answer_iff : (r : Option FapType) (t : ℕ) → (expect_answer r t ≡ accepted) ↔ Answers r t
unfolding expect_answer
expect_answer_iff (some hello) t = ground arith
expect_answer_iff (some quit) t = ground arith
expect_answer_iff (some command) t = ground arith
expect_answer_iff none t = ground arith
expect_answer_iff (some _) t = ground arith

expect_answer-no_crash : (r : Option FapType) (t : ℕ) → expect_answer r t ≢ crash
unfolding expect_answer
expect_answer-no_crash (some hello) t = ground arith
expect_answer-no_crash (some quit) t = ground arith
expect_answer-no_crash (some command) t = ground arith
expect_answer-no_crash none t = ground arith
expect_answer-no_crash (some _) t = ground arith

module _ (msg : Fsmsg) (tid sid cid fsid request_type : ℕ) where
  -- The ids agree, so the rest decides.
  SameIds-rest :
      SameIds msg tid sid cid fsid
      → fap_check_response (some msg) tid sid cid fsid request_type ≡ check_type msg request_type
  unfolding fap_check_response
  SameIds-rest ids =
      expect_id-skip tid msg.tid 2 _ ids.same_tid
      ∙ expect_id-skip sid (get_or msg.ids 0 0) 3 _ ids.same_sid
      ∙ expect_id-skip cid (get_or msg.ids 1 0) 4 _ ids.same_cid
      ∙ expect_id-skip fsid (get_or msg.ids 2 0) 5 _ ids.same_fsid

  -- An answer of its own: none of the refusals of an id.
  SameIds-through :
      (a : Answer)
      → ((v : ℕ) → a ≢ refused v)
      → fap_check_response (some msg) tid sid cid fsid request_type ≡ a
      → SameIds msg tid sid cid fsid
  unfolding fap_check_response
  SameIds-through a other h =
      let (t, h1) = expect_id-through tid msg.tid 2 _ a (other 2) h in
      let (s, h2) = expect_id-through sid (get_or msg.ids 0 0) 3 _ a (other 3) h1 in
      let (c, h3) = expect_id-through cid (get_or msg.ids 1 0) 4 _ a (other 4) h2 in
      let (f, h4) = expect_id-through fsid (get_or msg.ids 2 0) 5 _ a (other 5) h3 in
      record { same_tid = t; same_sid = s; same_cid = c; same_fsid = f }

  check_type_iff : (check_type msg request_type ≡ accepted) ↔ (
      (msg.msg_type ≢ fap_type error)
      × ((request_type ≡ 0) ⊎ Answers (fap_type_of request_type) msg.msg_type))
  unfolding check_type
  check_type_iff = ground (
    arith,
    (expect_answer_iff (fap_type_of request_type) msg.msg_type).0,
    (expect_answer_iff (fap_type_of request_type) msg.msg_type).1,
  )

  check_type-crash_iff :
      (check_type msg request_type ≡ crash)
      ↔ ((msg.msg_type ≡ fap_type error) × (has_text (get_elem? msg.sections 1) ≡ false))
  unfolding check_type
  check_type-crash_iff =
      ground (arith, expect_answer-no_crash (fap_type_of request_type) msg.msg_type)

  -- fap_check_response returns 0 on a message exactly when its ids are the expected ones, where one is
  -- expected, it is no FAP_ERROR, and its type answers the type of the request, if one is given.
  pub fap_check_response_iff :
      (fap_check_response (some msg) tid sid cid fsid request_type ≡ accepted)
      ↔ IsResponse msg tid sid cid fsid request_type
  fap_check_response_iff = (
    λ h.
        let ids = SameIds-through accepted (λ v e. cc) h in
        let (e, a) = check_type_iff.0 (sym (SameIds-rest ids) ∙ h) in
        record { same_ids = ids; no_error = e; answers = a },
    λ r. SameIds-rest r.same_ids ∙ check_type_iff.1 (r.no_error, r.answers),
  )

  -- fap_check_response reads through a NULL or a missing pointer exactly on a FAP_ERROR with the expected
  -- ids whose section 1 is missing or holds no text.
  pub fap_check_response-crash_iff :
      (fap_check_response (some msg) tid sid cid fsid request_type ≡ crash) ↔ (
        SameIds msg tid sid cid fsid
        × ((msg.msg_type ≡ fap_type error) × (has_text (get_elem? msg.sections 1) ≡ false)))
  fap_check_response-crash_iff = (
    λ h.
        let ids = SameIds-through crash (λ v e. cc) h in
        (ids, check_type-crash_iff.0 (sym (SameIds-rest ids) ∙ h)),
    λ (ids, no_text). SameIds-rest ids ∙ check_type-crash_iff.1 no_text,
  )
