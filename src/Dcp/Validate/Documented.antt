-- ===== src/Dcp/Validate/Documented.antt =====
-- dcp_validate_sections and the messages of the directory control protocol in doc/desc/protocols.md.
use netpro_project.Prelude.{
  ℕ, ◌^◌, ◌<◌, ◌≡◌, ◌⊎◌, ◌↔◌, refl, inl, inr, Bool, true, false, List, [], ◌∷◌, replicate, arith,
}
use netpro_project.Protomsg.{Fsmsg, st_integer, st_string, st_fileinfo, rounds}
use netpro_project.Protomsg.Testst.{pass, data_integer}
use netpro_project.Protomsg.Testst.Laws.{Matches}
use netpro_project.Dcp.{dcp_type_of}
use netpro_project.Dcp.Validate.{dcp_validate_sections}
use netpro_project.Dcp.Validate.Laws.{dcp_fields, dcp_validate_sections_iff}
use mathlib.Core.Path.{subst}

-- The messages of the description.
pub data Described : Type 0 where
  hello hello_response lock create read update delete search : Described
  invalidate replica file_replicas get_file_replicas disconnect ack file_info error : Described

abbrev pub number : Described → ℕ
number hello = 1
number hello_response = 2
number lock = 3
number create = 4
number read = 5
number update = 6
number delete = 7
number search = 8
number invalidate = 9
number replica = 10
number file_replicas = 11
number get_file_replicas = 12
number disconnect = 13
number ack = 14
number file_info = 15
number error = 16

-- Their sections, of which the first may give a count.
abbrev pub fields : Described → ℕ → List ℕ
fields hello n = st_string ∷ st_integer ∷ st_integer ∷ st_integer ∷ []
fields hello_response n = st_integer ∷ []
fields lock n = st_integer ∷ st_string ∷ []
fields create n = st_fileinfo ∷ []
fields read n = st_integer ∷ st_string ∷ []
fields update n = st_fileinfo ∷ []
fields delete n = st_string ∷ []
fields search n = st_string ∷ []
fields invalidate n = st_string ∷ []
fields replica n = st_integer ∷ st_string ∷ []
fields file_replicas n = st_integer ∷ replicate n st_string
fields get_file_replicas n = st_string ∷ []
fields disconnect n = []
fields ack n = []
fields file_info n = st_integer ∷ replicate n st_fileinfo
fields error n = st_integer ∷ st_string ∷ []

-- The messages whose sections the code knows.
abbrev pub is_known : Described → Bool
is_known lock = false
is_known delete = false
is_known search = false
is_known invalidate = false
is_known replica = false
is_known error = false
is_known t = true

module _ {P A B : Type 0} where
  known : P ↔ A → P ↔ ((A × (true ≡ true)) ⊎ (B × (true ≡ false)))
  known (to, from) = (λ p. inl (to p, refl), λ s. elim s [ inl (a, e) ↦ from a | inr (b, e) ↦ cc ])

  unknown : P ↔ B → P ↔ ((A × (false ≡ true)) ⊎ (B × (false ≡ false)))
  unknown (to, from) =
      (λ p. inr (to p, refl), λ s. elim s [ inl (a, e) ↦ cc | inr (b, e) ↦ from b ])

-- dcp_validate_sections on a message with a type number of the protocol description, and with no negative
-- number in front: it returns 0 exactly when the sections are those of the description, up to the end of the
-- array or a section ST_NONEXT, but for lock, delete, search, invalidate, replica and error, where it returns
-- 0 exactly when there are no sections, although the description gives some.
pub dcp_validate_sections-described :
    (t : Described) (msg : Fsmsg)
    → msg.msg_type ≡ number t
    → data_integer msg.sections < 2 ^ 31
    → (dcp_validate_sections msg ≡ pass tt) ↔ (
        (Matches (fields t (data_integer msg.sections)) msg.sections × (is_known t ≡ true))
        ⊎ (Matches [] msg.sections × (is_known t ≡ false)))
dcp_validate_sections-described t msg typed small = by_type t typed
  where
    at :
        (n : ℕ)
        → msg.msg_type ≡ n
        → (dcp_validate_sections msg ≡ pass tt)
          ↔ Matches (dcp_fields (dcp_type_of n) msg.sections) msg.sections
    at n e =
        subst
          (λ k.
            (dcp_validate_sections msg ≡ pass tt)
            ↔ Matches (dcp_fields (dcp_type_of k) msg.sections) msg.sections)
          e (dcp_validate_sections_iff msg)

    whole : rounds (data_integer msg.sections) ≡ data_integer msg.sections
    whole = ground arith

    counted :
        (k : ℕ)
        → (dcp_validate_sections msg ≡ pass tt)
          ↔ Matches (st_integer ∷ replicate (rounds (data_integer msg.sections)) k) msg.sections
        → (dcp_validate_sections msg ≡ pass tt)
          ↔ Matches (st_integer ∷ replicate (data_integer msg.sections) k) msg.sections
    counted k iff =
        subst
          (λ n.
            (dcp_validate_sections msg ≡ pass tt)
            ↔ Matches (st_integer ∷ replicate n k) msg.sections)
          whole iff

    by_type :
        (t : Described)
        → msg.msg_type ≡ number t
        → (dcp_validate_sections msg ≡ pass tt) ↔ (
            (Matches (fields t (data_integer msg.sections)) msg.sections × (is_known t ≡ true))
            ⊎ (Matches [] msg.sections × (is_known t ≡ false)))
    by_type hello e = known (at 1 e)
    by_type hello_response e = known (at 2 e)
    by_type lock e = unknown (at 3 e)
    by_type create e = known (at 4 e)
    by_type read e = known (at 5 e)
    by_type update e = known (at 6 e)
    by_type delete e = unknown (at 7 e)
    by_type search e = unknown (at 8 e)
    by_type invalidate e = unknown (at 9 e)
    by_type replica e = unknown (at 10 e)
    by_type file_replicas e = known (counted st_string (at 11 e))
    by_type get_file_replicas e = known (at 12 e)
    by_type disconnect e = known (at 13 e)
    by_type ack e = known (at 14 e)
    by_type file_info e = known (counted st_fileinfo (at 15 e))
    by_type error e = unknown (at 16 e)
