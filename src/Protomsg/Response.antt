-- ===== src/Protomsg/Response.antt =====
-- The macros EXPECTID and EXPECTTYPE of src/fap.c and src/dcp.c.
use netpro_project.Prelude.{ℕ, ◌≡◌, ◌≢◌, ◌↔◌, ◌⊎◌, inr, refl, not, ◌&&◌, ◌==◌, if◌then◌else◌, arith}

-- How a response is judged: the check returns 0, it returns `- v` for a `v` of the source, or it
-- follows a NULL pointer.
pub data Answer : Type 0 where
  accepted : Answer
  refused : ℕ → Answer
  crash : Answer

-- `if (e && id != e) return v;` in front of the rest of the function
abbrev pub expect_id : ℕ → ℕ → ℕ → Answer → Answer
expect_id e id v rest = if not (e == 0) && not (id == e) then refused v else rest

-- `if (t != et) return v;`, the last test of its branch
abbrev pub expect_type : ℕ → ℕ → ℕ → Answer
expect_type et t v = if t == et then accepted else refused v

-- The id 0 stands for any id.
abbrev pub Agrees : ℕ → ℕ → Type 0
Agrees e id = (e ≡ 0) ⊎ (id ≡ e)

pub expect_id_iff :
    (e id v : ℕ) (rest : Answer)
    → (expect_id e id v rest ≡ accepted) ↔ (Agrees e id × (rest ≡ accepted))
expect_id_iff e id v rest = ground arith

pub expect_id-skip : (e id v : ℕ) (rest : Answer) → Agrees e id → expect_id e id v rest ≡ rest
expect_id-skip e id v rest h = ground arith

-- An id that is the expected one.
pub expect_id-same : (e v : ℕ) (rest : Answer) → expect_id e e v rest ≡ rest
expect_id-same e v rest = expect_id-skip e e v rest (inr refl)

pub expect_id-through :
    (e id v : ℕ) (rest : Answer) (a : Answer)
    → a ≢ refused v
    → expect_id e id v rest ≡ a
    → Agrees e id × (rest ≡ a)
expect_id-through e id v rest a other h = ground arith

pub expect_type_iff : (et t v : ℕ) → (expect_type et t v ≡ accepted) ↔ (t ≡ et)
expect_type_iff et t v = ground arith

-- A test that a request of no type, 0, skips.
pub if_asked_iff :
    {P : Type 0} (request_type : ℕ) (rest : Answer)
    → (rest ≡ accepted) ↔ P
    → ((if request_type == 0 then accepted else rest) ≡ accepted) ↔ ((request_type ≡ 0) ⊎ P)
if_asked_iff request_type rest h = ground (arith, h.0, h.1)
