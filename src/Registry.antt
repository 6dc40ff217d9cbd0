-- ===== src/Registry.antt =====
-- The tables of connections: register_fsrv and nextsid of src/fsdird.c, register_client of
-- src/fsservd.c. An entry whose id is 0 is free.
pub mod Unique
pub mod Entries
pub mod Rounds
use netpro_project.Prelude.{
  ℕ, zero, suc, ◌+◌, ◌%◌, ◌^◌, ◌<◌, ◌≡◌, ltb, ◌==◌, ◌||◌, maybe, length, if◌then◌else◌, List, [],
  ◌∷◌, Option, none, some,
}
use netpro_project.Dcp.Send.{FileservInfo}
use netpro_project.FileServer.{ClientInfo}

-- MAX_FSERVERS and MAX_CLIENTS
abbrev pub max_fservers : ℕ
max_fservers = 100

abbrev pub max_clients : ℕ
max_clients = 100

module _ {A : Type 0} (id_of : A → ℕ) where
  abbrev pub later : A → Option (ℕ × List A) → Option (ℕ × List A)
  later x none = none
  later x (some (i, t)) = some (suc i, x ∷ t)

  -- The first free entry, and the table with that entry taken.
  unfoldable pub claim : (A → A) → List A → Option (ℕ × List A)
  claim put [] = none
  claim put (x ∷ xs) = if id_of x == 0 then some (0, put x ∷ xs) else later x (claim put xs)

pub record Fileservers : Type 0 where
  pub lastsid : ℕ
  pub fsrvcnt : ℕ
  pub table : List FileservInfo

unfoldable pub nextsid : Fileservers → Fileservers
nextsid r = record r { lastsid = (r.lastsid + 1) % 2 ^ 64 }

-- The index, or none for -1.
unfoldable pub register_fsrv : ℕ → Fileservers → Option ℕ × Fileservers
unfolding claim
register_fsrv sid r =
    if sid == 0 || ltb max_fservers r.fsrvcnt
    then (none, r)
    else maybe (claim (λ s. s.id) (λ s. record s { id = sid }) r.table) (none, r)
        (λ taken. (some taken.0, record r { fsrvcnt = r.fsrvcnt + 1; table = taken.1 }))

-- The beginning of a round of do_dcp_server.
unfoldable pub accept_fsrv : Fileservers → Option ℕ × Fileservers
unfolding nextsid register_fsrv
accept_fsrv r = let r1 = nextsid r in register_fsrv r1.lastsid r1

pub record Clients : Type 0 where
  pub clicnt : ℕ
  pub table : List ClientInfo

-- After a loop without a free entry `i` is MAX_CLIENTS, and that is returned.
unfoldable pub register_client : ℕ → Clients → Option ℕ × Clients
unfolding claim
register_client cid r =
    if cid == 0 || ltb max_clients r.clicnt
    then (none, r)
    else maybe (claim (λ c. c.id) (λ c. record c { id = cid; lasttid = 0 }) r.table)
        (some (length r.table), r)
        (λ taken. (some taken.0, record r { clicnt = r.clicnt + 1; table = taken.1 }))
