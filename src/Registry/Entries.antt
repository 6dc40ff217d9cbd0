-- ===== src/Registry/Entries.antt =====
-- register_fsrv, a round of do_dcp_server, and register_client over their tables.
use netpro_project.Prelude.{
  ℕ, ◌+◌, ◌%◌, ◌^◌, ◌<◌, ◌≤◌, ◌≡◌, ◌≢◌, refl, ap, ◌⊎◌, inl, inr, ltb, ◌==◌, ◌||◌, length, List, All,
  get_elem?, false, Bool-cases, none, some, arith,
}
use netpro_project.Dcp.Send.{FileservInfo}
use mathlib.Core.Path.{subst}
use netpro_project.Registry.{
  max_fservers, max_clients, Fileservers, nextsid, register_fsrv, accept_fsrv, Clients,
  register_client,
}
use netpro_project.Registry.Unique.{
  Claims, Claims-get_elem?, claim_cases, claim-none, get_elem?-length, All-Claims, All-weaken,
  Unique, Unique-Claims,
}

-- Every id has been handed out, and no two entries have the same.
pub record IsRegistry (r : Fileservers) : Type 0 where
  pub given : All (λ x. x.id ≤ r.lastsid) r.table
  pub different : Unique (λ s. s.id) (λ s. s) r.table

abbrev set_id : ℕ → FileservInfo → FileservInfo
set_id sid s = record s { id = sid }

claimed-IsRegistry :
    (r : Fileservers) (t : List FileservInfo) (i : ℕ)
    → IsRegistry r
    → Claims (λ s. s.id) (set_id (r.lastsid + 1)) r.table i t
    → IsRegistry (record r { lastsid = r.lastsid + 1; fsrvcnt = r.fsrvcnt + 1; table = t })
claimed-IsRegistry r t i w c =
    let id_of : FileservInfo → ℕ = λ s. s.id in
    let put = set_id (r.lastsid + 1) in
    record {
      given =
          All-Claims id_of put (λ s. s.id ≤ r.lastsid + 1) (λ x. omega arith) c
            (All-weaken id_of put r.lastsid r.table w.given);
      different = Unique-Claims id_of put r.lastsid (λ x. omega arith) c w.given w.different;
    }

abbrev Taken : ℕ → Fileservers → Type 0
Taken sid r =
    (i : ℕ) × ((t : List FileservInfo) × ((register_fsrv sid r
          ≡ (some i, record r { fsrvcnt = r.fsrvcnt + 1; table = t }))
        × Claims (λ s. s.id) (set_id sid) r.table i t))

register_fsrv_cases : (sid : ℕ) (r : Fileservers) → (register_fsrv sid r ≡ (none, r)) ⊎ Taken sid r
unfolding register_fsrv
register_fsrv_cases sid r = elim (Bool-cases (sid == 0 || ltb max_fservers r.fsrvcnt)) [
  | inl e ↦ inl (rw e refl)
  | inr e ↦ elim (claim_cases (λ s. s.id) (set_id sid) r.table) [
    | inl (h, full) ↦ inl (rw (e, h) refl)
    | inr (i, (t, (h, c))) ↦ inr (i, (t, (rw (e, h) refl, c)))
  ]
]

accept_fsrv_lem :
    (r : Fileservers)
    → r.lastsid + 1 < 2 ^ 64
    → accept_fsrv r ≡ register_fsrv (r.lastsid + 1) (record r { lastsid = r.lastsid + 1 })
unfolding accept_fsrv nextsid
accept_fsrv_lem r small =
    let whole : (r.lastsid + 1) % 2 ^ 64 ≡ r.lastsid + 1 = omega arith in
    ap (λ n. register_fsrv n (record r { lastsid = n })) whole

-- A round of do_dcp_server keeps the ids of the file servers different, and below the next one, until
-- the 64-bit counter wraps around.
pub accept_fsrv-IsRegistry :
    (r : Fileservers) → r.lastsid + 1 < 2 ^ 64 → IsRegistry r → IsRegistry (accept_fsrv r).1
accept_fsrv-IsRegistry r small w =
    let counted = record r { lastsid = r.lastsid + 1 } in
    rw (accept_fsrv_lem r small) (elim (register_fsrv_cases (r.lastsid + 1) counted) [
      | inl h ↦ rw h (record {
        given = All-weaken (λ s. s.id) (λ s. s) r.lastsid r.table w.given;
        different = w.different;
      })
      | inr (i, (t, (h, c))) ↦ rw h (claimed-IsRegistry r t i w c)
    ])

some-injective : {i j : ℕ} → some i ≡ some j → i ≡ j
some-injective h = cc

none≢some : {i : ℕ} → none ≢ some i
none≢some h = cc

register_fsrv-entry :
    (sid : ℕ) (r : Fileservers) (i : ℕ)
    → (register_fsrv sid r).0 ≡ some i
    → (x : FileservInfo) × (get_elem? (register_fsrv sid r).1.table i
        ≡ some (record x { id = sid }))
register_fsrv-entry sid r i q = elim (register_fsrv_cases sid r) [
  | inl h ↦ absurd (none≢some (rw h at q))
  | inr (j, (t, (h, c))) ↦
      let same : j ≡ i = some-injective (rw h at q) in
      let (x, found) = Claims-get_elem? (λ s. s.id) (set_id sid) c in
      (x, rw h (subst (λ k. get_elem? t k ≡ some (record x { id = sid })) same found))
]

-- An index that the round returns is that of an entry with the new id.
pub accept_fsrv-entry :
    (r : Fileservers) (i : ℕ)
    → r.lastsid + 1 < 2 ^ 64
    → (accept_fsrv r).0 ≡ some i
    → (x : FileservInfo) × (get_elem? (accept_fsrv r).1.table i
        ≡ some (record x { id = r.lastsid + 1 }))
accept_fsrv-entry r i small = rw (accept_fsrv_lem r small) (register_fsrv-entry (r.lastsid + 1) _ i)

-- register_client with a full table returns MAX_CLIENTS, an index behind the table, and changes nothing.
pub register_client-full :
    (cid : ℕ) (r : Clients)
    → cid ≢ 0
    → r.clicnt ≤ max_clients
    → length r.table ≡ max_clients
    → All (λ x. x.id ≢ 0) r.table
    → (register_client cid r ≡ (some max_clients, r)) × (get_elem? r.table max_clients ≡ none)
unfolding register_client
register_client-full cid r nonzero count size full =
    let test : (cid == 0 || ltb max_clients r.clicnt) ≡ false = ground arith in
    (
      rw (test, claim-none _ _ r.table full, size) refl,
      subst (λ n. get_elem? r.table n ≡ none) size (get_elem?-length r.table),
    )
