-- ===== src/Registry/Rounds/Slots.antt =====
-- Every connection to the directory server takes an entry of its table for ever.
use netpro_project.Prelude.{
  ℕ, zero, suc, ◌+◌, ◌-◌, ◌%◌, ◌^◌, ◌<◌, ◌≤◌, ◌≡◌, ◌≢◌, refl, sym, ap, ◌∙◌, ltb, ◌==◌, ◌||◌,
  if◌then◌else◌, length, set, get_elem?, All, List, [], ◌∷◌, false, inl, inr, Option, some, arith,
}
use netpro_project.Protomsg.{Fsmsg}
use netpro_project.Fap.Client.{Outcome, returns, fails, crash}
use netpro_project.Dcp.Send.{FileservInfo}
use netpro_project.Dcp.Handshake.{Greeting, dcp_accept}
use netpro_project.Registry.{max_fservers, Fileservers, nextsid, register_fsrv, accept_fsrv}
use netpro_project.Registry.Unique.{Claims, here, there, Claims-get_elem?, claim_cases}
use netpro_project.Registry.Rounds.{
  Connection, on_accept, go_on, turned_away, serve_entry, dcp_round, do_dcp_server,
}

abbrev pub free_entries : List FileservInfo → ℕ
free_entries [] = 0
free_entries (x ∷ xs) = (if x.id == 0 then 1 else 0) + free_entries xs

abbrev id_of : FileservInfo → ℕ
id_of s = s.id

abbrev set_id : ℕ → FileservInfo → FileservInfo
set_id sid s = record s { id = sid }

free_entries-Claims :
    (sid : ℕ) {xs t : List FileservInfo} {i : ℕ}
    → sid ≢ 0
    → Claims id_of (set_id sid) xs i t
    → free_entries xs ≡ suc (free_entries t)
free_entries-Claims sid nonzero (here e) = ground (arith, e, nonzero)
free_entries-Claims sid nonzero (there e c) = omega (arith, free_entries-Claims sid nonzero c)

free_entries-full : (xs : List FileservInfo) → All (λ x. id_of x ≢ 0) xs → free_entries xs ≡ 0
free_entries-full [] h = refl
free_entries-full (x ∷ xs) (h, hs) = ground (arith, h, free_entries-full xs hs)

-- A change of an entry that keeps its id.
free_entries-set :
    (t : List FileservInfo) (i : ℕ) (x y : FileservInfo)
    → get_elem? t i ≡ some x
    → y.id ≡ x.id
    → free_entries (set t i y) ≡ free_entries t
free_entries-set [] i x y h same = refl
free_entries-set (z ∷ t) zero x y h same =
    let equal : z ≡ x = cc in
    ap (λ n. (if n == 0 then 1 else 0) + free_entries t) (same ∙ ap id_of (sym equal))
free_entries-set (z ∷ t) (suc i) x y h same = omega (arith, free_entries-set t i x y h same)

-- The number of entries, counted and free, stays the same.
abbrev pub Counted : Fileservers → Type 0
Counted r = r.fsrvcnt + free_entries r.table ≤ max_fservers

-- dcp_accept survives what the connection has sent, for every entry.
abbrev pub Harmless : ℕ → ℕ → Connection → Type 0
Harmless heap fsid c = (info : FileservInfo) → dcp_accept heap fsid c.msg info ≢ crash

on_accept-goes_on :
    (i : ℕ) (info : FileservInfo) (o : Outcome (Greeting × Fsmsg)) (rest : Option Fileservers)
    → o ≢ crash
    → go_on (on_accept i info o) rest ≡ rest
on_accept-goes_on i info (returns (greeting, response)) rest h = refl
on_accept-goes_on i info (fails v) rest h = refl
on_accept-goes_on i info crash rest h = absurd (h refl)

-- What a round does to the table.
pub record Turns (heap fsid : ℕ) (c : Connection) (r : Fileservers) : Type 0 where
  pub slots : free_entries (dcp_round heap fsid c r).fileservers.table ≡ free_entries r.table - 1
  pub sid : (dcp_round heap fsid c r).fileservers.lastsid ≡ r.lastsid + 1
  pub counted : Counted (dcp_round heap fsid c r).fileservers
  pub lives :
      Harmless heap fsid c
      → (rest : Option Fileservers) → go_on (dcp_round heap fsid c r).outcome rest ≡ rest
  pub full : free_entries r.table ≡ 0 → (dcp_round heap fsid c r).outcome ≡ turned_away

round-Turns :
    (heap fsid : ℕ) (c : Connection) (r : Fileservers)
    → r.lastsid + 1 < 2 ^ 64
    → Counted r
    → Turns heap fsid c r
unfolding dcp_round serve_entry accept_fsrv nextsid register_fsrv
round-Turns heap fsid c r small counted =
    let whole : (r.lastsid + 1) % 2 ^ 64 ≡ r.lastsid + 1 = omega arith in
    let test : (r.lastsid + 1 == 0 || ltb max_fservers r.fsrvcnt) ≡ false = ground arith in
    elim (claim_cases id_of (set_id (r.lastsid + 1)) r.table) [
      | inl (h, all) ↦
          let none_free = free_entries-full r.table all in
          record {
            slots = rw (whole, test, h) (omega (arith, none_free));
            sid = rw (whole, test, h) refl;
            counted = rw (whole, test, h) counted;
            lives = λ safe rest. rw (whole, test, h) refl;
            full = λ z. rw (whole, test, h) refl;
          }
      | inr (i, (t, (h, claims))) ↦
          let (x, found) = Claims-get_elem? id_of (set_id (r.lastsid + 1)) claims in
          let fewer = free_entries-Claims (r.lastsid + 1) (omega arith) claims in
          let same =
            free_entries-set t i (set_id (r.lastsid + 1) x)
              (record x { id = r.lastsid + 1; address = c.address }) found refl in
          record {
            slots = rw (whole, test, h, found) (omega (arith, fewer, same));
            sid = rw (whole, test, h, found) refl;
            counted = rw (whole, test, h, found) (omega (arith, fewer, same));
            lives = λ safe rest. rw (whole, test, h, found) (on_accept-goes_on i _ _ rest (safe _));
            full = λ z. absurd (omega (arith, z, fewer));
          }
    ]

-- What do_dcp_server has made of a table behind some connections.
pub record After (heap fsid : ℕ) (cs : List Connection) (r : Fileservers) : Type 0 where
  pub fileservers : Fileservers
  pub runs : do_dcp_server heap fsid cs r ≡ some fileservers
  pub slots : free_entries fileservers.table ≡ free_entries r.table - length cs
  pub sid : fileservers.lastsid ≡ r.lastsid + length cs
  pub counted : Counted fileservers

rounds-After :
    (heap fsid : ℕ) (cs : List Connection) (r : Fileservers)
    → All (Harmless heap fsid) cs
    → r.lastsid + length cs < 2 ^ 64
    → Counted r
    → After heap fsid cs r
unfolding do_dcp_server
rounds-After heap fsid [] r safe small counted = record {
  fileservers = r;
  runs = refl;
  slots = omega arith;
  sid = omega arith;
  counted = counted;
}
rounds-After heap fsid (c ∷ cs) r (safe, others) small counted =
    let one = round-Turns heap fsid c r (omega arith) counted in
    let r1 = (dcp_round heap fsid c r).fileservers in
    let rest = rounds-After heap fsid cs r1 others (omega (arith, one.sid)) one.counted in
    record {
      fileservers = rest.fileservers;
      runs = one.lives safe (do_dcp_server heap fsid cs r1) ∙ rest.runs;
      slots = omega (arith, rest.slots, one.slots);
      sid = omega (arith, rest.sid, one.sid);
      counted = rest.counted;
    }

-- Behind as many connections as entries were free, whether they have sent anything or not, as long as
-- dcp_accept survives what they have sent, do_dcp_server is still running, and turns every further one away:
-- no entry becomes free again.
pub do_dcp_server-full :
    (heap fsid : ℕ) (cs : List Connection) (r : Fileservers) (c : Connection)
    → All (Harmless heap fsid) cs
    → r.lastsid + length cs + 1 < 2 ^ 64
    → Counted r
    → free_entries r.table ≤ length cs
    → (r' : Fileservers) × ((do_dcp_server heap fsid cs r ≡ some r')
        × ((dcp_round heap fsid c r').outcome ≡ turned_away))
do_dcp_server-full heap fsid cs r c safe small counted enough =
    let after = rounds-After heap fsid cs r safe (omega arith) counted in
    (
      after.fileservers,
      (
        after.runs,
        (round-Turns heap fsid c after.fileservers (omega (arith, after.sid)) after.counted).full
            (omega (arith, after.slots)),
      ),
    )
