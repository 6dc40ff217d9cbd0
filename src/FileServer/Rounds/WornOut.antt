-- ===== src/FileServer/Rounds/WornOut.antt =====
-- A file server that has had a hundred and one clients.
use netpro_project.Prelude.{
  ℕ, zero, suc, ◌+◌, ◌≤◌, ◌≡◌, ◌≢◌, refl, ap, ◌∙◌, ltb, ◌==◌, ◌||◌, set, get_elem?, All, replicate,
  List, [], ◌∷◌, true, false, inl, inr, some, arith,
}
use netpro_project.Fap.Send.{fap_open_request, fap_client_quit}
use netpro_project.Directory.Handlers.{strndup}
use netpro_project.FileServer.{ClientInfo}
use netpro_project.FileServer.Forwards.{arrived, received}
use netpro_project.FileServer.Sessions.{fap_open-fap_accept, serve_client-quit}
use netpro_project.Registry.{max_clients, Clients, register_client}
use netpro_project.Registry.Unique.{claim_cases, Claims-get_elem?}
use netpro_project.FileServer.Rounds.{
  Visit, turned_away, served, go_on_after, serve_messages, serve_accepted, fap_dataport, fap_round,
  do_fap_server,
}

-- An entry is free.
abbrev pub HasFree : List ClientInfo → Type 0
HasFree t = (i : ℕ) × (x : ClientInfo) × ((get_elem? t i ≡ some x) × (x.id ≡ 0))

abbrev id_of : ClientInfo → ℕ
id_of c = c.id

abbrev taken_by : ℕ → ClientInfo → ClientInfo
taken_by cid c = record c { id = cid; lasttid = 0 }

All-get_elem? :
    (t : List ClientInfo) (i : ℕ) (x : ClientInfo)
    → All (λ c. id_of c ≢ 0) t
    → get_elem? t i ≡ some x
    → x.id ≢ 0
All-get_elem? [] i x h e = cc
All-get_elem? (y ∷ t) zero x (h, hs) e = let equal : y ≡ x = cc in λ z. h (ap id_of equal ∙ z)
All-get_elem? (y ∷ t) (suc i) x (h, hs) e = All-get_elem? t i x hs e

get_elem?-set :
    (t : List ClientInfo) (i : ℕ) (x y : ClientInfo)
    → get_elem? t i ≡ some x
    → get_elem? (set t i y) i ≡ some y
get_elem?-set [] i x y h = cc
get_elem?-set (z ∷ t) zero x y h = refl
get_elem?-set (z ∷ t) (suc i) x y h = get_elem?-set t i x y h

module _ (heap heap' sid fsid tid tid' cid client_id : ℕ) (hostname host login : List ℕ)
    (nonzero : client_id ≢ 0) where
  -- A client that says hello, quits, and is gone.
  abbrev pub short_visit : Visit
  short_visit = record {
    greeting = (received (fap_open_request heap' sid fsid tid host login));
    messages = arrived (fap_client_quit heap' sid fsid tid' cid) ∷ [];
  }

  -- A round with such a client is counted, and leaves an entry free.
  pub record Passes (r : Clients) : Type 0 where
    pub outcome : (fap_round heap sid fsid hostname client_id short_visit r).outcome ≡ served
    pub counted :
        (fap_round heap sid fsid hostname client_id short_visit r).clients.clicnt ≡ r.clicnt + 1
    pub free : HasFree (fap_round heap sid fsid hostname client_id short_visit r).clients.table

  round-Passes : (r : Clients) → r.clicnt ≤ max_clients → HasFree r.table → Passes r
  unfolding fap_round register_client serve_accepted serve_messages
  round-Passes r few (j, y, (there, zero_id)) =
      let test : (client_id == 0 || ltb max_clients r.clicnt) ≡ false = ground (arith, nonzero) in
      elim (claim_cases id_of (taken_by client_id) r.table) [
        | inl (h, all) ↦ absurd (All-get_elem? r.table j y all there zero_id)
        | inr (i, (t, (h, claims))) ↦
            let (x, found) = Claims-get_elem? id_of (taken_by client_id) claims in
            let (response, (greets, _)) =
              fap_open-fap_accept heap' heap sid fsid tid (taken_by client_id x) host login hostname
                (fap_dataport + i) in
            let info : ClientInfo = record (taken_by client_id x) {
              lasttid = tid;
              host = strndup host;
              user = strndup login;
            } in
            let (ok, (leaves, _)) = serve_client-quit heap' heap sid fsid tid' info cid in
            record {
              outcome = rw (test, h, found, greets, leaves) refl;
              counted = rw (test, h, found, greets, leaves) refl;
              free =
                  rw (test, h, found, greets, leaves) (i, _, (get_elem?-set t i _ _ found, refl));
            }
      ]

  -- From a table with a free entry, behind as many clients that say hello and quit as clicnt is short of
  -- 101, do_fap_server is still running and turns the next connection away, although an entry is free: the
  -- id with which clients are registered is not 0, and clicnt counts the clients that are gone.
  pub do_fap_server-worn_out :
      (n : ℕ) (r : Clients) (next : Visit)
      → r.clicnt + n ≡ max_clients + 1
      → HasFree r.table
      → (r' : Clients) × ((do_fap_server heap sid fsid hostname client_id
              (replicate n short_visit)
              r
            ≡ some r')
          × (HasFree r'.table
              × ((fap_round heap sid fsid hostname client_id next r').outcome ≡ turned_away)))
  unfolding do_fap_server fap_round register_client
  do_fap_server-worn_out zero r next sum free =
      let test : (client_id == 0 || ltb max_clients r.clicnt) ≡ true = ground arith in
      (r, (refl, (free, rw test refl)))
  do_fap_server-worn_out (suc n) r next sum free =
      let passes = round-Passes r (omega arith) free in
      let r1 = (fap_round heap sid fsid hostname client_id short_visit r).clients in
      let (r', (runs, rest)) =
        do_fap_server-worn_out n r1 next (omega (arith, passes.counted)) passes.free in
      (
        r',
        (
          ap
                (λ o.
                  go_on_after o
                    (do_fap_server heap sid fsid hostname client_id (replicate n short_visit) r1))
                passes.outcome
              ∙ runs,
          rest,
        ),
      )
