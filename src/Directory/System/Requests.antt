-- ===== src/Directory/System/Requests.antt =====
-- Each request of src/fsdird.c is answered as in the abstract directory.
use netpro_project.Prelude.{
  ℕ, ◌≡◌, ◌≢◌, refl, sym, ap, ◌∙◌, List, [], ◌∷◌, ◌++◌, Bool, true, false, Bool-cases, inl, inr,
  All, All-append, Option, none, some, Option-cases, maybe,
}
use netpro_project.Protomsg.{Fsmsg}
use netpro_project.Dcp.Send.{FileservInfo}
use netpro_project.Directory.Path.{IsName, path_of}
use netpro_project.Directory.Tree.{Node, Dir}
use netpro_project.Directory.Tree.Leads.{edit-Leads, target-Leads}
use netpro_project.Directory.Tree.Insert.{label_at}
use netpro_project.Directory.Tree.Create.{node_at-path_of, label_at-Leads}
use netpro_project.Directory.Handlers.{
  Server, Ending, listed, user, sent, blocked, set_fileserv, create_file, update_file,
  replica_status,
}
use netpro_project.Directory.Handlers.Replicas.{create_file-creates, label_at-set_fileserv}
use netpro_project.Directory.System.{
  Request, creates, updates, replicas, Directory, put, Step, next, stuck, owned_by, new_file,
  fileserv_address, handle, transition,
}
use netpro_project.Directory.System.Agree.{
  Refines, Legal, strndup-All, put-Refines, find-Refines, free-Refines, address-Refines,
}

-- One request is answered as in the abstract directory, and the states agree again.
abbrev pub StepRefines : Ending → Step → Type 0
StepRefines (sent s msg) (next a message) = (msg ≡ message) × Refines s a
StepRefines blocked stuck = Unit {0}
StepRefines _ _ = ⊥

-- The same case on both sides.
answer-Refines :
    (o : Option (List ℕ)) (missing : Fsmsg) (answer : List ℕ → Fsmsg) (s : Server) (a : Directory)
    → Refines s a
    → StepRefines
        (maybe o (sent s missing) (λ address. sent s (answer address)))
        (maybe o (next a missing) (λ address. next a (answer address)))
answer-Refines none missing answer s a same = (refl, same)
answer-Refines (some address) missing answer s a same = (refl, same)

with_lock :
    (s : Server) (a : Directory) (b : Bool)
    → Refines s a
    → Refines (record s { dirlock = b }) (record a { held = b })
with_lock s a b same = record {
  same_nodes = same.same_nodes;
  same_held = refl;
  same_table = same.same_table;
}

put-step :
    (s : Server) (a : Directory) (root : Dir) (names : List (List ℕ)) (x : Node) (b : Bool)
    → Refines s a
    → label_at names root ≡ some x
    → ((q : List (List ℕ)) → q ≢ names → label_at q root ≡ label_at q s.dirroot)
    → Refines
        (record s { dirroot = root; dirlock = b })
        (record { nodes = put names x a.nodes; held = b; table = a.table })
put-step s a root names x b same at others = record {
  same_nodes = put-Refines s.dirroot root names x same.same_nodes at others;
  same_held = refl;
  same_table = same.same_table;
}

module _ (heap fsid : ℕ) (s : Server) (a : Directory) (same : Refines s a) where
  replicas-Refines :
      (i : ℕ) (info : FileservInfo) (names : List (List ℕ))
      → All IsName names
      → StepRefines
          (replica_status heap fsid i info (path_of names) s)
          (transition heap fsid (replicas i info names) a)
  unfolding replica_status
  replicas-Refines i info names h = elim (Bool-cases a.held) [
    | inl held ↦ rw (same.same_held, held) tt
    | inr free ↦ elim (Option-cases (a.nodes names)) [
      | inl gone ↦
          rw (same.same_held, free, gone, find-Refines s a same names none h gone)
            (refl, with_lock s a false same)
      | inr (x, there) ↦
          let (n, (e, (l, (found, label)))) = find-Refines s a same names (some x) h there in
          rw
            (
              same.same_held,
              free,
              there,
              found,
              address-Refines s a same n e x (target-Leads l) label,
            )
            (answer-Refines (fileserv_address a.table x) _ _ _ _ (with_lock s a false same))
    ]
  ]

  updates-Refines :
      (i : ℕ) (info : FileservInfo) (names : List (List ℕ))
      → All IsName names
      → StepRefines
          (update_file heap fsid i info (path_of names) s)
          (transition heap fsid (updates i info names) a)
  unfolding update_file
  updates-Refines i info names h = elim (Option-cases (a.nodes names)) [
    | inl gone ↦ rw (gone, find-Refines s a same names none h gone) (refl, with_lock s a false same)
    | inr (x, there) ↦
        let (n, (e, (l, (found, label)))) = find-Refines s a same names (some x) h there in
        let way = edit-Leads (set_fileserv i) (λ e. refl) l in
        rw (there, found, target-Leads l, label)
          (
            refl,
            put-step s a _ names (owned_by i x) false same
                (label_at-Leads way ∙ ap (λ y. some (owned_by i y)) label)
                (label_at-set_fileserv 0 0 i info l),
          )
  ]

  creates-Refines :
      (i : ℕ) (info : FileservInfo) (dir : List (List ℕ)) (name : List ℕ)
      → Legal (creates i info dir name) a
      → StepRefines
          (handle heap fsid (creates i info dir name) s)
          (transition heap fsid (creates i info dir name) a)
  unfolding create_file
  creates-Refines i info dir name (names, (is_name, (no_nul, there))) = elim (Bool-cases a.held) [
    | inl held ↦ rw (same.same_held, held) tt
    | inr free ↦ elim (Option-cases (a.nodes (dir ++ name ∷ []))) [
      | inl gone ↦
          let (root, (answer, (created, others))) =
            create_file-creates heap fsid i info (listed (path_of (dir ++ name ∷ [])) user) s dir
              name (free-Refines s a same free) names is_name (strndup-All _ no_nul)
              (λ z. there (sym (node_at-path_of dir s.dirroot names ∙ same.same_nodes dir) ∙ z))
              (find-Refines s a same (dir ++ name ∷ []) none
                (All-append IsName dir (name ∷ []) names (is_name, tt)) gone) in
          rw (answer, free, gone)
            (
              refl,
              record {
                same_nodes =
                    put-Refines s.dirroot root (dir ++ name ∷ []) (new_file i name) same.same_nodes
                      (label_at-Leads created.way ∙ ap some created.labelled) others;
                same_held = free-Refines s a same free;
                same_table = same.same_table;
              },
            )
      | inr (x, old) ↦
          let (n, (e, (l, (found, label)))) =
            find-Refines s a same (dir ++ name ∷ []) (some x)
              (All-append IsName dir (name ∷ []) names (is_name, tt)) old in
          rw (same.same_held, free, old, strndup-All _ no_nul, found)
            (refl, with_lock s a true same)
    ]
  ]

  pub handle-Refines :
      (r : Request) → Legal r a → StepRefines (handle heap fsid r s) (transition heap fsid r a)
  handle-Refines (creates i info dir name) h = creates-Refines i info dir name h
  handle-Refines (updates i info names) h = updates-Refines i info names h
  handle-Refines (replicas i info names) h = replicas-Refines i info names h
