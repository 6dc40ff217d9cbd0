-- ===== src/Directory/System/Refines.antt =====
-- The requests of src/fsdird.c refine those of the abstract directory.
use netpro_project.Prelude.{ℕ, ◌≡◌, refl, List, [], ◌∷◌, false, none, some, if◌then◌else◌}
use netpro_project.Dcp.Send.{FileservInfo}
use netpro_project.Directory.Path.{same_names}
use netpro_project.Directory.Tree.{find_child, dir_init}
use netpro_project.Directory.Tree.Find.{lookup}
use netpro_project.Directory.Tree.Insert.{label_at}
use netpro_project.Directory.Handlers.{Server, Ending, sent, blocked, crash}
use netpro_project.Directory.System.{
  Request, Directory, Step, next, stuck, handle, follow, run, transition, follow_step, play,
}
use netpro_project.Directory.System.Agree.{Refines, LegalAfter, AllLegal}
use netpro_project.Directory.System.Requests.{StepRefines, handle-Refines}

follow-Refines :
    (heap fsid : ℕ) (e : Ending) (step : Step) (rs : List Request)
    → StepRefines e step
    → LegalAfter heap fsid step (AllLegal heap fsid rs)
    → ((s : Server) (a : Directory)
        → Refines s a
        → AllLegal heap fsid rs a
        → run heap fsid rs s ≡ play heap fsid rs a)
    → follow e (run heap fsid rs) ≡ follow_step step (play heap fsid rs)
follow-Refines heap fsid (sent s msg) (next a message) rs (same, agree) legal go_on =
    rw (same, go_on s a agree legal) refl
follow-Refines heap fsid blocked stuck rs h legal go_on = refl
follow-Refines heap fsid (sent s msg) stuck rs h legal go_on = absurd h
follow-Refines heap fsid blocked (next a msg) rs h legal go_on = absurd h
follow-Refines heap fsid crash step rs h legal go_on = absurd h

-- The directory server refines the abstract directory: from states that agree, any sequence of requests
-- to create files, to update them and for their replicas sends the same messages in both, up to the
-- first request that waits for ever, if the names can be sent and every file is created in a directory
-- that is there at that moment.
pub run-Refines :
    (heap fsid : ℕ) (rs : List Request) (s : Server) (a : Directory)
    → Refines s a
    → AllLegal heap fsid rs a
    → run heap fsid rs s ≡ play heap fsid rs a
unfolding run play
run-Refines heap fsid [] s a same legal = refl
run-Refines heap fsid (r ∷ rs) s a same (legal, later) =
    follow-Refines heap fsid (handle heap fsid r s) (transition heap fsid r a) rs
      (handle-Refines heap fsid s a same r legal) later (run-Refines heap fsid rs)

-- The directory with nothing but its root.
abbrev pub only_root : List FileservInfo → Directory
only_root table = record {
  nodes = λ q. if same_names q [] then some dir_init.label else none;
  held = false;
  table = table;
}

lookup-dir_init : (q : List (List ℕ)) → label_at q dir_init ≡ (only_root []).nodes q
unfolding lookup dir_init find_child same_names
lookup-dir_init [] = refl
lookup-dir_init (m ∷ q) = refl

pub dir_init-Refines :
    (table : List FileservInfo)
    → Refines
        (record { dirroot = dir_init; dirlock = false; fileservers = table })
        (only_root table)
dir_init-Refines table = record {
  same_nodes = lookup-dir_init;
  same_held = refl;
  same_table = refl;
}
