-- ===== src/Examples/DirectoryRuns.antt =====
-- Sequences of requests to the directory server of src/fsdird.c.
use netpro_project.Prelude.{◌≡◌, refl, List, [], ◌∷◌, false, arith}
use netpro_project.Dcp.Send.{dcp_send_replica_list}
use netpro_project.Directory.Path.{same_name, same_names}
use netpro_project.Directory.Tree.{dir_init}
use netpro_project.Directory.Handlers.{Server, create_reply}
use netpro_project.Directory.System.{
  Request, creates, replicas, sends, waits, put, run, play, exists_error,
}
use netpro_project.Directory.System.Agree.{AllLegal}
use netpro_project.Directory.System.Refines.{run-Refines, only_root, dir_init-Refines}
use netpro_project.Examples.DirectoryServer.{a, b, info, IsName-a, IsName-b}

abbrev start : Server
start = record { dirroot = dir_init; dirlock = false; fileservers = info ∷ [] }

-- The directory "/a", the file "/a/b", who has it, and the file again, after which the mutex is held.
abbrev requests : List Request
requests =
    creates 0 info [] a
    ∷ creates 0 info (a ∷ []) b
    ∷ replicas 0 info (a ∷ b ∷ [])
    ∷ creates 0 info (a ∷ []) b
    ∷ replicas 0 info (a ∷ b ∷ [])
    ∷ []

play_run :
    play 0 9 requests (only_root (info ∷ []))
    ≡ sends (create_reply 0 9 0 info a) (
        sends (create_reply 0 9 0 info b) (
          sends (dcp_send_replica_list 0 9 info (b'h' ∷ [])) (sends (exists_error 0 9 info) waits)))
unfolding play put same_names same_name dir_init
play_run = refl

legal : AllLegal 0 9 requests (only_root (info ∷ []))
unfolding put same_names same_name dir_init
legal = (
  (tt, (IsName-a, (omega arith, λ h. cc))),
  (
    ((IsName-a, tt), (IsName-b, (omega arith, λ h. cc))),
    (
      (IsName-a, (IsName-b, tt)),
      (((IsName-a, tt), (IsName-b, (omega arith, λ h. cc))), ((IsName-a, (IsName-b, tt)), tt)),
    ),
  ),
)

run-Refines_example : run 0 9 requests start ≡ play 0 9 requests (only_root (info ∷ []))
run-Refines_example =
    run-Refines 0 9 requests start (only_root (info ∷ [])) (dir_init-Refines (info ∷ [])) legal
