-- ===== src/Prompt/Names.antt =====
-- The file names of the client, and its commands on their way to the file server.
use netpro_project.Prelude.{
  ℕ, zero, suc, ◌+◌, ◌-◌, ◌≤◌, ◌<◌, ◌≡◌, ◌≢◌, ap, ◌∙◌, ◌==◌, length, length-append, take,
  take-append, All, All-append, Bool-cases, inl, inr, List, [], ◌∷◌, ◌++◌, some, arith,
}
use netpro_project.Directory.Path.{same_name}
use netpro_project.Directory.Handlers.{strndup}
use netpro_project.Directory.System.Agree.{strndup-All}
use netpro_project.Config.{newline}
use netpro_project.Protomsg.{Fsmsg}
use netpro_project.FileServer.{ClientInfo}
use netpro_project.FileServer.Forwards.{received}
use netpro_project.FileServer.Commands.{
  serve_client, runs, Job, create_job, read_job, write_job, list_job,
}
use netpro_project.FileServer.Sessions.{serve_client-commands}
use netpro_project.Prompt.{blank, touch, cat, edit, ls, prompt, cut_last, filename, filename_size}
use netpro_project.Prompt.Commands.{prompt-action_of}
use netpro_project.Prompt.Requests.{edit_request, request}

length-strndup : (text : List ℕ) → length (strndup text) ≤ length text
unfolding strndup
length-strndup [] = omega arith
length-strndup (c ∷ cs) = elim (Bool-cases (c == 0)) [
  | inl e ↦ rw e (omega arith)
  | inr e ↦ rw e (omega (arith, length-strndup cs))
]

length-take : (n : ℕ) (text : List ℕ) → length (take n text) ≤ n
length-take zero text = omega arith
length-take (suc n) [] = omega arith
length-take (suc n) (c ∷ cs) = omega (arith, length-take n cs)

-- The buffer for a file name holds the name with its NUL, for every rest of a line, which has its newline
-- at least.
pub filename_fits :
    (cwd args : List ℕ) → 0 < length args → length (filename cwd args) + 1 ≤ filename_size cwd args
unfolding filename cut_last
filename_fits cwd args some_args = omega (
  arith,
  length-append cwd (strndup (take (length args - 1) args)),
  length-strndup (take (length args - 1) args),
  length-take (length args - 1) args,
)

cut_last-newline : (name : List ℕ) → cut_last (name ++ newline ∷ []) ≡ name
unfolding cut_last
cut_last-newline name =
    let size : length (name ++ newline ∷ []) - 1 ≡ length name =
      omega (arith, length-append name (newline ∷ [])) in
    ap (λ n. take n (name ++ newline ∷ [])) size ∙ take-append name (newline ∷ [])

filename-newline :
    (cwd name : List ℕ) → All (λ c. c ≢ 0) name → filename cwd (name ++ newline ∷ []) ≡ cwd ++ name
unfolding filename
filename-newline cwd name no_nul =
    ap (λ t. cwd ++ strndup t) (cut_last-newline name)
    ∙ ap (λ t. cwd ++ t) (strndup-All name no_nul)

-- The line makes the client send a request at which a round of serve_client does the job.
abbrev pub Serves : ℕ → ℕ → ℕ → ℕ → ℕ → ℕ → ClientInfo → List ℕ → List ℕ → List ℕ → Job → Type 0
Serves heap heap' sid fsid tid cid info cwd text line job =
    (msg : Fsmsg) × ((request heap sid fsid tid cid cwd text (prompt line) ≡ some msg)
      × (serve_client heap' sid fsid (received msg) info
          ≡ runs (record info { lasttid = tid }) job))

-- The command lines of a client whose directory and name have no NUL, and the jobs of the file server:
-- "touch", "cat" and "edit" with a name make it create, read or write just the path of that name in that
-- directory, "edit" with the length of the text, if that is not empty, and "ls" makes it list the
-- directory; the file server stores the transaction id of the request.
pub prompt-jobs :
    (heap heap' sid fsid tid cid : ℕ) (info : ClientInfo) (cwd name : List ℕ) (c : ℕ)
    (text : List ℕ)
    → All (λ b. b ≢ 0) cwd
    → All (λ b. b ≢ 0) name
    → Serves heap heap' sid fsid tid cid info cwd
        (c ∷ text)
        (touch ++ blank ∷ (name ++ newline ∷ []))
        (create_job (cwd ++ name))
      × (Serves heap heap' sid fsid tid cid info cwd
            (c ∷ text)
            (cat ++ blank ∷ (name ++ newline ∷ []))
            (read_job (cwd ++ name))
          × (Serves heap heap' sid fsid tid cid info cwd
                (c ∷ text)
                (edit ++ blank ∷ (name ++ newline ∷ []))
                (write_job (cwd ++ name) (length (c ∷ text)))
              × Serves heap heap' sid fsid tid cid info cwd
                  (c ∷ text)
                  (ls ++ newline ∷ [])
                  (list_job 1 cwd)))
unfolding request edit_request same_name
prompt-jobs heap heap' sid fsid tid cid info cwd name c text cwd_plain name_plain =
    let args = name ++ newline ∷ [] in
    let path = filename cwd args in
    let plain : strndup path ≡ cwd ++ name =
      ap strndup (filename-newline cwd name name_plain)
      ∙ strndup-All (cwd ++ name) (All-append _ cwd name cwd_plain name_plain) in
    let (created, (got, (written, listed))) =
      serve_client-commands heap heap' sid fsid tid info cid path (length (c ∷ text)) in
    let run = request heap sid fsid tid cid cwd (c ∷ text) in
    let noted = record info { lasttid = tid } in
    (
      (
        _,
        (
          ap run (prompt-action_of touch args (omega arith)).0,
          created ∙ ap (λ p. runs noted (create_job p)) plain,
        ),
      ),
      (
        (
          _,
          (
            ap run (prompt-action_of cat args (omega arith)).0,
            got ∙ ap (λ p. runs noted (read_job p)) plain,
          ),
        ),
        (
          (
            _,
            (
              ap run (prompt-action_of edit args (omega arith)).0,
              written ∙ ap (λ p. runs noted (write_job p (length (c ∷ text)))) plain,
            ),
          ),
          (
            _,
            (
              ap run (prompt-action_of ls [] (omega arith)).1,
              (serve_client-commands heap heap' sid fsid tid info cid cwd 0).1.1.1,
            ),
          ),
        ),
      ),
    )
