-- ===== src/Fctp/Download.antt =====
-- A download, from the request of fctp_get_file to the file that it stores.
use netpro_project.Prelude.{
  ℕ, ◌+◌, ◌%◌, ◌^◌, ◌<◌, ◌≤◌, ◌≡◌, ◌≢◌, refl, ap, ◌∙◌, List, [], ◌∷◌, ◌++◌, length, take, Option,
  none, some, false, All, arith,
}
use netpro_project.Socket.{Socket, push_back, ok}
use netpro_project.Protomsg.{MsgSection, string, binary, Fsmsg, fctp, fsmsg_add_section}
use netpro_project.Protomsg.Bytes.{Endian}
use netpro_project.Protomsg.Buffer.{fsmsg_to_buffer}
use netpro_project.Protomsg.Receive.{fsmsg_from_socket}
use netpro_project.Protomsg.Receive.RoundTrip.{fsmsg_from_socket-to_buffer}
use netpro_project.Protomsg.Memory.{Heap, Blocks, Allocated, create_blocks, add_all}
use netpro_project.Protomsg.Memory.Frees.{fsmsg_free-add_all}
use netpro_project.Directory.Path.{same_name_refl}
use netpro_project.Directory.Tree.Find.{same_name-other}
use netpro_project.Directory.Handlers.{err_filenotfound}
use netpro_project.Directory.Handlers.Listing.{small-mod}
use netpro_project.Directory.Serve.{secsdup}
use netpro_project.Directory.System.Agree.{strndup-All}
use netpro_project.FileServer.Forwards.{received}
use netpro_project.Fctp.{
  fctp_create_msg, Disk, overwrite, store, fetched, not_fetched, fctp_get_file, Pointer, request,
  response, sends, blocks_of, run_frees, fctp_request, fctp_send_error, fctp_response,
  serve_download, fctp_server, no_file,
}

take-whole : (bytes : List ℕ) → take (length bytes) bytes ≡ bytes
take-whole [] = refl
take-whole (b ∷ bs) = ap (λ t. b ∷ t) (take-whole bs)

pub store-same :
    (path bytes : List ℕ) (disk : Disk)
    → store path bytes disk path ≡ some (overwrite (disk path) bytes)
unfolding store
store-same path bytes disk = rw (same_name_refl path) refl

pub store-other :
    (path bytes q : List ℕ) (disk : Disk) → q ≢ path → store path bytes disk q ≡ disk q
unfolding store
store-other path bytes q disk ne = rw (same_name-other q path ne) refl

-- fsmsg_from_socket returns `to`, and leaves `more`, where the bytes of `from` have arrived in one
-- segment in front of `more`.
abbrev pub Carries : Endian → List ℕ → Socket → Fsmsg → Fsmsg → Type 0
Carries e more s from to =
    fsmsg_from_socket e fctp (push_back ((fsmsg_to_buffer e from fctp).0 ++ more) s)
    ≡ ok (to, push_back more s)

module _ (heap heap' sid sid' fsid tid : ℕ) (word : ℕ → ℕ) (dataloc dataloc' path : List ℕ)
    (disk disk' : Disk) where
  -- The request as fsmsg_from_socket returns it, and the response.
  abbrev asked : Fsmsg
  asked = record { tid = tid; ids = sid ∷ fsid ∷ []; msg_type = 1; sections = string path ∷ [] }

  abbrev given : List ℕ → Fsmsg
  given bytes = record {
    tid = tid;
    ids = sid' ∷ fsid ∷ [];
    msg_type = 2;
    sections = binary bytes ∷ [];
  }

  -- A file that stands on the disk of the one file server, under a path without a NUL, is sent in answer
  -- to the request of fctp_get_file, which stores its bytes under the path on the disk of the other, where
  -- nothing was, and nowhere else. Both messages go through fsmsg_to_buffer and fsmsg_from_socket and arrive
  -- in one segment each, the ids have 64 bits, the path and the file are shorter than 2 ^ 31 - 2048 bytes,
  -- and fctp_server frees the request and the response once each.
  pub fctp_get_file-fctp_server :
      (e : Endian) (more : List ℕ) (s : Socket) (bytes : List ℕ)
      → tid < 2 ^ 64
      → sid < 2 ^ 64
      → sid' < 2 ^ 64
      → fsid < 2 ^ 64
      → length path + 2048 < 2 ^ 31
      → length bytes + 2048 < 2 ^ 31
      → All (λ c. c ≢ 0) path
      → disk (dataloc ++ path) ≡ some bytes
      → disk' (dataloc' ++ path) ≡ none
      → (m : Fsmsg) × (msg : Fsmsg) × (m' : Fsmsg) × (after : Disk) × (Carries e more s
            (fctp_request heap sid fsid tid path)
            m
          × ((fctp_server heap' sid' fsid word dataloc disk (some m)
                ≡ sends msg (request ∷ response ∷ []))
              × (Carries e more s msg m'
                  × ((fctp_get_file dataloc' path (some m') disk' ≡ fetched after)
                      × ((after (dataloc' ++ path) ≡ some bytes)
                          × ((q : List ℕ) → q ≢ dataloc' ++ path → after q ≡ disk' q))))))
  unfolding fctp_server fctp_get_file fctp_request fctp_response serve_download secsdup
      fctp_create_msg fsmsg_add_section
  fctp_get_file-fctp_server e more s bytes htid hsid hsid' hfsid hpath hbytes no_nul there free =
      let whole : take (length bytes % 2 ^ 32) bytes ≡ bytes =
        ap (λ n. take n bytes) (small-mod (length bytes) (omega arith)) ∙ take-whole bytes in
      (
        asked,
        fctp_response heap' sid' fsid tid bytes,
        given bytes,
        store (dataloc' ++ path) bytes disk',
        (
          fsmsg_from_socket-to_buffer e fctp asked more s (record {
            tid = htid;
            ids = (hsid, (hfsid, tt));
            count = refl;
            msg_type = omega arith;
            sections = (omega arith, tt);
          }),
          (
            rw (strndup-All path no_nul, there) refl,
            (
              rw whole (
                  fsmsg_from_socket-to_buffer e fctp (given bytes) more s (record {
                    tid = htid;
                    ids = (hsid', (hfsid, tt));
                    count = refl;
                    msg_type = omega arith;
                    sections = (omega arith, tt);
                  })),
              (
                refl,
                (
                  rw (store-same (dataloc' ++ path) bytes disk', free) refl,
                  λ q ne. store-other (dataloc' ++ path) bytes q disk' ne,
                ),
              ),
            ),
          ),
        ),
      )

  -- A file that is not on the disk, under a path without a NUL, is answered with an error, which makes
  -- fctp_get_file return 0. The calls of fsmsg_free of that round are a double free, from any heap in which
  -- fsmsg_create and fsmsg_add_section have built the request, whatever its sections are.
  pub fctp_server-missing :
      (h : Heap) (ss : List MsgSection) (given_blocks : Option Blocks)
      → ((q : ℕ) → h.next ≤ q → h.live q ≡ false)
      → All (λ c. c ≢ 0) path
      → disk (dataloc ++ path) ≡ none
      → (msg : Fsmsg) × (frees : List Pointer) × (a : Allocated) × ((fctp_server heap' sid' fsid
              word dataloc disk
              (received (fctp_request heap sid fsid tid path))
            ≡ sends msg frees)
          × ((fctp_get_file dataloc' path (received msg) disk' ≡ not_fetched)
              × ((add_all ss (create_blocks h).blocks (create_blocks h).heap ≡ some a)
                  × (run_frees (blocks_of a.blocks given_blocks) frees a.heap ≡ none))))
  unfolding fctp_server fctp_get_file fctp_request fctp_send_error serve_download secsdup
      fctp_create_msg fsmsg_add_section run_frees
  fctp_server-missing h ss given_blocks fresh no_nul missing =
      let (a, h', (built, (freed, (_, twice)))) = fsmsg_free-add_all h ss fresh in
      (
        fctp_send_error heap' sid' fsid tid err_filenotfound no_file,
        request ∷ request ∷ [],
        a,
        (rw (strndup-All path no_nul, missing) refl, (refl, (built, rw (freed, twice) refl))),
      )
