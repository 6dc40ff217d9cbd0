-- ===== src/Prompt/Requests.antt =====
-- What new_file, edit_file, read_file, list_dir and client_quit of src/fscli.c send to the file server.
use netpro_project.Prelude.{ℕ, length, List, [], ◌∷◌, Option, none, some}
use netpro_project.Protomsg.{Fsmsg}
use netpro_project.Fap.Send.{
  fap_client_quit, fap_list_request, fap_create_request, fap_read_request, fap_write_request,
}
use netpro_project.Prompt.{
  Action, client_quit, working_dir, list_dir, read_file, edit_file, new_file, not_implemented,
  unknown_command, filename,
}

module _ (heap sid fsid tid cid : ℕ) (cwd : List ℕ) where
  -- `if (len <= 0) return;` and fap_write_file of edit_file, with the bytes of the text
  unfoldable pub edit_request : List ℕ → List ℕ → Option Fsmsg
  unfolding filename fap_write_request
  edit_request [] args = none
  edit_request (c ∷ text) args =
      some (fap_write_request heap sid fsid tid cid (filename cwd args) (length (c ∷ text)))

  -- The request of an action, if it makes one; `text` is what readline has read for edit_file.
  unfoldable pub request : List ℕ → Action → Option Fsmsg
  unfolding filename fap_client_quit fap_list_request fap_create_request fap_read_request
      edit_request
  request text client_quit = some (fap_client_quit heap sid fsid tid cid)
  request text list_dir = some (fap_list_request heap sid fsid tid cid cwd)
  request text (read_file args) = some (fap_read_request heap sid fsid tid cid (filename cwd args))
  request text (edit_file args) = edit_request text args
  request text (new_file args) = some (fap_create_request heap sid fsid tid cid (filename cwd args))
  request text working_dir = none
  request text not_implemented = none
  request text unknown_command = none
