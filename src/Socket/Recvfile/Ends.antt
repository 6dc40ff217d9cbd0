-- ===== src/Socket/Recvfile/Ends.antt =====
-- recvfile takes a byte in every round, or stops.
use netpro_project.Prelude.{
  ℕ, zero, suc, ◌<◌, ◌≤◌, ◌≢◌, List, [], ◌∷◌, length, drop, Bool, true, false, if◌then◌else◌, ◌==◌,
  length-drop, arith,
}
use netpro_project.Socket.{segment, interrupted, failed, Socket, pending}
use netpro_project.Socket.Laws.{pending-push_back}
use netpro_project.Socket.Recvfile.{
  Block, block, end_of_stream, read_failed, recvbufsize, read_block, Transfer, whole, broken,
  endless, out_of_fuel, written, minus, on_block, receive_blocks, recvfile,
}

-- A block takes a byte at least.
abbrev Shrinks : Socket → Block → Type 0
Shrinks s (block bs s') = suc (pending s') ≤ pending s
Shrinks s end_of_stream = Unit {0}
Shrinks s read_failed = Unit {0}

Shrinks-interrupted : (s : Socket) (b : Block) → Shrinks s b → Shrinks (interrupted ∷ s) b
unfolding pending
Shrinks-interrupted s (block bs s') h = h
Shrinks-interrupted s end_of_stream h = tt
Shrinks-interrupted s read_failed h = tt

read_block-Shrinks : (s : Socket) → Shrinks s (read_block recvbufsize s)
unfolding read_block pending
read_block-Shrinks [] = tt
read_block-Shrinks (segment b bs ∷ s) =
    omega (arith, pending-push_back (drop 1023 bs) s, length-drop 1023 bs)
read_block-Shrinks (interrupted ∷ s) =
    Shrinks-interrupted s (read_block recvbufsize s) (read_block-Shrinks s)
read_block-Shrinks (failed ∷ s) = tt

written-ends : (bs : List ℕ) (t : Transfer) → t ≢ out_of_fuel → written bs t ≢ out_of_fuel
written-ends bs (whole more s) h = λ e. cc
written-ends bs (broken more) h = λ e. cc
written-ends bs (endless more) h = λ e. cc
written-ends bs out_of_fuel h = h

on_block-ends :
    (s : Socket) (b : Block) (rest : List ℕ → Socket → Transfer)
    → Shrinks s b
    → ((bs : List ℕ) (s' : Socket) → suc (pending s') ≤ pending s → rest bs s' ≢ out_of_fuel)
    → on_block b rest ≢ out_of_fuel
on_block-ends s (block bs s') rest less ends = written-ends bs (rest bs s') (ends bs s' less)
on_block-ends s end_of_stream rest less ends = λ e. cc
on_block-ends s read_failed rest less ends = λ e. cc

if-ends :
    (b : Bool) (t u : Transfer)
    → t ≢ out_of_fuel
    → u ≢ out_of_fuel
    → (if b then t else u) ≢ out_of_fuel
if-ends true t u ht hu = ht
if-ends false t u ht hu = hu

receive_blocks-ends :
    (fuel left : ℕ) (s : Socket) → pending s < fuel → receive_blocks fuel left s ≢ out_of_fuel
unfolding receive_blocks
receive_blocks-ends zero left s h = absurd (omega arith)
receive_blocks-ends (suc fuel) left s h =
    if-ends (left == 0) _ _ (λ e. cc)
      (on_block-ends s (read_block recvbufsize s) _ (read_block-Shrinks s)
        (λ bs s' less. receive_blocks-ends fuel (minus left (length bs)) s' (omega arith)))

-- The fuel of recvfile is enough: on every stream it comes to the end of the file, to a failed read, or to
-- the end of the stream, where it stays for ever.
pub recvfile_ends : (len : ℕ) (s : Socket) → recvfile len s ≢ out_of_fuel
unfolding recvfile
recvfile_ends len s = receive_blocks-ends (suc (pending s)) len s (omega arith)
