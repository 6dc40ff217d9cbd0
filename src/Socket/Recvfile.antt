-- ===== src/Socket/Recvfile.antt =====
-- recvfile of src/netutil.c. write is taken to store all the bytes that it is given.
pub mod Ends
pub mod Blocks
pub mod Whole
use netpro_project.Prelude.{
  ℕ, zero, suc, ◌+◌, ◌-◌, ◌%◌, ◌^◌, ◌==◌, if◌then◌else◌, List, [], ◌∷◌, ◌++◌, length, take, drop,
}
use netpro_project.Socket.{segment, interrupted, failed, Socket, push_back, pending}

-- What read(sd, buffer, n) comes to behind NO_INTR.
pub data Block : Type 0 where
  block : List ℕ → Socket → Block
  end_of_stream : Block
  read_failed : Block

abbrev pub recvbufsize : ℕ
recvbufsize = 1024

unfoldable pub read_block : ℕ → Socket → Block
read_block n [] = end_of_stream
read_block n (segment b bs ∷ s) = block (take n (b ∷ bs)) (push_back (drop n (b ∷ bs)) s)
read_block n (interrupted ∷ s) = read_block n s
read_block n (failed ∷ s) = read_failed

-- How recvfile ends: with the bytes that it has written, and what is left of the stream; with a failure
-- behind them; not at all, since a read at the end of the stream returns 0 for ever; or, in the model
-- only, without fuel.
pub data Transfer : Type 0 where
  whole : List ℕ → Socket → Transfer
  broken : List ℕ → Transfer
  endless : List ℕ → Transfer
  out_of_fuel : Transfer

-- `write(fd, buffer, ret)` in front of the other rounds
abbrev pub written : List ℕ → Transfer → Transfer
written bs (whole more s) = whole (bs ++ more) s
written bs (broken more) = broken (bs ++ more)
written bs (endless more) = endless (bs ++ more)
written bs out_of_fuel = out_of_fuel

-- `left -= ret` on an int
abbrev pub minus : ℕ → ℕ → ℕ
minus left n = (left + (2 ^ 32 - n)) % 2 ^ 32

abbrev pub on_block : Block → (List ℕ → Socket → Transfer) → Transfer
on_block (block bs s) rest = written bs (rest bs s)
on_block end_of_stream rest = endless []
on_block read_failed rest = broken []

-- `while (left)`, on fuel. The test is for 0, not for a positive number.
unfoldable pub receive_blocks : ℕ → ℕ → Socket → Transfer
unfolding read_block
receive_blocks zero left s = out_of_fuel
receive_blocks (suc fuel) left s =
    let rest =
      on_block (read_block recvbufsize s)
        (λ bs s'. receive_blocks fuel (minus left (length bs)) s') in
    if left == 0 then whole [] s else rest

-- Every round takes a byte at least, so a round for each byte that is pending is enough.
unfoldable pub recvfile : ℕ → Socket → Transfer
unfolding receive_blocks
recvfile len s = receive_blocks (suc (pending s)) len s
