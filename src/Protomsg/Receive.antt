-- ===== src/Protomsg/Receive.antt =====
-- fsmsg_from_socket of src/protomsg.c.
-- malloc is taken to succeed. A read that returns fewer bytes than the field has is taken for a
-- whole one by the source, and leaves memory unwritten: the model's result is then `indeterminate`.
pub mod Fields
pub mod RoundTrip
pub mod Stops
pub mod Faults
pub mod Ends
pub mod Interrupts
use netpro_project.Prelude.{
  ℕ, zero, suc, ◌+◌, List, [], ◌∷◌, length, take, drop, leb, ◌==◌, if◌then◌else◌,
}
use netpro_project.Socket.{
  Arrival, segment, interrupted, failed, Socket, push_back, Outcome, ok, null, indeterminate,
  out_of_fuel, Reader, pure, fail, ◌>>=◌, pending,
}
use netpro_project.Protomsg.{
  Protocol, FileinfoSect, MsgSection, integer, string, binary, fileinfo, st_nonext, st_integer,
  st_string, st_binary, st_fileinfo, Fsmsg, idcount,
}
use netpro_project.Protomsg.Bytes.{Endian, load, hton, ntohll}

-- TRY(read(sd, dst, n)): NO_INTR repeats an interrupted call; a result of 0 or less is a failure. A
-- read of no bytes returns 0 at once.
unfoldable pub try_read : ℕ → Reader (List ℕ)
try_read zero s = null
try_read (suc n) [] = null
try_read (suc n) (segment b bs ∷ s) =
    if leb n (length bs) then ok (b ∷ take n bs, push_back (drop n bs) s) else indeterminate
try_read (suc n) (interrupted ∷ s) = try_read (suc n) s
try_read (suc n) (failed ∷ s) = null

-- An integer of `n` bytes, converted by ntohs or ntohl, and one of 8 bytes, by ntohll.
unfoldable pub read_int : Endian → ℕ → Reader ℕ
unfolding try_read
read_int e n = do bs ← try_read n; pure (hton e n (load e bs))

unfoldable pub read_int64 : Endian → Reader ℕ
unfolding try_read
read_int64 e = do bs ← try_read 8; pure (ntohll e (load e bs))

-- The file type byte, which is not converted.
unfoldable pub read_byte : Endian → Reader ℕ
unfolding try_read
read_byte e = do bs ← try_read 1; pure (load e bs)

-- `for (int i = 0; i < idcount; i++)`
unfoldable pub read_ids : Endian → ℕ → Reader (List ℕ)
unfolding read_int64
read_ids e zero = pure []
read_ids e (suc n) = do id ← read_int64 e; ids ← read_ids e n; pure (id ∷ ids)

-- ST_STRING and ST_BINARY: the data are read only if there are any.
unfoldable pub read_raw : Endian → Reader (List ℕ)
unfolding read_int
read_raw e = do length ← read_int e 4; if length == 0 then pure [] else try_read length

-- The path and the user name of ST_FILEINFO: always read, also if there is nothing to read.
unfoldable pub read_name : Endian → Reader (List ℕ)
unfolding read_int
read_name e = do length ← read_int e 4; try_read length

unfoldable pub read_fileinfo : Endian → Reader FileinfoSect
unfolding read_byte read_name
read_fileinfo e = do
  type ← read_byte e
  path ← read_name e
  username ← read_name e
  modified ← read_int e 4
  size ← read_int e 4
  replicas ← read_int e 4
  pure (record {
    type = type;
    path = path;
    username = username;
    modified = modified;
    size = size;
    replicas = replicas;
  })

unfoldable pub read_section : Endian → ℕ → Reader MsgSection
unfolding read_raw read_fileinfo
read_section e type =
    if type == st_integer
    then (do n ← read_int e 4; pure (integer n))
    else if type == st_string
    then (do s ← read_raw e; pure (string s))
    else if type == st_binary
    then (do s ← read_raw e; pure (binary s))
    else if type == st_fileinfo
    then (do f ← read_fileinfo e; pure (fileinfo f))
    else fail

-- `while(1)`, on fuel.
unfoldable pub read_sections : ℕ → Endian → Reader (List MsgSection)
unfolding read_section
read_sections zero e s = out_of_fuel
read_sections (suc fuel) e s =
    (do
      type ← read_int e 2
      if type == st_nonext then pure [] else do
        section ← read_section e type
        sections ← read_sections fuel e
        pure (section ∷ sections))
      s

unfoldable pub read_message : ℕ → Endian → Protocol → Reader Fsmsg
unfolding read_ids read_sections
read_message fuel e protocol = do
  tid ← read_int64 e
  ids ← read_ids e (idcount protocol)
  msg_type ← read_int e 2
  sections ← read_sections fuel e
  pure (record { tid = tid; ids = ids; msg_type = msg_type; sections = sections })

-- Every round reads at least the two bytes of a section type, so a round for each byte that is
-- pending is enough.
unfoldable pub fsmsg_from_socket : Endian → Protocol → Reader Fsmsg
unfolding read_message
fsmsg_from_socket e protocol s = read_message (suc (pending s)) e protocol s
