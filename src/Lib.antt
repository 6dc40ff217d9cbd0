-- ===== src/Lib.antt =====
-- Verification of the distributed file system: a directory server that keeps the tree of names, file
-- servers that keep the contents, and clients. Clients talk to file servers by the file access protocol
-- (FAP), file servers to the directory server by the directory control protocol (DCP), and file servers
-- to each other by the file copy protocol (FCTP). All three send the same messages over TCP.
--
-- The files and the code they model:
--   Protomsg: src/protomsg.h and src/protomsg.c. Protomsg has the types, fsmsg_create and
--     fsmsg_add_section; Protomsg/Bytes the conversions htons, htonl, htonll, ntohll and the memory of an
--     integer; Protomsg/Buffer the functions bufferadd and fsmsg_to_buffer; Protomsg/Receive
--     fsmsg_from_socket; Protomsg/Testst the macros TESTST and SECI; Protomsg/Response EXPECTID and
--     EXPECTTYPE; Protomsg/Memory the allocations of fsmsg_create, fsmsg_add_section and fsmsg_free.
--   Socket: what read returns from a connected socket, and the reader that stops at the first failure.
--     Socket/Recvfile is recvfile of src/netutil.c.
--   Fap: src/fap.h and src/fap.c. Fap/Validate has fap_validate_sections, Fap/Respond
--     fap_check_response, Fap/Send the messages that its functions build, and Fap/Client what the client's
--     functions make of the response, under the names of those functions.
--   Dcp: src/dcp.h and src/dcp.c, in the same way; Dcp/Handshake has dcp_open and dcp_accept.
--   Directory: src/fsdird.c. Directory/Path cuts up paths, Directory/Tree has dir_find_node, add_child and
--     add_node, Directory/Handlers the requests read_dir, create_file, update_file and replica_status,
--     Directory/Serve a round of serve_fileserver, Directory/System sequences of requests, and the abstract
--     directory that they refine, Directory/Threads the threads at the mutex.
--   FileServer: src/fsservd.c. FileServer/Commands has fap_accept of src/fap.c and a round of serve_client,
--     FileServer itself list_directory and create_file, FileServer/LocalFiles the functions write_file,
--     serve_file and ask_file, FileServer/Rounds the loops of serve_client and do_fap_server.
--     FileServer/Forwards, Requests, Sessions and Listings follow a request from the client to the directory
--     server and back.
--   Fctp: src/fctp.h and src/fctp.c: the messages, fctp_get_file and a round of fctp_server.
--   Registry: register_fsrv and nextsid of src/fsdird.c, and register_client of src/fsservd.c;
--     Registry/Rounds the loop of do_dcp_server over the connections that come.
--   Config: readline of src/util.c; Config/Params add_config_param, read_config and read_args.
--   Prompt: prompt_loop of src/fscli.c and the file names of its commands; Prompt/Requests the requests that
--     they send, Prompt/Listing what list_dir writes to the terminal.
--   Prelude: shared names, Boolean tests and lists. Examples: runs, and the theorems at concrete inputs.
--
-- A function that sends a request and waits for the response is two definitions: the request that it
-- builds, and what it does with the message that fsmsg_from_socket has returned, which is a parameter.
-- The theorems put the other side's answer there as `received` gives it: the sections up to ST_NONEXT, or
-- nothing at all if a file information has an empty path or user name. FileServer/Wire shows that this is
-- what fsmsg_from_socket returns of the bytes of fsmsg_to_buffer, for fields that fit the wire format, where
-- a message arrives in one segment; the theorems with `received` suppose that. An integer that is read from
-- a section with a file information is taken as missing, while the code would read the type byte and the
-- padding behind it.
--
-- Integers are the bit patterns of their C types, below 2 ^ 64, 2 ^ 32 or 2 ^ 16; an int32_t is negative
-- from 2 ^ 31 on. The host is little-endian or big-endian, a parameter. A string with its length is
-- the list of its bytes, and a C string the same without its NUL. A section array ends in NULL, which is
-- the end of the list. Pointers into the directory tree are the positions of the children on the way
-- from the root. Where the C code reads through a NULL pointer, the model has a result of its own for it,
-- and so it has for memory that was never written. What malloc leaves in a field is a parameter.
--
-- A socket is a list of arrivals: segments of at least one byte, interrupted calls and failures. TRY
-- repeats an interrupted call. The loop of fsmsg_from_socket runs on fuel, one round for every byte
-- that is pending and one more, which is enough since every round reads the two bytes of a section
-- type or ends. The loop of read_config runs on fuel too; a round for every line of the file and one
-- more are enough.
--
-- In Directory/Handlers a request of the directory server is one step on the tree and the mutex: no other
-- thread sees a state in between. A request that waits for a mutex which nobody will unlock is blocked.
-- In Directory/Threads the calls on the mutex are steps of their own, in any order that the threads can
-- take, and the tree is left out.
--
-- The local disk of a file server is a function from paths to contents, and the data connection of a client
-- a socket. open of a file for writing and malloc are taken to succeed, write and sendfile to take all
-- bytes. recvfile runs on fuel, a round for every byte that is pending and one more; that is enough since
-- a round takes a byte or stops. That a read at the end of the stream is repeated for ever is a result of
-- its own.
--
-- Not modelled: socket, connect, accept, listen and the name lookup with the loops around them
-- (src/netutil.c, and the functions that start the servers and the client, but for do_dcp_server and
-- do_fap_server), the creation of threads, logopen, logwrite and syscallerr of src/util.c beyond the end of
-- the process, the other terminal output, and readval and fsmsg_section_copy of src/protomsg.c, which nothing
-- calls. The bytes that a block has are not counted in Protomsg/Memory.
-- Messages are taken to be so short that no int of fsmsg_to_buffer overflows, its length and that of its
-- buffer, for which fewer than 2 ^ 30 - 512 bytes are enough.
mod Examples
pub mod Prelude
pub mod Socket
pub mod Protomsg
pub mod Fap
pub mod Dcp
pub mod Directory
pub mod FileServer
pub mod Fctp
pub mod Registry
pub mod Config
pub mod Prompt
