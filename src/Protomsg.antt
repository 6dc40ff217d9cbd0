-- ===== src/Protomsg.antt =====
-- The messages that every process exchanges: the types of src/protomsg.h and the constructors of
-- src/protomsg.c. An integer is its bit pattern: uint64_t below 2 ^ 64, int32_t and uint32_t below
-- 2 ^ 32. A string with its length is the list of its bytes.
pub mod Bytes
pub mod Buffer
pub mod Receive
pub mod Testst
pub mod Response
pub mod Memory
use netpro_project.Prelude.{
  ℕ, zero, suc, ◌+◌, ◌-◌, ◌^◌, ◌<◌, List, [], ◌∷◌, ◌++◌, Bool, replicate, ltb, if◌then◌else◌,
}

pub data Protocol : Type 0 where
  fap dcp fctp : Protocol

-- struct fileinfo_sect; `pathlen` and `usernamelen` are the lengths of the two lists.
pub record FileinfoSect : Type 0 where
  pub type : ℕ
  pub path : List ℕ
  pub username : List ℕ
  pub modified : ℕ
  pub size : ℕ
  pub replicas : ℕ

-- struct msg_section: the type tag with the member of the union that goes with it. `nonext` and a
-- tag outside enum section_type have no data that the program reads.
pub data MsgSection : Type 0 where
  integer : ℕ → MsgSection
  string : List ℕ → MsgSection
  binary : List ℕ → MsgSection
  fileinfo : FileinfoSect → MsgSection
  nonext : MsgSection
  unknown : ℕ → MsgSection

-- enum section_type
abbrev pub st_nonext : ℕ
st_nonext = 0

abbrev pub st_integer : ℕ
st_integer = 1

abbrev pub st_string : ℕ
st_string = 2

abbrev pub st_binary : ℕ
st_binary = 3

abbrev pub st_fileinfo : ℕ
st_fileinfo = 4

abbrev pub section_type : MsgSection → ℕ
section_type (integer n) = st_integer
section_type (string s) = st_string
section_type (binary s) = st_binary
section_type (fileinfo f) = st_fileinfo
section_type nonext = st_nonext
section_type (unknown t) = t

-- struct fsmsg; the NULL that ends `sections` is the end of the list. `ids` holds the ids that the
-- protocol uses; the spare element that is allocated behind them is never read.
pub record Fsmsg : Type 0 where
  pub tid : ℕ
  pub ids : List ℕ
  pub msg_type : ℕ
  pub sections : List MsgSection

abbrev pub idcount : Protocol → ℕ
idcount fap = 3
idcount dcp = 2
idcount fctp = 2

-- `heap` is what malloc left in the field `tid`, which the function does not set.
unfoldable pub fsmsg_create : ℕ → Protocol → Fsmsg
fsmsg_create heap protocol = record {
  tid = heap;
  ids = replicate (idcount protocol) 0;
  msg_type = 0;
  sections = [];
}

unfoldable pub fsmsg_add_section : Fsmsg → MsgSection → Fsmsg
fsmsg_add_section msg s = record msg { sections = msg.sections ++ s ∷ [] }

-- The number of rounds of `for (int j = 0; j < count; j++)` for an int32_t: none if it is negative.
abbrev pub rounds : ℕ → ℕ
rounds count = if ltb count (2 ^ 31) then count else 0
