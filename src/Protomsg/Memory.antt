-- ===== src/Protomsg/Memory.antt =====
-- The allocations behind a message: fsmsg_create, fsmsg_add_section, fsmsg_free and fsmsg_free_section of
-- src/protomsg.c. A pointer is a number; malloc succeeds, with a number that was not used before.
pub mod Frees
use netpro_project.Prelude.{
  ℕ, zero, suc, ◌==◌, ◌+◌, ◌*◌, if◌then◌else◌, Bool, true, false, List, [], ◌∷◌, ◌++◌, length,
  Option, none, some, ◌>>=◌,
}
use netpro_project.Protomsg.{MsgSection, integer, string, binary, fileinfo, nonext, unknown}

-- Which blocks are allocated, and the number that comes next.
pub record Heap : Type 0 where
  pub live : ℕ → Bool
  pub next : ℕ

abbrev pub mark : ℕ → Bool → (ℕ → Bool) → ℕ → Bool
mark p b live q = if q == p then b else live q

-- The new block has the number `next` of the heap before.
unfoldable pub malloc : Heap → Heap
malloc h = record { live = mark h.next true h.live; next = suc h.next }

-- No result for a block that is not allocated: a double free.
unfoldable pub free : ℕ → Heap → Option Heap
free p h = if h.live p then some (record h { live = mark p false h.live }) else none

-- The blocks of a section: its struct, and the copies of its data.
pub data SectionBlocks : Type 0 where
  bare : ℕ → SectionBlocks
  with_data : ℕ → ℕ → SectionBlocks
  with_names : ℕ → ℕ → ℕ → SectionBlocks

pub record Blocks : Type 0 where
  pub msg : ℕ
  pub ids : ℕ
  pub array : ℕ
  pub sections : List SectionBlocks

pub record Allocated : Type 0 where
  pub blocks : Blocks
  pub heap : Heap

unfoldable pub create_blocks : Heap → Allocated
unfolding malloc
create_blocks h =
    let h1 = malloc h in
    let h2 = malloc h1 in
    record {
      blocks = record { msg = h.next; ids = h1.next; array = h2.next; sections = [] };
      heap = malloc h2;
    }

-- The struct and the copies, behind the realloc.
unfoldable pub section_blocks : MsgSection → Heap → SectionBlocks × Heap
unfolding malloc
section_blocks (string s) h = let h1 = malloc h in (with_data h.next h1.next, malloc h1)
section_blocks (binary s) h = let h1 = malloc h in (with_data h.next h1.next, malloc h1)
section_blocks (fileinfo f) h =
    let h1 = malloc h in let h2 = malloc h1 in (with_names h.next h1.next h2.next, malloc h2)
section_blocks _ h = (bare h.next, malloc h)

-- realloc frees the array and returns a new one.
unfoldable pub add_blocks : MsgSection → Blocks → Heap → Option Allocated
unfolding free malloc section_blocks
add_blocks s b h = do
  h1 ← free b.array h
  let added = section_blocks s (malloc h1) in
      some (record {
        blocks = record b { array = h1.next; sections = b.sections ++ added.0 ∷ [] };
        heap = added.1;
      })

unfoldable pub add_all : List MsgSection → Blocks → Heap → Option Allocated
unfolding add_blocks
add_all [] b h = some (record { blocks = b; heap = h })
add_all (s ∷ ss) b h = add_blocks s b h >>= λ a. add_all ss a.blocks a.heap

-- The pointers that fsmsg_free_section frees, in its order.
abbrev pub section_frees : SectionBlocks → List ℕ
section_frees (bare p) = p ∷ []
section_frees (with_data p d) = d ∷ p ∷ []
section_frees (with_names p path username) = path ∷ username ∷ p ∷ []

abbrev pub sections_frees : List SectionBlocks → List ℕ
sections_frees [] = []
sections_frees (s ∷ ss) = section_frees s ++ sections_frees ss

abbrev pub message_frees : Blocks → List ℕ
message_frees b = b.ids ∷ (sections_frees b.sections ++ b.array ∷ b.msg ∷ [])

unfoldable pub free_all : List ℕ → Heap → Option Heap
unfolding free
free_all [] h = some h
free_all (p ∷ ps) h = free p h >>= free_all ps

-- fsmsg_free does nothing to NULL.
unfoldable pub fsmsg_free : Option Blocks → Heap → Option Heap
unfolding free_all
fsmsg_free none h = some h
fsmsg_free (some b) h = free_all (message_frees b) h
