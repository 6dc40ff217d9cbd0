-- ===== src/Protomsg/Memory/Frees.antt =====
-- fsmsg_free gives back just what a message has been built of.
use netpro_project.Prelude.{
  ℕ, ◌+◌, ◌≤◌, ◌≡◌, refl, ap, ◌∙◌, ◌==◌, ==_iff, if◌then◌else◌, Bool, true, false, Bool-cases, inl,
  inr, List, [], ◌∷◌, ◌++◌, none, some, arith,
}
use netpro_project.Protomsg.{MsgSection, integer, string, binary, fileinfo, nonext, unknown}
use netpro_project.Protomsg.Memory.{
  Heap, mark, malloc, free, SectionBlocks, Blocks, Allocated, create_blocks, section_blocks,
  add_blocks, add_all, section_frees, sections_frees, message_frees, free_all, fsmsg_free,
}

abbrev pub bit : Bool → ℕ
bit true = 1
bit false = 0

abbrev pub one : ℕ → ℕ → ℕ
one q p = if q == p then 1 else 0

abbrev pub count : ℕ → List ℕ → ℕ
count q [] = 0
count q (p ∷ ps) = one q p + count q ps

count-append : (q : ℕ) (ps qs : List ℕ) → count q (ps ++ qs) ≡ count q ps + count q qs
count-append q [] qs = omega arith
count-append q (p ∷ ps) qs = omega (arith, count-append q ps qs)

-- Beside the `rest` just the pointers `ps` are allocated, each once.
pub record Holds (rest : ℕ → Bool) (ps : List ℕ) (h : Heap) : Type 0 where
  pub fresh : (q : ℕ) → h.next ≤ q → h.live q ≡ false
  pub once : (q : ℕ) → bit (h.live q) ≡ bit (rest q) + count q ps

module _ {rest : ℕ → Bool} where
  Holds-count :
      {ps : List ℕ} {h : Heap} (qs : List ℕ)
      → ((q : ℕ) → count q ps ≡ count q qs)
      → Holds rest ps h
      → Holds rest qs h
  Holds-count qs same hold = record {
    fresh = hold.fresh;
    once = λ q. hold.once q ∙ ap (λ n. bit (rest q) + n) (same q);
  }

  malloc-Holds : {ps : List ℕ} {h : Heap} → Holds rest ps h → Holds rest (h.next ∷ ps) (malloc h)
  unfolding malloc
  malloc-Holds {ps} {h} hold = record {
    fresh = λ q above. ground (arith, hold.fresh q);
    once = λ q. ground (arith, hold.once q, hold.fresh q);
  }

  freed-bit :
      {ps : List ℕ} {h : Heap} (p q : ℕ)
      → Holds rest (p ∷ ps) h
      → h.live p ≡ true
      → bit (mark p false h.live q) ≡ bit (rest q) + count q ps
  freed-bit {ps} {h} p q hold live = elim (Bool-cases (q == p)) [
    | inl e ↦
        let known : bit (h.live q) ≡ 1 = ap bit (ap h.live ((==_iff q p).0 e) ∙ live) in
        let sum : bit (h.live q) ≡ bit (rest q) + (1 + count q ps) = rw e at (hold.once q) in
        rw e (omega (arith, known, sum))
    | inr e ↦
        let sum : bit (h.live q) ≡ bit (rest q) + (0 + count q ps) = rw e at (hold.once q) in
        rw e (omega (arith, sum))
  ]

  held-live : {ps : List ℕ} {h : Heap} (p : ℕ) → Holds rest (p ∷ ps) h → h.live p ≡ true
  held-live {ps} {h} p hold = elim (Bool-cases (h.live p)) [
    | inl live ↦ live
    | inr dead ↦
        let sum : bit (h.live p) ≡ bit (rest p) + (1 + count p ps) =
          rw ((==_iff p p).1 refl) at (hold.once p) in
        absurd (omega (arith, sum, ap bit dead))
  ]

  free-Holds :
      {ps : List ℕ} {h : Heap} (p : ℕ)
      → Holds rest (p ∷ ps) h
      → (h' : Heap) × ((free p h ≡ some h') × Holds rest ps h')
  unfolding free
  free-Holds {ps} {h} p hold =
      let live = held-live p hold in
      (
        record h { live = mark p false h.live },
        (
          rw live refl,
          record {
            fresh = λ q above. ground (arith, hold.fresh q);
            once = λ q. freed-bit p q hold live;
          },
        ),
      )

  free_all-Holds :
      (ps : List ℕ) {h : Heap}
      → Holds rest ps h
      → (h' : Heap) × ((free_all ps h ≡ some h') × Holds rest [] h')
  unfolding free_all
  free_all-Holds [] {h} hold = (h, (refl, hold))
  free_all-Holds (p ∷ ps) hold =
      let (h1, (freed, hold1)) = free-Holds p hold in
      let (h2, (all_freed, hold2)) = free_all-Holds ps hold1 in (h2, (rw freed all_freed, hold2))

  create-Holds :
      {h : Heap}
      → Holds rest [] h
      → Holds rest (message_frees (create_blocks h).blocks) (create_blocks h).heap
  unfolding create_blocks malloc
  create-Holds hold =
      Holds-count _ (λ q. omega arith) (malloc-Holds (malloc-Holds (malloc-Holds hold)))

  section-Holds :
      {ps : List ℕ} {h : Heap} (s : MsgSection)
      → Holds rest ps h
      → Holds rest (section_frees (section_blocks s h).0 ++ ps) (section_blocks s h).1
  unfolding section_blocks malloc
  section-Holds (string t) hold = malloc-Holds (malloc-Holds hold)
  section-Holds (binary t) hold = malloc-Holds (malloc-Holds hold)
  section-Holds (fileinfo f) hold =
      Holds-count _ (λ q. omega arith) (malloc-Holds (malloc-Holds (malloc-Holds hold)))
  section-Holds (integer n) hold = malloc-Holds hold
  section-Holds nonext hold = malloc-Holds hold
  section-Holds (unknown t) hold = malloc-Holds hold

sections_frees-append :
    (q : ℕ) (ss : List SectionBlocks) (s : SectionBlocks)
    → count q (sections_frees (ss ++ s ∷ []))
      ≡ count q (sections_frees ss) + count q (section_frees s)
sections_frees-append q [] s = omega (arith, count-append q (section_frees s) [])
sections_frees-append q (x ∷ ss) s = omega (
  arith,
  count-append q (section_frees x) (sections_frees (ss ++ s ∷ [])),
  count-append q (section_frees x) (sections_frees ss),
  sections_frees-append q ss s,
)

message_frees-count :
    (q : ℕ) (b : Blocks)
    → count q (message_frees b)
      ≡ one q b.array + (one q b.ids + (one q b.msg + count q (sections_frees b.sections)))
message_frees-count q b =
    omega (arith, count-append q (sections_frees b.sections) (b.array ∷ b.msg ∷ []))

-- All but the array that realloc replaces.
abbrev others : Blocks → List ℕ
others b = b.ids ∷ b.msg ∷ sections_frees b.sections

module _ {rest : ℕ → Bool} where
  add_blocks-Holds :
      (s : MsgSection) (b : Blocks) {h : Heap}
      → Holds rest (message_frees b) h
      → (a : Allocated) × ((add_blocks s b h ≡ some a) × Holds rest (message_frees a.blocks) a.heap)
  unfolding add_blocks
  add_blocks-Holds s b {h} hold =
      let array_first =
        Holds-count (b.array ∷ others b) (λ q. omega (arith, message_frees-count q b)) hold in
      let (h1, (freed, hold1)) = free-Holds b.array array_first in
      let hold2 = section-Holds s (malloc-Holds hold1) in
      let added = section_blocks s (malloc h1) in
      let b' : Blocks = record b { array = h1.next; sections = b.sections ++ added.0 ∷ [] } in
      (
        record { blocks = b'; heap = added.1 },
        (
          rw freed refl,
          Holds-count (message_frees b')
              (λ q. omega (
                arith,
                message_frees-count q b',
                sections_frees-append q b.sections added.0,
                count-append q (section_frees added.0) (h1.next ∷ others b),
              ))
              hold2,
        ),
      )

  add_all-Holds :
      (ss : List MsgSection) (b : Blocks) {h : Heap}
      → Holds rest (message_frees b) h
      → (a : Allocated) × ((add_all ss b h ≡ some a) × Holds rest (message_frees a.blocks) a.heap)
  unfolding add_all
  add_all-Holds [] b {h} hold = (record { blocks = b; heap = h }, (refl, hold))
  add_all-Holds (s ∷ ss) b hold =
      let (a, (added, hold1)) = add_blocks-Holds s b hold in
      let (a', (all_added, hold2)) = add_all-Holds ss a.blocks hold1 in
      (a', (rw added all_added, hold2))

bit-injective : (a b : Bool) → bit a ≡ bit b + 0 → a ≡ b
bit-injective true true h = refl
bit-injective false false h = refl
bit-injective true false h = absurd (omega (arith, h))
bit-injective false true h = absurd (omega (arith, h))

freed-dead :
    {rest : ℕ → Bool} {ps : List ℕ} {h : Heap} (p : ℕ) → Holds rest (p ∷ ps) h → rest p ≡ false
freed-dead {rest} {ps} {h} p hold =
    let sum : bit (h.live p) ≡ bit (rest p) + (1 + count p ps) =
      rw ((==_iff p p).1 refl) at (hold.once p) in
    let live : bit (h.live p) ≡ 1 = ap bit (held-live p hold) in
    bit-injective (rest p) false (omega (arith, sum, live))

-- A message that fsmsg_create and any calls of fsmsg_add_section have built is freed by fsmsg_free: no
-- block is freed twice, and afterwards just those blocks are allocated that were before fsmsg_create,
-- so none is left. A second fsmsg_free of it is a double free.
pub fsmsg_free-add_all :
    (h : Heap) (ss : List MsgSection)
    → ((q : ℕ) → h.next ≤ q → h.live q ≡ false)
    → (a : Allocated) × (h' : Heap) × ((add_all ss (create_blocks h).blocks (create_blocks h).heap
          ≡ some a)
        × ((fsmsg_free (some a.blocks) a.heap ≡ some h')
            × (((q : ℕ) → h'.live q ≡ h.live q) × (fsmsg_free (some a.blocks) h' ≡ none))))
unfolding fsmsg_free free_all free
fsmsg_free-add_all h ss fresh =
    let empty : Holds h.live [] h = record { fresh = fresh; once = λ q. omega arith } in
    let (a, (added, hold)) = add_all-Holds ss (create_blocks h).blocks (create-Holds empty) in
    let (h', (freed, hold')) = free_all-Holds (message_frees a.blocks) hold in
    let back : (q : ℕ) → h'.live q ≡ h.live q =
      λ q. bit-injective (h'.live q) (h.live q) (hold'.once q) in
    (a, h', (added, (freed, (back, rw (back a.blocks.ids ∙ freed-dead a.blocks.ids hold) refl))))
