-- ===== src/Examples/Memory.antt =====
-- The allocations behind a message of src/protomsg.c, for two sections.
use netpro_project.Prelude.{ℕ, ◌≡◌, refl, false, List, [], ◌∷◌, none, some, ◌>>=◌}
use netpro_project.Protomsg.{MsgSection, integer, string}
use netpro_project.Protomsg.Memory.{
  Heap, Allocated, create_blocks, add_all, message_frees, free, malloc, section_blocks, fsmsg_free,
}
use netpro_project.Protomsg.Memory.Frees.{fsmsg_free-add_all}

abbrev pub nothing : Heap
nothing = record { live = λ p. false; next = 0 }

abbrev sections : List MsgSection
sections = integer 1 ∷ string (b'a' ∷ []) ∷ []

-- The struct is 0 and the ids are 1; each realloc takes a new number for the array.
frees_run :
    (add_all sections (create_blocks nothing).blocks (create_blocks nothing).heap >>= λ a.
    some (message_frees a.blocks))
    ≡ some (1 ∷ 4 ∷ 7 ∷ 6 ∷ 5 ∷ 0 ∷ [])
unfolding add_all create_blocks free malloc section_blocks
frees_run = refl

fsmsg_free-add_all_example :
    (a : Allocated) × (h' : Heap) × ((add_all sections
          (create_blocks nothing).blocks
          (create_blocks nothing).heap
        ≡ some a)
      × ((fsmsg_free (some a.blocks) a.heap ≡ some h')
          × (((q : ℕ) → h'.live q ≡ false) × (fsmsg_free (some a.blocks) h' ≡ none))))
fsmsg_free-add_all_example = fsmsg_free-add_all nothing sections (λ q above. refl)
