-- ===== src/Protomsg/Testst/Laws.antt =====
-- A row of TESTSTs against the list of the types that it names.
use netpro_project.Prelude.{
  ℕ, zero, suc, ◌≡◌, ◌≢◌, ◌↔◌, refl, sym, ◌∙◌, List, [], ◌∷◌, ◌++◌, replicate, All, Bool-cases,
  ◌==◌, ==_iff, inl, inr, arith,
}
use netpro_project.Protomsg.{MsgSection, integer, st_nonext, section_type}
use netpro_project.Protomsg.Testst.{
  Check, pass, reject, crash, ◌>>=◌, testst, testst_times, data_integer,
}

-- The TESTSTs of a message of the types `ts`, the last one for ST_NONEXT.
unfoldable pub run : List ℕ → List MsgSection → Check (List MsgSection)
unfolding testst
run [] s = testst st_nonext s
run (t ∷ ts) s = do s' ← testst t s; run ts s'

-- The sections have the types `ts`, and there the message ends: the array does, or a section ST_NONEXT stands next.
abbrev pub Matches : List ℕ → List MsgSection → Type 0
Matches [] [] = Unit {0}
Matches [] (s ∷ _) = section_type s ≡ st_nonext
Matches (t ∷ ts) [] = ⊥
Matches (t ∷ ts) (s ∷ ss) = (section_type s ≡ t) × Matches ts ss

abbrev pub Passes : Check (List MsgSection) → Type 0
Passes (pass _) = Unit {0}
Passes reject = ⊥
Passes crash = ⊥

pub Passes-run→Matches :
    (ts : List ℕ) (ss : List MsgSection) → All (λ t. t ≢ 0) ts → Passes (run ts ss) → Matches ts ss
unfolding run
Passes-run→Matches [] [] nz h = tt
Passes-run→Matches [] (s ∷ ss) nz h = ground arith
Passes-run→Matches (t ∷ ts) [] (nz, _) h = ground arith
Passes-run→Matches (t ∷ ts) (s ∷ ss) (_, nz) h = elim (Bool-cases (section_type s == t)) [
  | inl e ↦ ((==_iff _ t).0 e, Passes-run→Matches ts ss nz (rw e at h))
  | inr e ↦ absurd (rw e at h)
]

pub Matches→Passes-run : (ts : List ℕ) (ss : List MsgSection) → Matches ts ss → Passes (run ts ss)
unfolding run
Matches→Passes-run [] [] m = tt
Matches→Passes-run [] (s ∷ ss) m = rw ((==_iff (section_type s) 0).1 m) tt
Matches→Passes-run (t ∷ ts) [] m = absurd m
Matches→Passes-run (t ∷ ts) (s ∷ ss) (e, m) =
    rw ((==_iff (section_type s) t).1 e) (Matches→Passes-run ts ss m)

-- A message that stops short of the types `ts`: what would follow is no ST_NONEXT.
pub run-crash :
    (ts : List ℕ) (front : List MsgSection) (s : MsgSection) (more : List MsgSection)
    → All (λ t. t ≢ 0) ts
    → All (λ x. section_type x ≢ st_nonext) (front ++ s ∷ [])
    → Matches ts (front ++ s ∷ more)
    → run ts front ≡ crash
unfolding run
run-crash [] [] s more nz (end, _) m = absurd (end m)
run-crash [] (x ∷ front) s more nz (end, _) m = absurd (end m)
run-crash (t ∷ ts) [] s more (nz, _) end m = ground arith
run-crash (t ∷ ts) (x ∷ front) s more (_, nz) (_, end) (e, m) =
    rw ((==_iff (section_type x) t).1 e) (run-crash ts front s more nz end m)

module _ {A B : Type 0} where
  pub bind_ext : (m : Check A) {f g : A → Check B} → ((a : A) → f a ≡ g a) → (m >>= f) ≡ (m >>= g)
  bind_ext (pass a) h = h a
  bind_ext reject h = refl
  bind_ext crash h = refl

  pub bind_assoc :
      {C : Type 0} (m : Check A) (f : A → Check B) (g : B → Check C)
      → ((m >>= f) >>= g) ≡ (m >>= λ a. f a >>= g)
  bind_assoc (pass a) f g = refl
  bind_assoc reject f g = refl
  bind_assoc crash f g = refl

-- The loop that tests `n` sections is a row of `n` tests.
pub run-replicate :
    (n t : ℕ) (ts : List ℕ) (s : List MsgSection)
    → run (replicate n t ++ ts) s ≡ (testst_times n t s >>= run ts)
unfolding run testst_times
run-replicate zero t ts s = refl
run-replicate (suc n) t ts s =
    bind_ext (testst t s) (run-replicate n t ts)
    ∙ sym (bind_assoc (testst t s) (testst_times n t) (run ts))

pub Passes-reject : (m : Check (List MsgSection)) → ¬ Passes (m >>= λ s. reject)
Passes-reject (pass s) h = h
Passes-reject reject h = h
Passes-reject crash h = h

-- The last test and `return 0`.
abbrev pub finish : Check (List MsgSection) → Check (Unit {0})
finish m = m >>= λ s. testst st_nonext s >>= λ end. pass tt

return_iff : (m : Check (List MsgSection)) → ((m >>= λ end. pass tt) ≡ pass tt) ↔ Passes m
return_iff (pass s) = (λ h. tt, λ h. refl)
return_iff reject = (λ h. cc, λ h. absurd h)
return_iff crash = (λ h. cc, λ h. absurd h)

pub finish_iff :
    (m : Check (List MsgSection)) → (finish m ≡ pass tt) ↔ Passes (m >>= testst st_nonext)
finish_iff (pass s) = return_iff (testst st_nonext s)
finish_iff reject = (λ h. cc, λ h. absurd h)
finish_iff crash = (λ h. cc, λ h. absurd h)

pub finish-crash :
    (m : Check (List MsgSection)) → (m >>= testst st_nonext) ≡ crash → finish m ≡ crash
finish-crash m h = sym (bind_assoc m (testst st_nonext) (λ end. pass tt)) ∙ rw h

-- No section of the list is an ST_NONEXT; so it is in every message that fsmsg_from_socket returns.
abbrev pub NoEnd : List MsgSection → Type 0
NoEnd ss = All (λ s. section_type s ≢ st_nonext) ss

-- The first integer does not depend on what follows it.
pub data_integer-cons :
    (x : MsgSection) (a b : List MsgSection) → data_integer (x ∷ a) ≡ data_integer (x ∷ b)
data_integer-cons (integer n) a b = refl
data_integer-cons _ a b = refl
