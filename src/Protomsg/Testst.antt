-- ===== src/Protomsg/Testst.antt =====
-- The macro TESTST of src/protomsg.h and the accessors SECI and SECS.
-- In the validation functions `s` with the index `i` is the list of the sections from `i` on.
pub mod Laws
use netpro_project.Prelude.{
  ℕ, zero, suc, Option, none, some, length, drop, List, [], ◌∷◌, ◌==◌, if◌then◌else◌,
}
use netpro_project.Protomsg.{
  MsgSection, integer, string, binary, fileinfo, nonext, unknown, st_nonext, section_type,
}

-- How a validation ends: it goes on or returns 0, it returns -1, or it follows a NULL pointer.
pub data Check (A : Type 0) : Type 0 where
  pass : A → Check A
  reject : Check A
  crash : Check A

module _ {A B : Type 0} where
  infixl 5 ◌>>=◌
  abbrev pub ◌>>=◌ : Check A → (A → Check B) → Check B
  pass a >>= f = f a
  reject >>= f = reject
  crash >>= f = crash

-- `!((s[i] == NULL && t == ST_NONEXT) || s[i]->type == t)`: at the end of the array the second test
-- reads through NULL, unless the first one has succeeded.
unfoldable pub testst : ℕ → List MsgSection → Check (List MsgSection)
testst t [] = if t == st_nonext then pass [] else crash
testst t (s ∷ rest) = if section_type s == t then pass rest else reject

-- `for (int j = 0; j < count; j++) { TESTST(t); }`: the rounds left, then `t`.
unfoldable pub testst_times : ℕ → ℕ → List MsgSection → Check (List MsgSection)
unfolding testst
testst_times zero t s = pass s
testst_times (suc n) t s = do s' ← testst t s; testst_times n t s'

-- `s[0]->data.integer`, which the program reads only behind TESTST(ST_INTEGER).
abbrev pub data_integer : List MsgSection → ℕ
data_integer (integer n ∷ _) = n
data_integer _ = 0

-- The integer at the place of the first section. Before any validation it may be the length of a string,
-- which lies in its place. There is none behind the end of the array, and that of a file information, its
-- type byte with the padding behind it, is left out, as if it were missing.
abbrev pub first_integer : List MsgSection → Option ℕ
first_integer (integer n ∷ ss) = some n
first_integer (string s ∷ ss) = some (length s)
first_integer (binary s ∷ ss) = some (length s)
first_integer ss = none

-- SECI(msg, i)
abbrev pub seci : List MsgSection → ℕ → Option ℕ
seci ss i = first_integer (drop i ss)
