-- ===== src/Prompt/Listing/Shown.antt =====
-- What a user reads in the output of list_dir.
use netpro_project.Prelude.{
  ℕ, zero, suc, ◌+◌, ◌-◌, ◌*◌, ◌^◌, ◌/◌, ◌%◌, ◌<◌, ◌≡◌, ◌≢◌, refl, sym, ap, ◌∙◌, ◌==◌, ltb,
  if◌then◌else◌, append_assoc, append-nil, All, true, false, Bool-cases, inl, inr, List, [], ◌∷◌,
  ◌++◌, some, arith,
}
use netpro_project.Protomsg.{Fsmsg}
use netpro_project.Directory.Tree.{Forest, null, node, Dir, dir_find_node, target, count}
use netpro_project.Directory.Handlers.{Server, sent, read_dir}
use netpro_project.Directory.System.Agree.{strndup-All}
use netpro_project.Fap.Client.{returns, fap_list}
use netpro_project.FileServer.{ClientInfo, answered, list_directory}
use netpro_project.FileServer.Forwards.{received}
use netpro_project.FileServer.Listings.{files_of, names_of, fap_list-read_dir}
use netpro_project.Prompt.{blank}
use netpro_project.Prompt.Listing.{
  decimal, int_digits, print_names, line_break, files_text, list_dir,
}

-- The number that a text of digits stands for.
unfoldable pub number : ℕ → List ℕ → ℕ
number acc [] = acc
number acc (c ∷ cs) = number (acc * 10 + (c - b'0')) cs

number-append :
    (acc : ℕ) (text : List ℕ) (c : ℕ)
    → number acc (text ++ c ∷ []) ≡ number acc text * 10 + (c - b'0')
unfolding number
number-append acc [] c = refl
number-append acc (d ∷ text) c = number-append (acc * 10 + (d - b'0')) text c

number-decimal : (fuel n : ℕ) → n < 10 ^ fuel → number 0 (decimal fuel n) ≡ n
unfolding number decimal
number-decimal zero n small = omega arith
number-decimal (suc fuel) n small = elim (Bool-cases (ltb n 10)) [
  | inl e ↦ rw e (omega arith)
  | inr e ↦
      rw
        (
          e,
          number-append 0 (decimal fuel (n / 10)) (b'0' + n % 10),
          number-decimal fuel (n / 10) (omega arith),
        )
        (omega arith)
]

-- The words of a text in which each ends in a blank.
unfoldable pub words : List ℕ → List ℕ → List (List ℕ)
words word [] = []
words word (c ∷ cs) = if c == blank then word ∷ words [] cs else words (word ++ c ∷ []) cs

words-name :
    (word name rest : List ℕ)
    → All (λ c. c ≢ blank) name
    → words word (name ++ blank ∷ rest) ≡ (word ++ name) ∷ words [] rest
unfolding words
words-name word [] rest _ = ap (λ w. w ∷ words [] rest) (sym (append-nil word))
words-name word (c ∷ name) rest (h, hs) =
    let e : (c == blank) ≡ false = ground (arith, h) in
    rw e (
      words-name (word ++ c ∷ []) name rest hs
      ∙ ap (λ w. w ∷ words [] rest) (append_assoc word (c ∷ []) name))

words-print_names :
    (t : Forest)
    → All (All (λ c. c ≢ 0)) (names_of t)
    → All (All (λ c. c ≢ blank)) (names_of t)
    → words [] (print_names (files_of t)) ≡ names_of t
unfolding words print_names names_of
words-print_names null no_nul no_blank = refl
words-print_names (node x children next) (n, ns) (b, bs) =
    rw
      (
        strndup-All x.name n,
        words-name [] x.name (print_names (files_of next)) b,
        words-print_names next ns bs,
      )
      refl

-- Names that a user can tell apart in a line of them: not empty, without a NUL and without a blank.
abbrev pub Plain : Forest → Type 0
Plain t =
    All (λ n. n ≢ []) (names_of t)
    × (All (All (λ c. c ≢ 0)) (names_of t) × All (All (λ c. c ≢ blank)) (names_of t))

list_dir-names :
    (t : Forest)
    → count t < 2 ^ 31
    → Plain t
    → (names : List ℕ) × (digits : List ℕ) × ((list_dir
            (returns (record { count = count t; files = files_of t }))
          ≡ some (names ++ line_break (count t) ++ digits ++ files_text))
        × ((words [] names ≡ names_of t) × (number 0 digits ≡ count t)))
unfolding list_dir
list_dir-names t small (named, (no_nul, no_blank)) = (
  print_names (files_of t),
  decimal int_digits (count t),
  (
    ground arith,
    (words-print_names t no_nul no_blank, number-decimal int_digits (count t) (omega arith)),
  ),
)

-- `ls` from the tree to the terminal: for a directory that is there, on a free mutex, with fewer than
-- 2 ^ 31 entries whose names are not empty and have no blank and no NUL, the answer of read_dir for one
-- level makes list_directory answer
-- the client, and for that answer list_dir prints the names of the children in the order of the tree,
-- each with a blank behind it, and the number of the children behind the line of them.
pub list_dir-read_dir :
    (heap heap' sid fsid i tid : ℕ) (address path n : List ℕ) (info : ClientInfo) (s : Server)
    (d : Dir)
    → s.dirlock ≡ false
    → dir_find_node path true s.dirroot ≡ some n
    → target n s.dirroot ≡ some d
    → count d.children < 2 ^ 31
    → Plain d.children
    → (dirmsg : Fsmsg) × (msg : Fsmsg) × (names : List ℕ) × (digits : List ℕ) × ((read_dir heap'
            fsid i
            (record { id = sid; lasttid = tid; address = address })
            1
            path
            s
          ≡ sent s dirmsg)
        × ((list_directory heap sid fsid info tid (received dirmsg) ≡ answered msg)
            × ((list_dir (fap_list info.lasttid sid info.id fsid (received msg))
                  ≡ some (names ++ line_break (count d.children) ++ digits ++ files_text))
                × ((words [] names ≡ names_of d.children) × (number 0 digits ≡ count d.children)))))
list_dir-read_dir heap heap' sid fsid i tid address path n info s d free found there small plain =
    let (dirmsg, msg, (asked, (given, listing))) =
      fap_list-read_dir heap heap' sid fsid i tid address path n info s d free found there small
        plain.0 in
    let (names, digits, (output, reading)) = list_dir-names d.children small plain in
    (dirmsg, msg, names, digits, (asked, (given, (ap list_dir listing ∙ output, reading))))
