-- ===== src/Config/Lines.antt =====
-- What readline returns, and which lines the loop of read_config sees.
use netpro_project.Prelude.{
  ℕ, zero, suc, ◌+◌, ◌<◌, ◌≡◌, ◌≢◌, refl, sym, ap, ◌∙◌, ◌==◌, List, [], ◌∷◌, ◌++◌, length,
  append_assoc, append-nil, All, false, arith,
}
use netpro_project.Config.{newline, Line, read_loop, readline, config_lines}

-- The bytes of a line, without its end.
abbrev pub IsLine : List ℕ → Type 0
IsLine line = All (λ c. c ≢ newline) line

-- The result for a whole line.
abbrev pub line_of : List ℕ → List ℕ → Line
line_of rest line = record { ret = length line + 1; buffer = line ++ newline ∷ []; rest = rest }

read_loop_line :
    (n : ℕ) (buffer line rest : List ℕ)
    → IsLine line
    → length line < n
    → read_loop n buffer (line ++ newline ∷ rest) ≡ record {
      ret = length (buffer ++ line) + 1;
      buffer = (buffer ++ line) ++ newline ∷ [];
      rest = rest;
    }
unfolding read_loop
read_loop_line zero buffer line rest h small = absurd (omega arith)
read_loop_line (suc n) buffer [] rest h small = ap (line_of rest) (sym (append-nil buffer))
read_loop_line (suc n) buffer (c ∷ line) rest (h, hs) small =
    let e : (c == newline) ≡ false = ground arith in
    rw e (
      read_loop_line n (buffer ++ c ∷ []) line rest hs (omega arith)
      ∙ ap (line_of rest) (append_assoc buffer (c ∷ []) line))

read_loop_end :
    (n b : ℕ) (buffer line : List ℕ)
    → IsLine line
    → length line < n
    → read_loop n (b ∷ buffer) line ≡ line_of [] (b ∷ (buffer ++ line))
unfolding read_loop
read_loop_end zero b buffer line h small = absurd (omega arith)
read_loop_end (suc n) b buffer [] h small = ap (λ t. line_of [] (b ∷ t)) (sym (append-nil buffer))
read_loop_end (suc n) b buffer (c ∷ line) (h, hs) small =
    let e : (c == newline) ≡ false = ground arith in
    rw e (
      read_loop_end n b (buffer ++ c ∷ []) line hs (omega arith)
      ∙ ap (λ t. line_of [] (b ∷ t)) (append_assoc buffer (c ∷ []) line))

read_loop_long :
    (n : ℕ) (buffer line rest : List ℕ)
    → IsLine line
    → length line ≡ n
    → (read_loop n buffer (line ++ rest)).ret ≡ 0
unfolding read_loop
read_loop_long zero buffer line rest h size = refl
read_loop_long (suc n) buffer [] rest h size = absurd (omega arith)
read_loop_long (suc n) buffer (c ∷ line) rest (h, hs) size =
    let e : (c == newline) ≡ false = ground arith in
    rw e (read_loop_long n (buffer ++ c ∷ []) line rest hs (omega arith))

-- The file that holds these lines, each with its newline.
abbrev pub file_of : List (List ℕ) → List ℕ → List ℕ
file_of [] last = last
file_of (line ∷ lines) last = line ++ newline ∷ file_of lines last

abbrev pub ended : List (List ℕ) → List (List ℕ) → List (List ℕ)
ended [] last = last
ended (line ∷ lines) last = (line ++ newline ∷ []) ∷ ended lines last

-- A line that the buffer holds with its newline.
pub record Fits (maxline : ℕ) (line : List ℕ) : Type 0 where
  pub is_line : IsLine line
  pub short : length line < maxline

config_lines_step :
    (fuel maxline : ℕ) (line rest : List ℕ)
    → Fits maxline line
    → config_lines (suc fuel) maxline (line ++ newline ∷ rest)
      ≡ (line ++ newline ∷ []) ∷ config_lines fuel maxline rest
unfolding config_lines readline
config_lines_step fuel maxline line rest h =
    let e : (length line + 1 == 0) ≡ false = ground arith in
    rw (read_loop_line maxline [] line rest h.is_line h.short, e) refl

readline_last :
    (maxline b : ℕ) (line : List ℕ)
    → Fits maxline (b ∷ line)
    → readline maxline (b ∷ line) ≡ line_of [] (b ∷ line)
unfolding readline read_loop
readline_last zero b line h = absurd (omega (arith, h.short))
readline_last (suc n) b line h =
    let (not_newline, is_line) = h.is_line in
    let e : (b == newline) ≡ false = ground arith in
    let short = h.short in rw e (read_loop_end n b [] line is_line (omega arith))

readline_empty : (maxline : ℕ) → (readline maxline []).ret ≡ 0
unfolding readline read_loop
readline_empty zero = refl
readline_empty (suc n) = refl

config_lines_empty : (fuel maxline : ℕ) → config_lines fuel maxline [] ≡ []
unfolding config_lines
config_lines_empty zero maxline = refl
config_lines_empty (suc fuel) maxline = rw (readline_empty maxline) refl

-- What the loop makes of the bytes behind the last newline.
abbrev pub end_of : List ℕ → List (List ℕ)
end_of [] = []
end_of (b ∷ line) = (b ∷ (line ++ newline ∷ [])) ∷ []

config_lines_last :
    (fuel maxline : ℕ) (last : List ℕ)
    → Fits maxline last
    → config_lines (suc fuel) maxline last ≡ end_of last
unfolding config_lines
config_lines_last fuel maxline [] h = config_lines_empty (suc fuel) maxline
config_lines_last fuel maxline (b ∷ line) h =
    let e : (length (b ∷ line) + 1 == 0) ≡ false = ground arith in
    rw (readline_last maxline b line h, e, config_lines_empty fuel maxline) refl

-- The loop of read_config sees the lines of the file, each with a newline, also a last one that has none
-- in the file, if none has maxline bytes or more without it; as many rounds as there are lines, and one
-- more, are enough.
pub config_lines-file_of :
    (fuel maxline : ℕ) (lines : List (List ℕ)) (last : List ℕ)
    → All (Fits maxline) lines
    → Fits maxline last
    → length lines < fuel
    → config_lines fuel maxline (file_of lines last) ≡ ended lines (end_of last)
config_lines-file_of zero maxline lines last h end enough = absurd (omega arith)
config_lines-file_of (suc fuel) maxline [] last h end enough =
    config_lines_last fuel maxline last end
config_lines-file_of (suc fuel) maxline (line ∷ lines) last (h, hs) end enough =
    config_lines_step fuel maxline line _ h
    ∙ ap {B = List (List ℕ)} (λ t. (line ++ newline ∷ []) ∷ t)
        (config_lines-file_of fuel maxline lines last hs end (omega arith))

-- The loop of read_config ends at a line that has maxline bytes and no newline among them: it sees the lines
-- in front of it, and nothing of what stands behind.
pub config_lines-long :
    (fuel maxline : ℕ) (lines : List (List ℕ)) (long rest : List ℕ)
    → All (Fits maxline) lines
    → IsLine long
    → length long ≡ maxline
    → length lines < fuel
    → config_lines fuel maxline (file_of lines (long ++ rest)) ≡ ended lines []
unfolding config_lines readline
config_lines-long zero maxline lines long rest h is_line size enough = absurd (omega arith)
config_lines-long (suc fuel) maxline [] long rest h is_line size enough =
    rw (read_loop_long maxline [] long rest is_line size) refl
config_lines-long (suc fuel) maxline (line ∷ lines) long rest (h, hs) is_line size enough =
    config_lines_step fuel maxline line _ h
    ∙ ap {B = List (List ℕ)} (λ t. (line ++ newline ∷ []) ∷ t)
        (config_lines-long fuel maxline lines long rest hs is_line size (omega arith))
