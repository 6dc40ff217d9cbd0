-- ===== src/Config.antt =====
-- The reading of the configuration file: readline and the loop of read_config in src/util.c.
-- The file is the list of its bytes that are still to be read; a failing read ends the process.
pub mod Lines
pub mod Params
use netpro_project.Prelude.{ℕ, zero, suc, ◌+◌, ◌==◌, if◌then◌else◌, List, [], ◌∷◌, ◌++◌, length}

abbrev pub newline : ℕ
newline = 0x0a

-- The returned number, the bytes that the buffer has got, and the rest of the file.
pub record Line : Type 0 where
  pub ret : ℕ
  pub buffer : List ℕ
  pub rest : List ℕ

-- `while (i<maxline)`: the rounds left, then the `i` bytes so far. At the end of the file `i` counts
-- the byte that could not be read.
unfoldable pub read_loop : ℕ → List ℕ → List ℕ → Line
read_loop zero buffer file = record { ret = 0; buffer = buffer; rest = file }
read_loop (suc n) [] [] = record { ret = 0; buffer = []; rest = [] }
read_loop (suc n) (b ∷ buffer) [] = record {
  ret = length (b ∷ buffer) + 1;
  buffer = (b ∷ buffer) ++ newline ∷ [];
  rest = [];
}
read_loop (suc n) buffer (c ∷ file) =
    let more = read_loop n (buffer ++ c ∷ []) file in
    if c == newline
    then record { ret = length buffer + 1; buffer = buffer ++ c ∷ []; rest = file }
    else more

unfoldable pub readline : ℕ → List ℕ → Line
unfolding read_loop
readline maxline file = read_loop maxline [] file

-- `while ((len = readline(linebuffer, fp, MAX_LINE)))`, on fuel: the lines that the loop sees.
unfoldable pub config_lines : ℕ → ℕ → List ℕ → List (List ℕ)
unfolding readline
config_lines zero maxline file = []
config_lines (suc fuel) maxline file =
    let line = readline maxline file in
    let more = config_lines fuel maxline line.rest in
    if line.ret == 0 then [] else line.buffer ∷ more
