-- ===== src/Examples/ConfigFile.antt =====
-- The reading of the configuration file at a short file and a buffer of 4 bytes.
use netpro_project.Prelude.{ℕ, ◌≡◌, refl, List, [], ◌∷◌, ◌++◌, arith}
use netpro_project.Config.{newline, readline, config_lines}
use netpro_project.Config.Lines.{line_of, Fits, config_lines-long}

abbrev ab : List ℕ
ab = b'a' ∷ b'b' ∷ []

Fits-ab : Fits 4 ab
Fits-ab = record { is_line = omega arith; short = omega arith }

readline_run : readline 4 (b'a' ∷ b'b' ∷ newline ∷ b'c' ∷ []) ≡ line_of (b'c' ∷ []) ab
unfolding readline
readline_run = refl

config_lines-long_example :
    config_lines 9 4 (b'a' ∷ b'b' ∷ newline ∷ (ab ++ ab) ++ newline ∷ ab)
    ≡ (b'a' ∷ b'b' ∷ newline ∷ []) ∷ []
config_lines-long_example =
    config_lines-long 9 4 (ab ∷ []) (ab ++ ab) (newline ∷ ab) (Fits-ab, tt) (omega arith) refl
      (omega arith)
