-- ===== src/Socket/Recvfile/Blocks.antt =====
-- The bytes of a stream, and what one read takes of them.
use netpro_project.Prelude.{
  ℕ, zero, suc, ◌+◌, ◌≤◌, ◌≡◌, refl, sym, ap, ◌∙◌, List, [], ◌∷◌, ◌++◌, length, take, drop,
  length-append, arith,
}
use netpro_project.Socket.{segment, interrupted, failed, Socket, push_back, pending}
use netpro_project.Socket.Recvfile.{
  Block, block, end_of_stream, read_failed, recvbufsize, read_block,
}

-- All the bytes that a stream brings.
abbrev pub bytes_of : Socket → List ℕ
bytes_of [] = []
bytes_of (segment b bs ∷ s) = b ∷ (bs ++ bytes_of s)
bytes_of (interrupted ∷ s) = bytes_of s
bytes_of (failed ∷ s) = bytes_of s

-- No read fails.
abbrev pub NeverFails : Socket → Type 0
NeverFails [] = Unit {0}
NeverFails (segment b bs ∷ s) = NeverFails s
NeverFails (interrupted ∷ s) = NeverFails s
NeverFails (failed ∷ s) = ⊥

bytes_of-push_back : (bs : List ℕ) (s : Socket) → bytes_of (push_back bs s) ≡ bs ++ bytes_of s
bytes_of-push_back [] s = refl
bytes_of-push_back (b ∷ bs) s = refl

NeverFails-push_back : (bs : List ℕ) (s : Socket) → NeverFails s → NeverFails (push_back bs s)
NeverFails-push_back [] s h = h
NeverFails-push_back (b ∷ bs) s h = h

take-drop : (n : ℕ) (bs more : List ℕ) → bs ++ more ≡ take n bs ++ (drop n bs ++ more)
take-drop zero bs more = refl
take-drop (suc n) [] more = refl
take-drop (suc n) (b ∷ bs) more = ap {B = List ℕ} (λ t. b ∷ t) (take-drop n bs more)

-- One read of a stream that does not fail.
pub record Splits (s : Socket) (bs : List ℕ) (s' : Socket) : Type 0 where
  pub bytes : bytes_of s ≡ bs ++ bytes_of s'
  pub goes_on : NeverFails s'
  pub sum : pending s ≡ length bs + pending s'
  pub some_bytes : 1 ≤ length bs

abbrev pub Delivered : Socket → Block → Type 0
Delivered s (block bs s') = Splits s bs s'
Delivered s end_of_stream = bytes_of s ≡ []
Delivered s read_failed = ⊥

pub length-bytes_of : (s : Socket) → length (bytes_of s) ≡ pending s
unfolding pending
length-bytes_of [] = refl
length-bytes_of (segment b bs ∷ s) = omega (arith, length-append bs (bytes_of s), length-bytes_of s)
length-bytes_of (interrupted ∷ s) = length-bytes_of s
length-bytes_of (failed ∷ s) = length-bytes_of s

split-sum :
    (s s' : Socket) (bs : List ℕ)
    → bytes_of s ≡ bs ++ bytes_of s'
    → pending s ≡ length bs + pending s'
split-sum s s' bs h =
    omega
      (arith, ap length h, length-append bs (bytes_of s'), length-bytes_of s, length-bytes_of s')

Splits-segment :
    (b : ℕ) (bs : List ℕ) (s : Socket)
    → NeverFails s
    → Splits (segment b bs ∷ s) (b ∷ take 1023 bs) (push_back (drop 1023 bs) s)
Splits-segment b bs s h =
    let same : bytes_of (segment b bs ∷ s)
        ≡ (b ∷ take 1023 bs) ++ bytes_of (push_back (drop 1023 bs) s) =
      ap {B = List ℕ} (λ t. b ∷ t)
        (take-drop 1023 bs (bytes_of s)
          ∙ ap (λ t. take 1023 bs ++ t) (sym (bytes_of-push_back (drop 1023 bs) s))) in
    record {
      bytes = same;
      goes_on = NeverFails-push_back (drop 1023 bs) s h;
      sum = split-sum _ _ (b ∷ take 1023 bs) same;
      some_bytes = omega arith;
    }

Delivered-interrupted : (s : Socket) (b : Block) → Delivered s b → Delivered (interrupted ∷ s) b
unfolding pending
Delivered-interrupted s (block bs s') h = record {
  bytes = h.bytes;
  goes_on = h.goes_on;
  sum = h.sum;
  some_bytes = h.some_bytes;
}
Delivered-interrupted s end_of_stream h = h
Delivered-interrupted s read_failed h = h

pub read_block-Delivered : (s : Socket) → NeverFails s → Delivered s (read_block recvbufsize s)
unfolding read_block
read_block-Delivered [] h = refl
read_block-Delivered (segment b bs ∷ s) h = Splits-segment b bs s h
read_block-Delivered (interrupted ∷ s) h =
    Delivered-interrupted s (read_block recvbufsize s) (read_block-Delivered s h)
read_block-Delivered (failed ∷ s) h = absurd h
