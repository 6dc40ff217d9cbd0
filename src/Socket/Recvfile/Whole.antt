-- ===== src/Socket/Recvfile/Whole.antt =====
-- What recvfile stores of a stream that does not fail.
use netpro_project.Prelude.{
  ℕ, zero, suc, ◌+◌, ◌-◌, ◌^◌, ◌<◌, ◌≡◌, ◌≢◌, refl, sym, ap, ◌∙◌, List, [], ◌∷◌, ◌++◌, length,
  Bool-cases, inl, inr, ◌==◌, ==_iff, arith,
}
use netpro_project.Socket.{Socket, pending}
use netpro_project.Socket.Recvfile.{
  Block, block, end_of_stream, read_failed, recvbufsize, read_block, Transfer, whole, broken,
  endless, out_of_fuel, written, minus, on_block, receive_blocks, recvfile,
}
use netpro_project.Socket.Recvfile.Blocks.{
  bytes_of, NeverFails, Splits, Delivered, length-bytes_of, read_block-Delivered,
}

-- With as many bytes as are wanted the transfer is whole; with `k` too few it is endless.
abbrev Delivers : ℕ → Socket → Transfer → Type 0
Delivers zero s (whole bs rest) = (bs ≡ bytes_of s) × (pending rest ≡ 0)
Delivers zero s _ = ⊥
Delivers (suc k) s (endless bs) = bs ≡ bytes_of s
Delivers (suc k) s _ = ⊥

written-Delivers :
    (k : ℕ) (s s' : Socket) (bs : List ℕ) (t : Transfer)
    → bytes_of s ≡ bs ++ bytes_of s'
    → Delivers k s' t
    → Delivers k s (written bs t)
written-Delivers zero s s' bs (whole more rest) e (same, none_left) =
    (ap (λ t. bs ++ t) same ∙ sym e, none_left)
written-Delivers zero s s' bs (broken more) e h = absurd h
written-Delivers zero s s' bs (endless more) e h = absurd h
written-Delivers zero s s' bs out_of_fuel e h = absurd h
written-Delivers (suc k) s s' bs (endless more) e same = ap (λ t. bs ++ t) same ∙ sym e
written-Delivers (suc k) s s' bs (whole more rest) e h = absurd h
written-Delivers (suc k) s s' bs (broken more) e h = absurd h
written-Delivers (suc k) s s' bs out_of_fuel e h = absurd h

empty-bytes : (bs : List ℕ) → length bs ≡ 0 → [] ≡ bs
empty-bytes [] h = refl
empty-bytes (b ∷ bs) h = absurd (omega arith)

stop-Delivers : (k : ℕ) (s : Socket) → pending s + k ≡ 0 → Delivers k s (whole [] s)
stop-Delivers zero s h = (empty-bytes (bytes_of s) (omega (arith, length-bytes_of s)), omega arith)
stop-Delivers (suc k) s h = absurd (omega arith)

end-Delivers :
    (k : ℕ) (s : Socket) → bytes_of s ≡ [] → pending s + k ≢ 0 → Delivers k s (endless [])
end-Delivers zero s h some_left = absurd (some_left (omega (arith, length-bytes_of s, ap length h)))
end-Delivers (suc k) s h some_left = sym h

on_block-Delivers :
    (k : ℕ) (s : Socket) (b : Block) (rest : List ℕ → Socket → Transfer)
    → Delivered s b
    → pending s + k ≢ 0
    → ((bs : List ℕ) (s' : Socket) → Splits s bs s' → Delivers k s' (rest bs s'))
    → Delivers k s (on_block b rest)
on_block-Delivers k s (block bs s') rest split some_left go_on =
    written-Delivers k s s' bs (rest bs s') split.bytes (go_on bs s' split)
on_block-Delivers k s end_of_stream rest h some_left go_on = end-Delivers k s h some_left
on_block-Delivers k s read_failed rest h some_left go_on = absurd h

receive_blocks-Delivers :
    (fuel left k : ℕ) (s : Socket)
    → NeverFails s
    → pending s < fuel
    → left ≡ pending s + k
    → left < 2 ^ 32
    → Delivers k s (receive_blocks fuel left s)
unfolding receive_blocks
receive_blocks-Delivers zero left k s h enough e small = absurd (omega arith)
receive_blocks-Delivers (suc fuel) left k s h enough e small = elim (Bool-cases (left == 0)) [
  | inl stopped ↦ rw stopped (stop-Delivers k s (sym e ∙ (==_iff left 0).0 stopped))
  | inr more ↦ rw more (
      on_block-Delivers k s (read_block recvbufsize s) _ (read_block-Delivered s h) (ground arith)
        (λ bs s' split.
          receive_blocks-Delivers fuel (minus left (length bs)) k s' split.goes_on
            (omega (arith, split.sum, split.some_bytes))
            (omega (arith, split.sum, split.some_bytes)) (omega arith)))
]

whole-Delivers :
    (s : Socket) (t : Transfer)
    → Delivers 0 s t
    → (rest : Socket) × ((t ≡ whole (bytes_of s) rest) × (pending rest ≡ 0))
whole-Delivers s (whole bs rest) (same, none_left) =
    (rest, (ap (λ t. whole t rest) same, none_left))
whole-Delivers s (broken bs) h = absurd h
whole-Delivers s (endless bs) h = absurd h
whole-Delivers s out_of_fuel h = absurd h

endless-Delivers :
    (k : ℕ) (s : Socket) (t : Transfer) → Delivers (suc k) s t → t ≡ endless (bytes_of s)
endless-Delivers k s (endless bs) same = ap endless same
endless-Delivers k s (whole bs rest) h = absurd h
endless-Delivers k s (broken bs) h = absurd h
endless-Delivers k s out_of_fuel h = absurd h

-- If the whole of a stream that does not fail is as long as the file, recvfile stores it all and
-- returns, however the stream is cut into segments and interrupted.
pub recvfile-whole :
    (len : ℕ) (s : Socket)
    → NeverFails s
    → pending s ≡ len
    → len < 2 ^ 32
    → (rest : Socket) × ((recvfile len s ≡ whole (bytes_of s) rest) × (pending rest ≡ 0))
unfolding recvfile
recvfile-whole len s h same small =
    whole-Delivers s (receive_blocks (suc (pending s)) len s)
      (receive_blocks-Delivers (suc (pending s)) len 0 s h (omega arith) (omega arith) small)

-- If a stream ends before the file does, recvfile does not return: it stores what there is and then reads
-- for ever.
pub recvfile-endless :
    (len : ℕ) (s : Socket)
    → NeverFails s
    → pending s < len
    → len < 2 ^ 32
    → recvfile len s ≡ endless (bytes_of s)
unfolding recvfile
recvfile-endless len s h short small =
    endless-Delivers (len - suc (pending s)) s (receive_blocks (suc (pending s)) len s) (
      receive_blocks-Delivers (suc (pending s)) len (suc (len - suc (pending s))) s h (omega arith)
        (omega arith) small)
