-- ===== src/Protocol/Frames/Stream.antt =====
-- What is written is read back, frame by frame.
use drip_ex.Base.{
  ltb, if◌then◌else◌, length, take, drop, All, length-append, take-length_append,
  drop-length_append, Bytes, ok, err, ℕ, zero, suc, ◌/◌, ◌%◌, ◌^◌, ◌≤◌, ◌<◌, ◌≡◌, refl, sym, ap,
  subst, ◌∙◌, ◌↔◌, false, [], ◌∷◌, ◌++◌, arith,
}
use drip_ex.Protocol.Frames.{
  Frame, max_frame_size, big_endian, uint32, write_frame, read_payload, read_frame,
  payload_too_large,
}

uint32-big_endian :
    (n : ℕ)
    → n < 2 ^ 32
    → uint32 ((n / 16777216) % 256) ((n / 65536) % 256) ((n / 256) % 256) (n % 256) ≡ n
uint32-big_endian n h = omega arith

read_payload-append :
    (f : Frame) (rest : Bytes)
    → read_payload f.frame_type (length f.payload) (f.payload ++ rest) ≡ ok (f, rest)
read_payload-append f rest =
    let enough : ltb (length (f.payload ++ rest)) (length f.payload) ≡ false =
      ground (arith, length-append f.payload rest) in
    rw (enough, take-length_append f.payload rest, drop-length_append f.payload rest) refl

read_back :
    (f : Frame) (rest : Bytes)
    → length f.payload ≤ 1048576
    → read_frame (big_endian (length f.payload) (f.frame_type ∷ f.payload) ++ rest) ≡ ok (f, rest)
unfolding read_frame
read_back f rest fits =
    let n = length f.payload in
    let small : ltb max_frame_size n ≡ false = ground arith in
    subst
      (λ k.
        (if ltb max_frame_size k
          then err payload_too_large
          else read_payload f.frame_type k (f.payload ++ rest))
        ≡ ok (f, rest))
      (sym (uint32-big_endian n (omega arith))) (rw small (read_payload-append f rest))

-- A frame that is written is read back as it was, whatever follows it on the connection, and what
-- follows is left to be read.
pub read-write_frame :
    (f : Frame) (out rest : Bytes)
    → write_frame f ≡ ok out
    → read_frame (out ++ rest) ≡ ok (f, rest)
unfolding write_frame read_frame
read-write_frame f out rest e =
    let fits : length f.payload ≤ 1048576 = ground arith in
    let sent : big_endian (length f.payload) (f.frame_type ∷ f.payload) ≡ out = ground arith in
    subst (λ t. read_frame (t ++ rest) ≡ ok (f, rest)) sent (read_back f rest fits)

-- A frame is refused by the writer if and only if its payload is over 1 MiB.
pub write_frame_iff :
    (f : Frame) → (write_frame f ≡ err payload_too_large) ↔ (max_frame_size < length f.payload)
unfolding write_frame
write_frame_iff f = (λ e. ground arith, λ h. ground arith)

take-drop : (n : ℕ) (xs : Bytes) → take n xs ++ drop n xs ≡ xs
take-drop zero xs = refl
take-drop (suc n) [] = refl
take-drop (suc n) (x ∷ xs) = ap (◌∷◌ x) (take-drop n xs)

length-take : (n : ℕ) (xs : Bytes) → n ≤ length xs → length (take n xs) ≡ n
length-take zero xs h = refl
length-take (suc n) [] h = omega (arith, h)
length-take (suc n) (x ∷ xs) h = omega (arith, length-take n xs (omega arith))

read_ok :
    (n t : ℕ) (bytes rest : Bytes) (f : Frame)
    → (if ltb max_frame_size n then err payload_too_large else read_payload t n bytes)
      ≡ ok (f, rest)
    → (n ≤ 1048576)
      × (n ≤ length bytes)
      × (record { frame_type = t; payload = take n bytes } ≡ f)
      × (drop n bytes ≡ rest)
read_ok n t bytes rest f e = (ground arith, ground arith, ground arith, ground arith)

written :
    (n t : ℕ) (bytes : Bytes)
    → n ≤ 1048576
    → n ≤ length bytes
    → write_frame (record { frame_type = t; payload = take n bytes })
      ≡ ok (big_endian n (t ∷ take n bytes))
unfolding write_frame
written n t bytes fits enough =
    let small : ltb max_frame_size n ≡ false = ground arith in
    rw (length-take n bytes enough, small) refl

big_endian-uint32 :
    (a b c d : ℕ) (rest : Bytes)
    → a < 256
    → b < 256
    → c < 256
    → d < 256
    → big_endian (uint32 a b c d) rest ≡ a ∷ b ∷ c ∷ d ∷ rest
big_endian-uint32 a b c d rest p q r s =
    let ea : (uint32 a b c d / 16777216) % 256 ≡ a = omega arith in
    let eb : (uint32 a b c d / 65536) % 256 ≡ b = omega arith in
    let ec : (uint32 a b c d / 256) % 256 ≡ c = omega arith in
    let ed : uint32 a b c d % 256 ≡ d = omega arith in rw (ea, eb, ec, ed) refl

-- A frame that is read off a connection, where each element is a byte, is one that the writer
-- turns into the very bytes in front, so that no byte is lost or read twice.
pub write-read_frame :
    (bytes rest : Bytes) (f : Frame)
    → All (λ b. b < 256) bytes
    → read_frame bytes ≡ ok (f, rest)
    → (out : Bytes) × (write_frame f ≡ ok out) × (out ++ rest ≡ bytes)
unfolding read_frame
write-read_frame (a ∷ b ∷ c ∷ d ∷ t ∷ bytes) rest f (ha, (hb, (hc, (hd, hs)))) e =
    let n = uint32 a b c d in
    let (fits, enough, same, left) = read_ok n t bytes rest f e in
    let front = big_endian-uint32 a b c d (t ∷ take n bytes) ha hb hc hd in
    (
      big_endian n (t ∷ take n bytes),
      subst (λ g. write_frame g ≡ ok (big_endian n (t ∷ take n bytes))) same
          (written n t bytes fits enough),
      ap (λ k. k ++ rest) front
          ∙ ap (λ k. a ∷ b ∷ c ∷ d ∷ t ∷ (take n bytes ++ k)) (sym left)
          ∙ ap (λ k. a ∷ b ∷ c ∷ d ∷ t ∷ k) (take-drop n bytes),
    )
write-read_frame (a ∷ b ∷ c ∷ d ∷ []) rest f h e = cc
write-read_frame (a ∷ b ∷ c ∷ []) rest f h e = cc
write-read_frame (a ∷ b ∷ []) rest f h e = cc
write-read_frame (a ∷ []) rest f h e = cc
write-read_frame [] rest f h e = cc
