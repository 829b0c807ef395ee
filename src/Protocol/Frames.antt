-- ===== src/Protocol/Frames.antt =====
-- internal/shared/protocol/frame.go. The connection is the list of the bytes that are still to be
-- read; a write gives the bytes that go out. Buffers and their pool are left out, as are failures of
-- the writer.
pub mod Stream
use drip_ex.Base.{
  ltb, leb, ◌==◌, if◌then◌else◌, ==_iff, Bool-cases, and-eq-true, Option-cases, is_some, or_default,
  length, get_or, set, take, drop, replicate, all, any, find?, select, All, length-append,
  length-set, get_or-set_self, get_or-set_ne, take-length_append, drop-length_append, Bytes, codes,
  str_eq, str_eq_iff, str_eq_refl, is_empty, is_upper, is_digit, is_space, lower_byte, upper_byte,
  to_lower, to_upper, trim_left, trim_space, strip_prefix, contains_byte, equal_fold, Map, lookup,
  insert, delete, lookup-insert, lookup-delete, Distinct, insert-Distinct, delete-Distinct,
  delete_absent, count, count-insert, count-delete, tally, increment, decrement, tally-increment,
  tally-decrement, decrement-increment, Result, refuse_if, ◌>>=◌, ◌>>◌, >>=-eq-ok, ℤ, pos_part,
  neg_part, ◌≤ℤ◌, ltb_ℤ, ok, err, pos, negsuc, ℕ, zero, suc, ◌+◌, ◌-◌, ◌*◌, ◌/◌, ◌%◌, ◌^◌, ◌≤◌, ◌<◌,
  min, bit_xor, String, ◌≡◌, refl, sym, ap, subst, ◌∙◌, ◌≢◌, ◌↔◌, ◌⊎◌, inl, inr, Bool, true, false,
  not, ◌&&◌, ◌||◌, Option, none, some, List, [], ◌∷◌, ◌++◌, map, arith, ℕ_discrete,
}

abbrev pub frame_header_size : ℕ
frame_header_size = 5

-- 1 MiB.
abbrev pub max_frame_size : ℕ
max_frame_size = 1048576

pub record Frame : Type 0 where
  -- One byte: 1 to 9 are the types that the protocol names.
  pub frame_type : ℕ
  pub payload : Bytes

pub data FrameError : Type 0 where
  payload_too_large short_header short_payload : FrameError

-- `binary.BigEndian.PutUint32`.
abbrev pub big_endian : ℕ → Bytes → Bytes
big_endian n rest = (n / 16777216) % 256 ∷ (n / 65536) % 256 ∷ (n / 256) % 256 ∷ n % 256 ∷ rest

-- `binary.BigEndian.Uint32`.
abbrev pub uint32 : ℕ → ℕ → ℕ → ℕ → ℕ
uint32 a b c d = a * 16777216 + b * 65536 + c * 256 + d

unfoldable pub write_frame : Frame → Result FrameError Bytes
write_frame f =
    let payload_len = length f.payload in
    if ltb max_frame_size payload_len
    then err payload_too_large
    else ok (big_endian payload_len (f.frame_type ∷ f.payload))

-- `io.ReadFull` of a payload.
abbrev pub read_payload : ℕ → ℕ → Bytes → Result FrameError (Frame × Bytes)
read_payload frame_type n bytes =
    if ltb (length bytes) n
    then err short_payload
    else ok (record { frame_type = frame_type; payload = take n bytes }, drop n bytes)

-- A frame, and what is left to be read after it.
unfoldable pub read_frame : Bytes → Result FrameError (Frame × Bytes)
read_frame (a ∷ b ∷ c ∷ d ∷ frame_type ∷ bytes) =
    if ltb max_frame_size (uint32 a b c d)
    then err payload_too_large
    else read_payload frame_type (uint32 a b c d) bytes
read_frame (a ∷ b ∷ c ∷ d ∷ []) = err short_header
read_frame (a ∷ b ∷ c ∷ []) = err short_header
read_frame (a ∷ b ∷ []) = err short_header
read_frame (a ∷ []) = err short_header
read_frame [] = err short_header
