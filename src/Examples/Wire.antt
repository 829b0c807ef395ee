-- ===== src/Examples/Wire.antt =====
-- Frames and credentials at concrete inputs.
use drip_ex.Base.{Bytes, codes, ok, ◌≡◌, refl, [], ◌∷◌, ◌++◌}
use drip_ex.Protocol.Frames.{Frame, write_frame, read_frame}
use drip_ex.Protocol.Frames.Stream.{read-write_frame}
use drip_ex.Auth.Credentials.{Credential, show_credential, is_hex_string}
use drip_ex.Auth.Credentials.Tokens.{IsCredential, parse-show_credential, show-parse_credential}

-- A heartbeat with a payload of two bytes.
abbrev heartbeat : Frame
heartbeat = record { frame_type = 3; payload = 7 ∷ 8 ∷ [] }

abbrev wire : Bytes
wire = 0 ∷ 0 ∷ 0 ∷ 2 ∷ 3 ∷ 7 ∷ 8 ∷ []

heartbeat_written : write_frame heartbeat ≡ ok wire
unfolding write_frame
heartbeat_written = refl

read-write_frame_example : read_frame (wire ++ 9 ∷ []) ≡ ok (heartbeat, 9 ∷ [])
read-write_frame_example = read-write_frame heartbeat wire (9 ∷ []) heartbeat_written

abbrev laptop : Credential
laptop = record { id = codes "00112233aabbccdd"; secret = codes "a_secret" }

laptop-IsCredential : IsCredential laptop
unfolding is_hex_string
laptop-IsCredential = record { size = refl; hex = refl; secret = λ e. cc }

show-parse_credential_example :
    (show_credential laptop ≡ codes "drip_00112233aabbccdd_a_secret") × IsCredential laptop
unfolding show_credential
show-parse_credential_example =
    show-parse_credential (codes "drip_00112233aabbccdd_a_secret") laptop
      (parse-show_credential laptop laptop-IsCredential)
