-- ===== src/Frame.antt =====
-- The frames of DNS over TCP and TLS: `newRawMsgFrame` of dotcp.go and the length that a reader
-- takes from the first two bytes.
pub mod RoundTrip
mod Tests
use dnscore.Prelude.{ℕ, ◌+◌, ◌*◌, ◌/◌, ◌%◌, Bytes, [], ◌∷◌, ◌++◌, length, ltb, if◌then◌else◌}
use dnscore.Errors
use dnscore.Errors.{Error, wrapped, sentinel}
use dnscore.Go.{Result, ok, err, panic}
use dnscore.ServerAddr.{ServerAddr}

abbrev pub max_uint16 : ℕ
max_uint16 = 65535

-- `byte(n >> 8)` and `byte(n)`, then the message.
unfoldable pub frame : Bytes → Bytes
frame raw_msg = (length raw_msg / 256 % 256) ∷ (length raw_msg % 256) ∷ raw_msg

unfoldable pub new_raw_msg_frame : ServerAddr → Bytes → Result Bytes
unfolding frame
new_raw_msg_frame addr raw_msg =
    if ltb max_uint16 (length raw_msg)
    then err (wrapped (sentinel Errors.query_too_large_for_transport) addr.protocol)
    else ok (frame raw_msg)

-- `int(header[0])<<8 | int(header[1])`: the low byte fills the bits that the shift leaves zero.
unfoldable pub frame_length : Bytes → Result ℕ
frame_length (high ∷ low ∷ _) = ok (high * 256 + low)
frame_length _ = panic
