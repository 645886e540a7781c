-- ===== src/Frame/RoundTrip.antt =====
-- A frame gives back the message that it holds.
use dnscore.Prelude.{
  ℕ, ◌+◌, ◌*◌, ◌<◌, ◌≤◌, ◌≡◌, refl, ap, ◌⊎◌, inl, inr, Bytes, List, [], ◌∷◌, ◌++◌, length, arith,
  take, All, ◌%◌, ◌/◌,
}
use native.Mathlib.Decide.{dec_lt}
use dnscore.Errors.{wrapped, sentinel, query_too_large_for_transport}
use dnscore.Go.{ok, err}
use dnscore.ServerAddr.{ServerAddr}
use dnscore.Frame.{max_uint16, frame, new_raw_msg_frame, frame_length}

take-length-append {ℓ} : {A : Type ℓ} (xs ys : List A) → take (length xs) (xs ++ ys) ≡ xs
take-length-append [] ys = refl
take-length-append (x ∷ xs) ys = ap (λ l. x ∷ l) (take-length-append xs ys)

-- What a reader of a stream makes of its bytes: two for the length, and that many for the message.
abbrev pub Reads : Bytes → Bytes → Bytes → Type 0
Reads stream raw_msg rest =
    (header : Bytes) × (n : ℕ) × (stream ≡ header ++ raw_msg ++ rest)
    × (length header ≡ 2)
    × All (λ b. b < 256) header
    × (frame_length header ≡ ok n)
    × (n ≡ length raw_msg)

-- A message of at most 65535 bytes is framed, and a reader of a stream that begins with the frame
-- reads a header of two bytes, the message's length from it, and the message; a longer message
-- gives `ErrQueryTooLargeForTransport` with the protocol.
pub new_raw_msg_frame-Reads :
    (addr : ServerAddr) (raw_msg rest : Bytes)
    → ((length raw_msg ≤ max_uint16)
        × ((frame : Bytes) × (new_raw_msg_frame addr raw_msg ≡ ok frame)
            × Reads (frame ++ rest) raw_msg rest))
      ⊎ ((max_uint16 < length raw_msg)
          × (new_raw_msg_frame addr raw_msg
              ≡ err (wrapped (sentinel query_too_large_for_transport) addr.protocol)))
unfolding new_raw_msg_frame frame_length
new_raw_msg_frame-Reads addr raw_msg rest = elim (dec_lt max_uint16 (length raw_msg)) [
  | yes long ↦ inr (long, ground arith)
  | no short ↦ inl (
    omega arith,
    (
      frame raw_msg,
      ground arith,
      (
        (length raw_msg / 256 % 256) ∷ (length raw_msg % 256) ∷ [],
        length raw_msg / 256 % 256 * 256 + length raw_msg % 256,
        refl,
        refl,
        (omega arith, (omega arith, tt)),
        refl,
        omega arith,
      ),
    ),
  )
]
