-- ===== src/Transport/Pipe.antt =====
-- A connection as two streams of bytes: what was written to it, and how much was read from it.
use dnscore.Prelude.{
  ◌≡◌, refl, sym, ap, ◌∙◌, ==_iff, ℕ, ◌+◌, ◌/◌, ◌%◌, ◌≤◌, Bytes, Bool, true, false, [], ◌∷◌, ◌++◌,
  All, length, ◌==◌, if◌then◌else◌, arith, append-nil,
}
use dnscore.Go.{ok}
use dnscore.Runtime.{Env, Event, Trace, Conn, wrote, received}
use dnscore.Transport.Wire.{wire}
use dnscore.Transport.Logs.{LogsPass}
use dnscore.Frame.{max_uint16, frame, frame_length}

abbrev pub sent_bytes : Conn → Trace → Bytes
sent_bytes conn [] = []
sent_bytes conn (wrote c bytes ∷ tr) =
    let earlier = sent_bytes conn tr in if c == conn then earlier ++ bytes else earlier
sent_bytes conn (_ ∷ tr) = sent_bytes conn tr

abbrev pub received_count : Conn → Trace → ℕ
received_count conn [] = 0
received_count conn (received c (ok bytes) ∷ tr) =
    let earlier = received_count conn tr in if c == conn then earlier + length bytes else earlier
received_count conn (_ ∷ tr) = received_count conn tr

-- `io.ReadFull` gives the next bytes of this stream, where it still has that many.
pub record ReadsFrom (E : Env) (conn : Conn) (stream : Bytes) : Type 0 where
  pub reads :
      (tr : Trace) (before part rest : Bytes)
      → stream ≡ before ++ part ++ rest
      → received_count conn tr ≡ length before
      → E.read_full tr conn (length part) ≡ ok part

module _ (conn : Conn) where
  pub sent_bytes-wire : (tr : Trace) → sent_bytes conn (wire tr) ≡ sent_bytes conn tr
  sent_bytes-wire [] = refl
  sent_bytes-wire (wrote c bytes ∷ tr) =
      ap (λ b. if c == conn then b ++ bytes else b) (sent_bytes-wire tr)
  sent_bytes-wire (_ ∷ tr) = sent_bytes-wire tr

  pub received_count-wire : (tr : Trace) → received_count conn (wire tr) ≡ received_count conn tr
  received_count-wire [] = refl
  received_count-wire (received c (ok bytes) ∷ tr) =
      ap (λ k. if c == conn then k + length bytes else k) (received_count-wire tr)
  received_count-wire (_ ∷ tr) = received_count-wire tr

-- One writing, and no other passing of bytes.
pub counts-wrote :
    (conn : Conn) (bytes : Bytes) (tr mid : Trace)
    → wire mid ≡ wrote conn bytes ∷ wire tr
    → (sent_bytes conn mid ≡ sent_bytes conn tr ++ bytes)
      × (received_count conn mid ≡ received_count conn tr)
counts-wrote conn bytes tr mid h = (
  sym (sent_bytes-wire conn mid)
      ∙ ap (sent_bytes conn) h
      ∙ rw ((==_iff conn conn).1 refl) (ap (λ b. b ++ bytes) (sent_bytes-wire conn tr)),
  sym (received_count-wire conn mid) ∙ ap (received_count conn) h ∙ received_count-wire conn tr,
)

-- Every event but a writing.
abbrev pub writes_nothing : Event → Bool
writes_nothing (wrote _ _) = false
writes_nothing _ = true

pub logs_write_nothing : LogsPass writes_nothing
logs_write_nothing = record { at_clock = λ now. refl; at_log = λ r. refl }

pub sent_bytes-keeps :
    (conn : Conn) (es tr : Trace)
    → All (λ e. writes_nothing e ≡ true) es
    → sent_bytes conn (es ++ tr) ≡ sent_bytes conn tr
sent_bytes-keeps conn [] tr h = refl
sent_bytes-keeps conn (wrote _ _ ∷ es) tr h = absurd (cc h.0)
sent_bytes-keeps conn (_ ∷ es) tr h = sent_bytes-keeps conn es tr h.1

-- Where nothing has been read of a stream that is one frame, a reader gets its header, then the
-- message.
pub ReadsFrom-frame :
    (E : Env) (conn : Conn) (raw : Bytes) (tr : Trace)
    → ReadsFrom E conn (frame raw)
    → length raw ≤ max_uint16
    → received_count conn tr ≡ 0
    → (header : Bytes) × (E.read_full tr conn 2 ≡ ok header)
      × (frame_length header ≡ ok (length raw))
      × (E.read_full (received conn (ok header) ∷ tr) conn (length raw) ≡ ok raw)
unfolding frame frame_length
ReadsFrom-frame E conn raw tr pipe fits fresh =
    let header : Bytes = (length raw / 256 % 256) ∷ (length raw % 256) ∷ [] in
    (
      header,
      pipe.reads tr [] header raw refl fresh,
      ap ok (omega arith),
      pipe.reads (received conn (ok header) ∷ tr) header raw []
          (ap (λ l. (length raw / 256 % 256) ∷ (length raw % 256) ∷ l) (sym (append-nil raw)))
          (ground (arith, fresh)),
    )
