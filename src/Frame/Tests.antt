-- ===== src/Frame/Tests.antt =====
-- A small message is framed.
use dnscore.Prelude.{◌≡◌, ◌⊎◌, ◌≤◌, ◌<◌, ◌++◌, Bytes, length, codes}
use dnscore.Errors.{sentinel, wrapped, query_too_large_for_transport}
use dnscore.Go.{ok, err}
use dnscore.ServerAddr.{protocol_tcp}
use dnscore.Frame.{max_uint16, new_raw_msg_frame}
use dnscore.Frame.RoundTrip.{Reads, new_raw_msg_frame-Reads}
use dnscore.Samples.World.{server}

new_raw_msg_frame-Reads_example :
    ((length (codes "query") ≤ max_uint16)
      × ((frame : Bytes) × (new_raw_msg_frame (server protocol_tcp) (codes "query") ≡ ok frame)
          × Reads (frame ++ codes "next") (codes "query") (codes "next")))
    ⊎ ((max_uint16 < length (codes "query"))
        × (new_raw_msg_frame (server protocol_tcp) (codes "query")
            ≡ err (wrapped (sentinel query_too_large_for_transport) protocol_tcp)))
new_raw_msg_frame-Reads_example =
    new_raw_msg_frame-Reads (server protocol_tcp) (codes "query") (codes "next")
