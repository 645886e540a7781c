-- ===== src/Transport/Closing.antt =====
-- Actions that close a connection as the last thing that they do.
use dnscore.Prelude.{◌≡◌, Bool, true, false, ◌∷◌}
use dnscore.Runtime.{Event, Trace, Conn, closed}
use dnscore.Runtime.Only.{Extends}

-- Every event but the closing of a connection.
abbrev pub closes_nothing : Event → Bool
closes_nothing (closed _) = false
closes_nothing _ = true

-- The action closes this connection in the end, and closes nothing before.
pub record ClosesLast (conn : Conn) (before after : Trace) : Type 0 where
  pub middle : Trace
  pub within : Extends closes_nothing before middle
  pub last : after ≡ closed conn ∷ middle
