-- ===== src/Transport/Wire.antt =====
-- The part of a history that concerns connections: dialling, the bytes that pass, and closing.
use dnscore.Prelude.{refl, ℕ, ◌+◌, Bool, true, false, [], ◌∷◌, filter, not, ◌==◌, if◌then◌else◌}
use dnscore.Go.{ok}
use dnscore.Runtime.{Event, Trace, Conn, dialed, tls_dialed, wrote, received, closed}
use dnscore.Transport.Logs.{LogsPass}

abbrev pub is_wire : Event → Bool
is_wire (dialed _ _ _) = true
is_wire (tls_dialed _ _ _) = true
is_wire (wrote _ _) = true
is_wire (received _ _) = true
is_wire (closed _) = true
is_wire _ = false

abbrev pub wire : Trace → Trace
wire = filter is_wire

pub logs_off_wire : LogsPass (λ e. not (is_wire e))
logs_off_wire = record { at_clock = λ now. refl; at_log = λ r. refl }

-- How many connections were opened, and closed.
abbrev pub opened : Trace → ℕ
opened [] = 0
opened (dialed _ _ (ok _) ∷ tr) = opened tr + 1
opened (tls_dialed _ _ (ok _) ∷ tr) = opened tr + 1
opened (_ ∷ tr) = opened tr

abbrev pub closings : Trace → ℕ
closings [] = 0
closings (closed _ ∷ tr) = closings tr + 1
closings (_ ∷ tr) = closings tr

-- How often this connection was opened, and closed.
module _ (conn : Conn) where
  abbrev pub openings_of : Trace → ℕ
  openings_of [] = 0
  openings_of (dialed _ _ (ok c) ∷ tr) =
      let earlier = openings_of tr in if c == conn then earlier + 1 else earlier
  openings_of (tls_dialed _ _ (ok c) ∷ tr) =
      let earlier = openings_of tr in if c == conn then earlier + 1 else earlier
  openings_of (_ ∷ tr) = openings_of tr

  abbrev pub closings_of : Trace → ℕ
  closings_of [] = 0
  closings_of (closed c ∷ tr) =
      let earlier = closings_of tr in if c == conn then earlier + 1 else earlier
  closings_of (_ ∷ tr) = closings_of tr
