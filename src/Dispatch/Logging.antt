-- ===== src/Dispatch/Logging.antt =====
-- What `Query` leaves in the structured log.
use dnscore.ServerAddr.{ServerAddr}
use dnscore.Transport.{Transport}
