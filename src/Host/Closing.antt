-- ===== src/Host/Closing.antt =====
-- resolver.go: the connections that a lookup of a host's addresses opens.
use dnscore.ServerAddr.{ServerAddr}
use dnscore.Transport.{Transport}
use dnscore.Resolver.{Resolver}
