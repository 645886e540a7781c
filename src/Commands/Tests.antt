-- ===== src/Commands/Tests.antt =====
-- The commands in the sample world.
use dnscore.Prelude.{◌≡◌, ◌⊎◌, refl, ℕ, Bytes, []}
use dnscore.Go.{ok, panic}
use dnscore.Dns.{Msg}
use dnscore.Runtime.{Trace}
use dnscore.Commands.{
  TransportFlags, default_flags, dns_type, edns0_flags, max_length, transport_main, lookup_main,
}
use dnscore.Commands.Reports.{Reported, transport_main_outcome, Listed, lookup_main_outcome}
use dnscore.Host.{aaaa_first}
use dnscore.Samples.{library}
use dnscore.Samples.World.{env, name}

abbrev show : Msg → Bytes
show m = []

abbrev flags : TransportFlags
flags = record default_flags { domain = name }

transport_main_outcome_example :
    (((tr' : Trace) × (transport_main library env show flags [] ≡ (ok tt, tr'))
        × Reported library env show flags [] tr')
      ⊎ ((transport_main library env show flags []).0 ≡ panic)
        × ((tr' : Trace) → ¬ Reported library env show flags [] tr'))
    × (((n : ℕ) × (dns_type flags.qtype ≡ ok n))
        ⊎ (transport_main library env show flags [] ≡ (panic, [])))
transport_main_outcome_example = transport_main_outcome library env show flags []

lookup_main_outcome_example :
    ((tr' : Trace) × (lookup_main library env name aaaa_first [] ≡ (ok tt, tr'))
      × Listed library env name aaaa_first [] tr')
    ⊎ ((lookup_main library env name aaaa_first []).0 ≡ panic)
      × ((tr' : Trace) → ¬ Listed library env name aaaa_first [] tr')
lookup_main_outcome_example = lookup_main_outcome library env name aaaa_first []

-- The flags of the EDNS(0) option for each protocol, and its size.
edns0_of_doh : (edns0_flags "doh" ≡ 3) × (max_length "doh" ≡ 4096)
unfolding edns0_flags max_length
edns0_of_doh = (refl, refl)

edns0_of_udp : (edns0_flags "udp" ≡ 0) × (max_length "udp" ≡ 1232)
unfolding edns0_flags max_length
edns0_of_udp = (refl, refl)
