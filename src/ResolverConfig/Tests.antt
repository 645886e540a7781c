-- ===== src/ResolverConfig/Tests.antt =====
-- Configurations with servers of several protocols.
use dnscore.ResolverConfig.Mutex.Progress.{IsReturned, CanStep}
use dnscore.Prelude.{◌≡◌, refl, true, List, [], ◌∷◌, map, ◌⊎◌, ◌+◌, All}
use mathlib.Core.List.{Perm}
use dnscore.Prelude.Int.{pos}
use dnscore.Go.{ok}
use dnscore.Dns.{Msg}
use dnscore.ServerAddr.{protocol_udp, protocol_dot, protocol_doh}
use dnscore.Query.{apply_options}
use dnscore.ResolverConfig.{
  ResolverConfig, new_resolver_config_server, new_config, servers, default_query_options,
}
use dnscore.ResolverConfig.Servers.{
  Choice, query_options, query_timeout, to_addition, chosen, add_servers, servers-chosen,
}
use dnscore.ResolverConfig.Defaults.{HasDefaults, default_query_options-HasDefaults}
use dnscore.ResolverConfig.Mutex.{
  Call, Answer, Worker, System, Run, begin, go, step, lock, read_list, assign_list, unlock,
  assign_attempts, calling, unlocking, returned, sets_attempts, adds_server, nothing, starting,
  taken_effect, IsSequential,
}
use dnscore.ResolverConfig.Mutex.Consistency.{IsConsistent}
use dnscore.ResolverConfig.Mutex.Atomic.{Run-IsAtomic, run_length, Run-progress}
use dnscore.Samples.{library, library-IsLawful}
use dnscore.Samples.World.{query, server}

abbrev over_dot : Choice
over_dot = record { address = server protocol_dot; options = [] }

abbrev over_udp : Choice
over_udp = record {
  address = server protocol_udp;
  options = query_timeout (pos 1) ∷ query_options [] ∷ query_timeout (pos 2) ∷ [];
}

servers-chosen_example :
    servers library (add_servers library new_config (map to_addition (over_dot ∷ over_udp ∷ [])))
    ≡ map (chosen library) (over_dot ∷ over_udp ∷ [])
servers-chosen_example = servers-chosen library over_dot (over_udp ∷ [])

default_query_options-HasDefaults_example :
    (q' : Msg) × (apply_options (default_query_options library (server protocol_doh)) query ≡ ok q')
    × HasDefaults library (server protocol_doh) query q'
default_query_options-HasDefaults_example =
    default_query_options-HasDefaults library (server protocol_doh) query library-IsLawful refl

-- Two goroutines: one adds a server, then the other sets the attempts.
abbrev calls : List Call
calls = sets_attempts (pos 5) ∷ adds_server (server protocol_dot) [] ∷ []

abbrev log : List (Call × Answer)
log = (sets_attempts (pos 5), nothing) ∷ (adds_server (server protocol_dot) [], nothing) ∷ []

abbrev final : ResolverConfig
final = record {
  attempts = pos 5;
  list = new_resolver_config_server library (server protocol_dot) [] ∷ [];
}

-- The first has set the attempts and has not unlocked.
abbrev reached : System
reached = record {
  shared = record { config = final; readers = 0; writing = true };
  workers =
      unlocking (sets_attempts (pos 5)) nothing
      ∷ returned (adds_server (server protocol_dot) []) nothing
      ∷ [];
}

abbrev setter : Worker → List Worker
setter w = w ∷ []

interleaved : Run library (starting new_config calls) log reached
interleaved =
    go
      (go
        (go
          (go
            (go
              (go begin (
                step (setter (calling (sets_attempts (pos 5)))) []
                  (lock (adds_server (server protocol_dot) []) refl refl refl)))
              (step (setter (calling (sets_attempts (pos 5)))) []
                (read_list (server protocol_dot) [])))
            (step (setter (calling (sets_attempts (pos 5)))) []
              (assign_list (server protocol_dot) [] [])))
          (step (setter (calling (sets_attempts (pos 5)))) []
            (unlock (adds_server (server protocol_dot) []) nothing refl)))
        (step [] (setter (returned (adds_server (server protocol_dot) []) nothing))
          (lock (sets_attempts (pos 5)) refl refl refl)))
      (step [] (setter (returned (adds_server (server protocol_dot) []) nothing))
        (assign_attempts (pos 5)))

Run-IsAtomic_example :
    IsSequential library new_config log final
    × Perm log (taken_effect reached.workers)
    × IsConsistent reached
Run-IsAtomic_example = Run-IsAtomic library new_config calls interleaved

-- One step is left: the first goroutine unlocks.
Run-progress_example :
    (1 + run_length library interleaved ≡ 7)
    × (All IsReturned reached.workers ⊎ CanStep library reached)
Run-progress_example = Run-progress library new_config calls interleaved
