-- ===== src/ResolverConfig/Mutex.antt =====
-- resolverconfig.go: the methods of one configuration, called by any number of goroutines. A step is
-- one access to the mutex or to a field; `sync.RWMutex` lets a writer in alone, and readers in
-- together.
pub mod Counts
pub mod Consistency
pub mod Effects
pub mod Progress
pub mod Atomic
use dnscore.Prelude.{
  ◌≡◌, ℕ, ◌+◌, ◌-◌, Bool, true, false, Option, none, some, List, [], ◌∷◌, ◌++◌, map,
}
use dnscore.Prelude.Int.{ℤ}
use dnscore.Dns.{Library}
use dnscore.ServerAddr.{ServerAddr}
use dnscore.ResolverConfig.{
  ResolverConfig, ResolverConfigServer, AddServerOption, set_attempts, add_server,
  new_resolver_config_server, servers,
}

-- A call of one of the four methods.
pub data Call : Type 0 where
  sets_attempts : ℤ → Call
  adds_server : ServerAddr → List AddServerOption → Call
  reads_attempts : Call
  reads_servers : Call

pub data Answer : Type 0 where
  nothing : Answer
  attempts_are : ℤ → Answer
  servers_are : List ResolverConfigServer → Answer

-- `Lock` is for the two that write, `RLock` for the two that read.
abbrev pub is_write : Call → Bool
is_write (sets_attempts _) = true
is_write (adds_server _ _) = true
is_write reads_attempts = false
is_write reads_servers = false

-- Where a goroutine is in its call. `append` has read the list before it is assigned.
pub data Worker : Type 0 where
  calling : Call → Worker
  inside : Call → Worker
  appending : ServerAddr → List AddServerOption → List ResolverConfigServer → Worker
  unlocking : Call → Answer → Worker
  returned : Call → Answer → Worker

-- The struct with its mutex.
pub record Shared : Type 0 where
  pub config : ResolverConfig
  pub readers : ℕ
  pub writing : Bool

pub record System : Type 0 where
  pub shared : Shared
  pub workers : List Worker

module _ (L : Library) where
  -- One step of a goroutine. It is labelled where it takes effect, with the call and its answer.
  pub data Act : Shared → Worker → Option (Call × Answer) → Shared → Worker → Type 0 where
    lock :
        {s : Shared} (c : Call)
        → is_write c ≡ true
        → s.writing ≡ false
        → s.readers ≡ 0
        → Act s (calling c) none (record s { writing = true }) (inside c)
    rlock :
        {s : Shared} (c : Call)
        → is_write c ≡ false
        → s.writing ≡ false
        → Act s (calling c) none (record s { readers = s.readers + 1 }) (inside c)
    assign_attempts :
        {s : Shared} (n : ℤ)
        → Act s
            (inside (sets_attempts n))
            (some (sets_attempts n, nothing))
            (record s { config = set_attempts s.config n })
            (unlocking (sets_attempts n) nothing)
    read_list :
        {s : Shared} (a : ServerAddr) (os : List AddServerOption)
        → Act s (inside (adds_server a os)) none s (appending a os s.config.list)
    assign_list :
        {s : Shared} (a : ServerAddr) (os : List AddServerOption) (list : List ResolverConfigServer)
        → Act s
            (appending a os list)
            (some (adds_server a os, nothing))
            (record s {
              config = record (s.config) { list = list ++ new_resolver_config_server L a os ∷ [] };
            })
            (unlocking (adds_server a os) nothing)
    read_attempts :
        {s : Shared}
        → Act s
            (inside reads_attempts)
            (some (reads_attempts, attempts_are s.config.attempts))
            s
            (unlocking reads_attempts (attempts_are s.config.attempts))
    -- The default servers are made from the copy later, which no other goroutine can tell.
    copy_list :
        {s : Shared}
        → Act s
            (inside reads_servers)
            (some (reads_servers, servers_are (servers L s.config)))
            s
            (unlocking reads_servers (servers_are (servers L s.config)))
    unlock :
        {s : Shared} (c : Call) (r : Answer)
        → is_write c ≡ true
        → Act s (unlocking c r) none (record s { writing = false }) (returned c r)
    runlock :
        {s : Shared} (c : Call) (r : Answer)
        → is_write c ≡ false
        → Act s (unlocking c r) none (record s { readers = s.readers - 1 }) (returned c r)

  -- A step of one of the goroutines.
  pub data Step : System → Option (Call × Answer) → System → Type 0 where
    step :
        (before after : List Worker) {s s' : Shared} {w w' : Worker}
        {label : Option (Call × Answer)}
        → Act s w label s' w'
        → Step
            (record { shared = s; workers = before ++ w ∷ after })
            label
            (record { shared = s'; workers = before ++ w' ∷ after })

  abbrev pub log_label : Option (Call × Answer) → List (Call × Answer) → List (Call × Answer)
  log_label none log = log
  log_label (some x) log = x ∷ log

  -- A run from that system, with the calls in the order in which they took effect, the last first.
  pub data Run (start : System) : List (Call × Answer) → System → Type 0 where
    begin : Run start [] start
    go :
        {log : List (Call × Answer)} {s t : System} {label : Option (Call × Answer)}
        → Run start log s
        → Step s label t
        → Run start (log_label label log) t

  -- What a call does and returns where it is alone.
  abbrev pub perform : Call → ResolverConfig → ResolverConfig × Answer
  perform (sets_attempts n) c = (set_attempts c n, nothing)
  perform (adds_server a os) c = (add_server L c a os, nothing)
  perform reads_attempts c = (c, attempts_are c.attempts)
  perform reads_servers c = (c, servers_are (servers L c))

  -- These calls one after the other, the last first, give these answers and this configuration.
  abbrev pub IsSequential : ResolverConfig → List (Call × Answer) → ResolverConfig → Type 0
  IsSequential c0 [] c = c ≡ c0
  IsSequential c0 ((call, answer) ∷ log) c =
      (mid : ResolverConfig) × IsSequential c0 log mid × (perform call mid ≡ (c, answer))

-- Every goroutine is about to call its method, and the mutex is free.
abbrev pub starting : ResolverConfig → List Call → System
starting c calls = record {
  shared = record { config = c; readers = 0; writing = false };
  workers = map calling calls;
}

-- The calls that have taken effect, with their answers, by the goroutines.
abbrev pub taken_effect : List Worker → List (Call × Answer)
taken_effect [] = []
taken_effect (unlocking c r ∷ ws) = (c, r) ∷ taken_effect ws
taken_effect (returned c r ∷ ws) = (c, r) ∷ taken_effect ws
taken_effect (_ ∷ ws) = taken_effect ws
