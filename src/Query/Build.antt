-- ===== src/Query/Build.antt =====
-- `NewQueryWithServerAddr`: the query that it builds, and where its errors come from.
use dnscore.Prelude.{◌≡◌, ◌⊎◌, ◌≢◌, Bytes, Bool, true, false, ℕ, List, [], ◌∷◌, ◌++◌}
use dnscore.Errors.{Error}
use dnscore.Go.{Result, ok, err, panic}
use dnscore.Dns.{Question, Msg, Library, class_inet}
use dnscore.ServerAddr.{ServerAddr, protocol_doh}
use dnscore.Runtime.{Env, Event, Trace, id_drawn}
use dnscore.Runtime.Only.{Only, only_rules}
use dnscore.Query.{QueryOption, apply_options, choose_id, new_query_with_server_addr}

-- A query for that type in the Internet class, with one question whose name is the encoded name,
-- fully qualified, and nothing else.
pub record IsNewQuery (L : Library) (puny_name : Bytes) (qtype : ℕ) (q : Msg) : Type 0 where
  pub asked : Question
  pub one_question : q.question ≡ asked ∷ []
  pub of_type : asked.qtype ≡ qtype
  pub of_class : asked.qclass ≡ class_inet
  pub qualified : L.is_fqdn asked.name ≡ true
  pub same_name : (asked.name ≡ puny_name) ⊎ (asked.name ≡ L.fqdn puny_name)
  pub recursive : q.recursion_desired ≡ true
  pub no_response : q.response ≡ false
  pub no_answer : q.answer ≡ []
  pub no_extra : q.extra ≡ []

-- The ID is zero and nothing is drawn for DNS over HTTPS; else it is the one drawn ID.
abbrev pub HasChosenId : ServerAddr → Trace → Msg → Trace → Type 0
HasChosenId addr before q after =
    ((addr.protocol ≡ protocol_doh) × (q.id ≡ 0) × (after ≡ before))
    ⊎ ((addr.protocol ≢ protocol_doh) × (after ≡ id_drawn q.id ∷ before))

-- The options before the first one that fails have succeeded.
pub record FirstFailure (options : List QueryOption) (q : Msg) (e : Error) : Type 0 where
  pub before : List QueryOption
  pub failing : QueryOption
  pub after : List QueryOption
  pub reached : Msg
  pub split : options ≡ before ++ failing ∷ after
  pub succeeded : apply_options before q ≡ ok reached
  pub fails : failing reached ≡ err e

-- What the options make of a query: all succeed, or one fails or panics.
abbrev pub AreApplied : List QueryOption → Msg → Result Msg → Type 0
AreApplied options q r =
    ((q' : Msg) × (r ≡ ok q'))
    ⊎ ((e : Error) × (r ≡ err e) × FirstFailure options q e)
    ⊎ (r ≡ panic)

-- Building a query adds no event but the drawing of an ID.
pub new_query_with_server_addr-Only :
    {p : Event → Bool} (L : Library) (E : Env) (addr : ServerAddr) (name : Bytes) (qtype : ℕ)
    (options : List QueryOption)
    → ((id : ℕ) → p (id_drawn id) ≡ true)
    → Only p (new_query_with_server_addr L E addr name qtype options)
unfolding new_query_with_server_addr choose_id
new_query_with_server_addr-Only L E addr name qtype options drawn =
    search (only_rules, drawn) depth 12
