-- ===== src/TestServer/Handling.antt =====
-- The handler for example.com: what it makes of a query, for any response writer.
use dnscore.Runtime.Runtimex.{try1, try1-works, try1_cases}
use dnscore.Prelude.{◌≡◌, ◌∙◌, ◌⊎◌, inl, inr, Bytes}
use dnscore.Go.{ok, panic}
use dnscore.Dns.{Msg, Library}
use dnscore.Runtime.{Trace}
use dnscore.Runtime.Io.{lift}
use dnscore.Runtime.Invert.{>>=-ok}
use dnscore.TestServer.{ResponseWriter, example_com_reply, new_example_com_handler}

-- The bytes hold a query, and this is the packed reply.
pub record Answers (L : Library) (set_reply : Msg → Msg) (raw_query raw_resp : Bytes) : Type 0 where
  pub query : Msg
  pub parsed : L.unpack raw_query ≡ ok query
  pub replied : L.pack (example_com_reply (set_reply query)) ≡ ok raw_resp

module _ (L : Library) (set_reply : Msg → Msg) (rw_to : ResponseWriter) (raw_query : Bytes)
    (tr : Trace) where
  -- The reply goes to the writer.
  pub handler-writes :
      {raw_resp : Bytes}
      → Answers L set_reply raw_query raw_resp
      → new_example_com_handler L set_reply rw_to raw_query tr ≡ try1 (rw_to raw_resp) tr
  unfolding new_example_com_handler lift
  handler-writes a =
      >>=-ok _ _ (try1-works _ (λ i. (a.parsed i, tr)))
      ∙ >>=-ok _ _ (try1-works _ (λ i. (a.replied i, tr)))

  -- There is a reply and the handler writes it, or there is none and it panics.
  pub handler_cases :
      ((raw_resp : Bytes) × Answers L set_reply raw_query raw_resp)
      ⊎ ((new_example_com_handler L set_reply rw_to raw_query tr ≡ (panic, tr))
          × ((raw_resp : Bytes) → ¬ Answers L set_reply raw_query raw_resp))
  unfolding new_example_com_handler lift
  handler_cases = elim (try1_cases {B = Unit {0}} (L.unpack raw_query)) [
    | inr (bad, stops) ↦ inr (stops _ tr, λ raw a. bad a.query a.parsed)
    | inl (query, parsed) ↦
        elim (try1_cases {B = Unit {0}} (L.pack (example_com_reply (set_reply query)))) [
          | inl (raw_resp, replied) ↦
              inl (raw_resp, record { query = query; parsed = parsed; replied = replied })
          | inr (bad, stops) ↦ inr (
            >>=-ok _ _ (try1-works _ (λ i. (parsed i, tr))) ∙ stops _ tr,
            λ raw a.
                let same : a.query ≡ query = cc (a.parsed, parsed) in
                bad raw (rw same at a.replied),
          )
        ]
  ]
