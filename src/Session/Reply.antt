-- ===== src/Session/Reply.antt =====
-- What the client makes of the reply of the handler for example.com.
use dnscore.Prelude.{◌≡◌, refl, inl, Bytes, true, none, [], ◌∷◌, arith, codes}
use dnscore.Go.{ok}
use dnscore.Dns.{Library, Msg, Question, class_inet, rcode_success}
use dnscore.Response.{validate_response, rcode_to_error, valid_answers}
use dnscore.Response.Names.{SameName, equal_ascii_name_iff}
use dnscore.Response.Validate.{validate_response_iff}
use dnscore.Answer.{decode_lookup_a}
use dnscore.TestServer.{example_com_addr_a, example_com_rr, example_com_reply}
use dnscore.TestServer.Handling.{Answers}

-- What `SetReply` of a `dns.Msg` documents, at an empty message: it answers that query.
pub record SetsReply (set_reply : Msg → Msg) : Type 0 where
  pub flagged : (m : Msg) → (set_reply m).response ≡ true
  pub same_id : (m : Msg) → (set_reply m).id ≡ m.id
  pub same_question :
      (m : Msg) (q : Question) → m.question ≡ q ∷ [] → (set_reply m).question ≡ q ∷ []
  pub succeeded : (m : Msg) → (set_reply m).rcode ≡ rcode_success
  pub no_answer : (m : Msg) → (set_reply m).answer ≡ []

-- One question for example.com in the Internet class, in whatever case, and of whatever type.
pub record AsksExample (query : Msg) (q0 : Question) : Type 0 where
  pub one_question : query.question ≡ q0 ∷ []
  pub for_example : SameName q0.name (codes "example.com.")
  pub of_class : q0.qclass ≡ class_inet

SameName-refl : (x : Bytes) → SameName x x
SameName-refl [] = tt
SameName-refl (a ∷ x) = (inl refl, SameName-refl x)

-- The client accepts the response and finds the address of example.com in it.
pub record Accepted (L : Library) (query resp : Msg) (q0 : Question) : Type 0 where
  pub validated : validate_response query resp ≡ none
  pub no_error : rcode_to_error resp ≡ none
  pub answers : valid_answers q0 resp ≡ ok (example_com_rr ∷ [])
  pub decoded :
      decode_lookup_a L (example_com_rr ∷ [])
      ≡ ok (record { addrs = L.ip_string example_com_addr_a ∷ []; cname = [] })

-- The query and the reply to it are packed into these bytes, which parse to them again.
pub record RoundTrips (L : Library) (query reply : Msg) (raw_query raw_resp : Bytes) : Type 0 where
  pub query_packs : L.pack query ≡ ok raw_query
  pub query_parses : L.unpack raw_query ≡ ok query
  pub reply_packs : L.pack reply ≡ ok raw_resp
  pub reply_parses : L.unpack raw_resp ≡ ok reply

pub RoundTrips-Answers :
    (L : Library) (set_reply : Msg → Msg) {query : Msg} {raw_query raw_resp : Bytes}
    → RoundTrips L query (example_com_reply (set_reply query)) raw_query raw_resp
    → Answers L set_reply raw_query raw_resp
RoundTrips-Answers L set_reply {query} trips = record {
  query = query;
  parsed = trips.query_parses;
  replied = trips.reply_packs;
}

pub example_com_reply-Accepted :
    (L : Library) (set_reply : Msg → Msg) (query : Msg) (q0 : Question)
    → SetsReply set_reply
    → AsksExample query q0
    → Accepted L query (example_com_reply (set_reply query)) q0
unfolding rcode_to_error valid_answers decode_lookup_a
example_com_reply-Accepted L set_reply query q0 sets asks = record {
  validated = (validate_response_iff query (example_com_reply (set_reply query))).1 (record {
    flagged = sets.flagged query;
    same_id = sets.same_id query;
    same_question = (
      q0,
      q0,
      asks.one_question,
      sets.same_question query q0 asks.one_question,
      (SameName-refl q0.name, refl, refl),
    );
  });
  no_error = rw (sets.succeeded query, sets.no_answer query) (ground arith);
  answers = rw (
    sets.no_answer query,
    (equal_ascii_name_iff q0.name (codes "example.com.")).1 asks.for_example,
    asks.of_class,
  );
  decoded = refl;
}
