-- ===== src/Response/Tests.antt =====
-- Responses to the sample query.
use dnscore.Prelude.{◌≡◌, ◌≢◌, ◌↔◌, ◌⊎◌, refl, Bytes, none, some, [], ◌∷◌, codes}
use dnscore.Prelude.{List}
use dnscore.Errors.{
  sentinel, invalid_query, invalid_response, no_name, no_data, server_misbehaving,
  server_temporarily_misbehaving,
}
use dnscore.Go.{ok, err}
use dnscore.Dns.{Msg, Question, Rr, a_rr, cname_rr, new_msg, class_inet}
use dnscore.Response.{equal_ascii_name, validate_response, rcode_to_error, valid_answers}
use dnscore.Response.Validate.{IsReply, IsBadQuery, validate_response_cases}
use dnscore.Response.Rcode.{IsLame, rcode_to_error_cases}
use dnscore.Response.Answers.{AreValidAnswers, NoValidAnswer, valid_answers_cases}
use dnscore.Samples.{reply}
use dnscore.Samples.World.{name, query}

abbrev asked : Question
asked = record { name = name; qtype = 1; qclass = class_inet }

abbrev a_of : Bytes → Rr
a_of owner =
    a_rr (record { name = owner; rrtype = 1; class = class_inet; ttl = 60 }) (codes "192.0.2.1")

-- An alias and an address of its target, in other letters.
abbrev aliased : Msg
aliased = record (reply 7 1 name) {
  answer =
      cname_rr (record { name = name; rrtype = 5; class = class_inet; ttl = 60 }) (codes "b.")
      ∷ a_of name
      ∷ a_of (codes "B.")
      ∷ [];
}

abbrev unrelated : Msg
unrelated = record (reply 7 1 name) { answer = a_of (codes "c.") ∷ [] }

validate_response_cases_example :
    (validate_response new_msg (reply 0 1 name) ≡ none) × IsReply new_msg (reply 0 1 name)
    ⊎ (validate_response new_msg (reply 0 1 name) ≡ some (sentinel invalid_query))
      × ¬ IsReply new_msg (reply 0 1 name)
      × IsBadQuery new_msg (reply 0 1 name)
    ⊎ (validate_response new_msg (reply 0 1 name) ≡ some (sentinel invalid_response))
      × ¬ IsReply new_msg (reply 0 1 name)
      × ¬ IsBadQuery new_msg (reply 0 1 name)
validate_response_cases_example = validate_response_cases new_msg (reply 0 1 name)

rejected : validate_response new_msg (reply 0 1 name) ≡ some (sentinel invalid_query)
unfolding validate_response
rejected = refl

accepted : validate_response query (reply 7 1 name) ≡ none
unfolding validate_response equal_ascii_name
accepted = refl

rcode_to_error_cases_example :
    ((rcode_to_error aliased ≡ some (sentinel no_name)) ↔ (aliased.rcode ≡ 3))
    × ((rcode_to_error aliased ≡ some (sentinel server_temporarily_misbehaving))
        ↔ (aliased.rcode ≡ 2))
    × ((rcode_to_error aliased ≡ some (sentinel server_misbehaving))
        ↔ ((aliased.rcode ≢ 0) × (aliased.rcode ≢ 2) × (aliased.rcode ≢ 3)))
    × ((rcode_to_error aliased ≡ some (sentinel no_data)) ↔ ((aliased.rcode ≡ 0) × IsLame aliased))
    × ((rcode_to_error aliased ≡ none) ↔ ((aliased.rcode ≡ 0) × ¬ IsLame aliased))
rcode_to_error_cases_example = rcode_to_error_cases aliased

aliased_answers : valid_answers asked aliased ≡ ok (a_of (codes "B.") ∷ [])
unfolding valid_answers equal_ascii_name
aliased_answers = refl

no_answers : valid_answers asked unrelated ≡ err (sentinel no_data)
unfolding valid_answers equal_ascii_name
no_answers = refl

valid_answers_cases_example :
    ((valid : List Rr) × (valid_answers asked aliased ≡ ok valid)
      × AreValidAnswers asked aliased.answer valid)
    ⊎ (valid_answers asked aliased ≡ err (sentinel no_data)) × NoValidAnswer asked aliased.answer
valid_answers_cases_example = valid_answers_cases asked aliased
