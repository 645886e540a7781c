-- ===== src/Response/Validate.antt =====
-- `ValidateResponse` against a description of what a reply to a query is.
use dnscore.Prelude.{
  ◌≡◌, refl, ap, ◌∙◌, Option-cases, ◌↔◌, ◌⊎◌, true, none, some, List, [], ◌∷◌, arith, inl, inr,
  Bool-cases, ◌==◌,
}
use dnscore.Errors.{Error, sentinel, invalid_query, invalid_response}
use dnscore.Dns.{Question, Msg}
use dnscore.Response.{check_question, check_query, check_questions, validate_response}
use dnscore.Response.Names.{SameName, equal_ascii_name_iff}

abbrev pub SameQuestion : Question → Question → Type 0
SameQuestion q r = SameName r.name q.name × (r.qclass ≡ q.qclass) × (r.qtype ≡ q.qtype)

-- Each section holds one question, and the two agree.
abbrev pub AsksSame : List Question → List Question → Type 0
AsksSame qs rs = (q : Question) × (r : Question) × (qs ≡ q ∷ []) × (rs ≡ r ∷ []) × SameQuestion q r

pub record IsReply (query resp : Msg) : Type 0 where
  pub flagged : resp.response ≡ true
  pub same_id : resp.id ≡ query.id
  pub same_question : AsksSame query.question resp.question

abbrev pub IsOne : List Question → Type 0
IsOne qs = (q : Question) × (qs ≡ q ∷ [])

check_question_iff : (q r : Question) → (check_question q r ≡ none) ↔ SameQuestion q r
unfolding check_question
check_question_iff q r = ground (arith, equal_ascii_name_iff r.name q.name)

check_questions_sound : (rs qs : List Question) → check_questions rs qs ≡ none → AsksSame qs rs
unfolding check_questions check_query
check_questions_sound [] qs h = absurd (cc)
check_questions_sound (r ∷ r' ∷ rs) qs h = absurd (cc)
check_questions_sound (r ∷ []) [] h = absurd (cc)
check_questions_sound (r ∷ []) (q ∷ q' ∷ qs) h = absurd (cc)
check_questions_sound (r ∷ []) (q ∷ []) h = (q, r, refl, refl, (check_question_iff q r).0 h)

check_questions_complete : (rs qs : List Question) → AsksSame qs rs → check_questions rs qs ≡ none
unfolding check_questions check_query
check_questions_complete rs qs (q, r, eq, er, same) = rw (eq, er) ((check_question_iff q r).1 same)

validate_response_sound :
    (query resp : Msg) → validate_response query resp ≡ none → IsReply query resp
unfolding validate_response
validate_response_sound query resp h = record {
  flagged = ground arith;
  same_id = ground arith;
  same_question = check_questions_sound resp.question query.question (ground arith);
}

validate_response_complete :
    (query resp : Msg) → IsReply query resp → validate_response query resp ≡ none
unfolding validate_response
validate_response_complete query resp v = ground (
  arith,
  v.flagged,
  v.same_id,
  check_questions_complete resp.question query.question v.same_question,
)

-- `ValidateResponse` accepts exactly the messages that are flagged as a response, carry the
-- query's ID, and hold one question, as the query does, of the same class and type and of the same
-- name up to the case of ASCII letters.
pub validate_response_iff :
    (query resp : Msg) → (validate_response query resp ≡ none) ↔ IsReply query resp
validate_response_iff query resp =
    (validate_response_sound query resp, validate_response_complete query resp)

check_questions_error :
    (rs qs : List Question) {e : Error}
    → check_questions rs qs ≡ some e
    → ((e ≡ sentinel invalid_query) × IsOne rs × ¬ IsOne qs)
      ⊎ ((e ≡ sentinel invalid_response) × (IsOne rs → IsOne qs))
unfolding check_questions check_query check_question
check_questions_error [] qs h = inr (cc, λ o. absurd (cc o.1))
check_questions_error (r ∷ r' ∷ rs) qs h = inr (cc, λ o. absurd (cc o.1))
check_questions_error (r ∷ []) [] h = inl (cc, (r, refl), λ o. cc o.1)
check_questions_error (r ∷ []) (q ∷ q' ∷ qs) h = inl (cc, (r, refl), λ o. cc o.1)
check_questions_error (r ∷ []) (q ∷ []) h = inr (ground arith, λ _. (q, refl))

-- The one fault that is the query's.
abbrev pub IsBadQuery : Msg → Msg → Type 0
IsBadQuery query resp =
    (resp.response ≡ true) × (resp.id ≡ query.id) × IsOne resp.question × ¬ IsOne query.question

-- A message that `ValidateResponse` rejects is rejected with `ErrInvalidQuery` if it is flagged,
-- has the query's ID and one question and the query has not one question, and with
-- `ErrInvalidResponse` in every other case.
pub validate_response_error :
    (query resp : Msg) {e : Error}
    → validate_response query resp ≡ some e
    → ((e ≡ sentinel invalid_query) × IsBadQuery query resp)
      ⊎ ((e ≡ sentinel invalid_response) × ¬ IsBadQuery query resp)
unfolding validate_response
validate_response_error query resp {e} h = elim (Bool-cases resp.response) [
  | inr f ↦ inr (ground arith, λ b. cc (b.0, f))
  | inl t ↦ elim (Bool-cases (resp.id == query.id)) [
    | inr f ↦ inr (ground arith, λ b. ground (arith, b.1))
    | inl s ↦ elim (check_questions_error resp.question query.question {e = e} (ground arith)) [
      | inl (p, one, not_one) ↦ inl (p, (t, ground arith, one, not_one))
      | inr (p, imp) ↦ inr (p, λ b. b.3 (imp b.2))
    ]
  ]
]

-- `ValidateResponse` accepts exactly the messages that are flagged as a response, carry the query's
-- ID, and hold one question, as the query does, of the same class and type and of the same name up
-- to the case of ASCII letters. It rejects with `ErrInvalidQuery` a message that is flagged, has the
-- query's ID and one question where the query has not one question, and with `ErrInvalidResponse`
-- every other message that it rejects.
pub validate_response_cases :
    (query resp : Msg)
    → (validate_response query resp ≡ none) × IsReply query resp
      ⊎ (validate_response query resp ≡ some (sentinel invalid_query))
        × ¬ IsReply query resp
        × IsBadQuery query resp
      ⊎ (validate_response query resp ≡ some (sentinel invalid_response))
        × ¬ IsReply query resp
        × ¬ IsBadQuery query resp
validate_response_cases query resp = elim (Option-cases (validate_response query resp)) [
  | inl n ↦ inl (n, (validate_response_iff query resp).0 n)
  | inr (e, h) ↦
      let not_reply : ¬ IsReply query resp =
        λ v. absurd (cc (h, (validate_response_iff query resp).1 v)) in
      elim (validate_response_error query resp h) [
        | inl (same, bad) ↦ inr (inl (h ∙ ap some same, not_reply, bad))
        | inr (same, fine) ↦ inr (inr (h ∙ ap some same, not_reply, fine))
      ]
]
