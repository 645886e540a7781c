-- ===== src/Response.antt =====
-- response.go: validating a response, mapping its RCODE to an error, extracting the valid records.
pub mod Names
pub mod Validate
pub mod Rcode
pub mod Alias
pub mod Answers
mod Tests
use dnscore.Prelude.{
  ℕ, ◌+◌, Bytes, Bool, true, false, not, ◌&&◌, Option, none, some, List, [], ◌∷◌, ◌++◌, length, leb,
  ◌==◌, if◌then◌else◌,
}
use dnscore.Errors.{Error, sentinel}
use dnscore.Errors
use dnscore.Go.{Result, ok, err}
use dnscore.Dns.{Question, Msg, Rr, cname_rr, header}
use dnscore.Dns.{rcode_success, rcode_server_failure, rcode_name_error}

-- The body of the loop turns a capital letter into a small one.
lower : ℕ → ℕ
lower c = if leb b'A' c && leb c b'Z' then c + 0x20 else c

-- The loop over the bytes of two names of one length; it returns at the first difference.
same_bytes : Bytes → Bytes → Bool
unfolding lower
same_bytes (a ∷ x) (b ∷ y) = let rest = same_bytes x y in if lower a == lower b then rest else false
same_bytes _ _ = true

unfoldable pub equal_ascii_name : Bytes → Bytes → Bool
unfolding same_bytes
equal_ascii_name x y = if length x == length y then same_bytes x y else false

-- Step 4 of `ValidateResponse`.
check_question : Question → Question → Option Error
check_question query0 resp0 =
    if not (equal_ascii_name resp0.name query0.name)
    then some (sentinel Errors.invalid_response)
    else if not (resp0.qclass == query0.qclass)
    then some (sentinel Errors.invalid_response)
    else if not (resp0.qtype == query0.qtype)
    then some (sentinel Errors.invalid_response)
    else none

-- `len(query.Question) != 1`
check_query : Question → List Question → Option Error
check_query resp0 (query0 ∷ []) = check_question query0 resp0
check_query _ _ = some (sentinel Errors.invalid_query)

-- `len(resp.Question) != 1`
check_questions : List Question → List Question → Option Error
check_questions (resp0 ∷ []) queries = check_query resp0 queries
check_questions _ _ = some (sentinel Errors.invalid_response)

-- `none` is Go's `nil`.
unfoldable pub validate_response : Msg → Msg → Option Error
unfolding check_questions check_query check_question
validate_response query resp =
    if not resp.response
    then some (sentinel Errors.invalid_response)
    else if not (resp.id == query.id)
    then some (sentinel Errors.invalid_response)
    else check_questions resp.question query.question

abbrev is_empty {ℓ} : {A : Type ℓ} → List A → Bool
is_empty [] = true
is_empty (_ ∷ _) = false

unfoldable pub rcode_to_error : Msg → Option Error
rcode_to_error resp =
    if resp.rcode == rcode_name_error
    then some (sentinel Errors.no_name)
    else if resp.rcode == rcode_success
        && not resp.authoritative
        && not resp.recursion_available
        && is_empty resp.answer
    then some (sentinel Errors.no_data)
    else if not (resp.rcode == rcode_success)
    then (if resp.rcode == rcode_server_failure
        then some (sentinel Errors.server_temporarily_misbehaving)
        else some (sentinel Errors.server_misbehaving))
    else none

-- `expectName = answer.Target` at a CNAME record.
follow_alias : Bytes → Rr → Bytes
follow_alias name (cname_rr _ target) = target
follow_alias name _ = name

-- The first loop of `ValidAnswers`.
unfoldable pub expect_name : Bytes → List Rr → Bytes
unfolding follow_alias
expect_name name [] = name
expect_name name (answer ∷ rest) = expect_name (follow_alias name answer) rest

-- One round of the second loop: `continue`, or `append`.
keep_valid : Bytes → ℕ → List Rr → Rr → List Rr
keep_valid expected qclass valid answer =
    if not (equal_ascii_name expected (header answer).name)
    then valid
    else if not (qclass == (header answer).class)
    then valid
    else valid ++ answer ∷ []

valid_loop : Bytes → ℕ → List Rr → List Rr → List Rr
unfolding keep_valid
valid_loop expected qclass valid [] = valid
valid_loop expected qclass valid (answer ∷ rest) =
    valid_loop expected qclass (keep_valid expected qclass valid answer) rest

-- `len(valid) < 1`
or_no_data : List Rr → Result (List Rr)
or_no_data [] = err (sentinel Errors.no_data)
or_no_data (rr ∷ valid) = ok (rr ∷ valid)

unfoldable pub valid_answers : Question → Msg → Result (List Rr)
unfolding expect_name valid_loop or_no_data
valid_answers q0 resp =
    or_no_data (valid_loop (expect_name q0.name resp.answer) q0.qclass [] resp.answer)
