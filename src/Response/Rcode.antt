-- ===== src/Response/Rcode.antt =====
-- `RCodeToError`: which answer codes become which error.
use dnscore.Prelude.{◌≡◌, ◌≢◌, ◌↔◌, true, false, none, some, List, [], ◌∷◌, arith}
use dnscore.Errors.{sentinel, no_name, no_data, server_misbehaving, server_temporarily_misbehaving}
use dnscore.Dns.{Msg, Rr}
use dnscore.Response.{rcode_to_error, is_empty}

-- A server that gives no answer, is no authority and does not recurse.
pub record IsLame (resp : Msg) : Type 0 where
  pub not_authoritative : resp.authoritative ≡ false
  pub not_recursive : resp.recursion_available ≡ false
  pub no_answer : resp.answer ≡ []

is_empty_iff : (rrs : List Rr) → (is_empty rrs ≡ true) ↔ (rrs ≡ [])
is_empty_iff [] = ground arith
is_empty_iff (rr ∷ rrs) = ground arith

-- Each result of `RCodeToError` with the messages that give it: NXDOMAIN (3) gives `ErrNoName`,
-- SERVFAIL (2) the temporary error, another code but 0 `ErrServerMisbehaving`, and 0 gives
-- `ErrNoData` at a lame referral and `nil` otherwise.
pub rcode_to_error_cases :
    (resp : Msg)
    → ((rcode_to_error resp ≡ some (sentinel no_name)) ↔ (resp.rcode ≡ 3))
      × ((rcode_to_error resp ≡ some (sentinel server_temporarily_misbehaving)) ↔ (resp.rcode ≡ 2))
      × ((rcode_to_error resp ≡ some (sentinel server_misbehaving))
          ↔ ((resp.rcode ≢ 0) × (resp.rcode ≢ 2) × (resp.rcode ≢ 3)))
      × ((rcode_to_error resp ≡ some (sentinel no_data)) ↔ ((resp.rcode ≡ 0) × IsLame resp))
      × ((rcode_to_error resp ≡ none) ↔ ((resp.rcode ≡ 0) × ¬ IsLame resp))
unfolding rcode_to_error
rcode_to_error_cases resp = (
  ground arith,
  ground arith,
  ground arith,
  (
    (λ h. (
      ground arith,
      record {
        not_authoritative = ground arith;
        not_recursive = ground arith;
        no_answer = ground (arith, is_empty_iff resp.answer);
      },
    )),
    (λ h. ground (arith, h.1.no_answer)),
  ),
  (
    (λ h. (ground arith, λ l. ground (arith, l.no_answer))),
    (λ h. ground (arith, is_empty_iff resp.answer)),
  ),
)
