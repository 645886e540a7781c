-- ===== src/Errors.antt =====
-- The error values of the package (`var Err... = errors.New(...)` in response.go, transport.go and
-- dotcp.go), `fmt.Errorf("%w: %s", ...)` and `errors.Is`.
use dnscore.Prelude.{ℕ, String, Bool, false, ◌==◌}

-- The package's sentinels. Two of them have the same text and are still different values.
pub data Sentinel : Type 0 where
  invalid_query : Sentinel
  cannot_unmarshal_message : Sentinel
  invalid_response : Sentinel
  no_name : Sentinel
  server_misbehaving : Sentinel
  server_temporarily_misbehaving : Sentinel
  no_data : Sentinel
  no_such_transport_protocol : Sentinel
  transport_cannot_receive_duplicates : Sentinel
  query_too_large_for_transport : Sentinel

-- A sentinel, an error wrapped by `%w` with a text, or an error of another package.
pub data Error : Type 0 where
  sentinel : Sentinel → Error
  wrapped : Error → String → Error
  foreign : String → Error

-- Which sentinel it is, as a number: Go compares the pointers.
unfoldable pub rank : Sentinel → ℕ
rank invalid_query = 0
rank cannot_unmarshal_message = 1
rank invalid_response = 2
rank no_name = 3
rank server_misbehaving = 4
rank server_temporarily_misbehaving = 5
rank no_data = 6
rank no_such_transport_protocol = 7
rank transport_cannot_receive_duplicates = 8
rank query_too_large_for_transport = 9

-- `errors.Is` at a sentinel: it goes down the chain of wrapped errors.
unfoldable pub is_error : Error → Sentinel → Bool
unfolding rank
is_error (sentinel s) target = rank s == rank target
is_error (wrapped e _) target = is_error e target
is_error (foreign _) target = false

abbrev pub err_no_data : Error
err_no_data = sentinel no_data

abbrev pub err_no_name : Error
err_no_name = sentinel no_name

abbrev pub err_invalid_response : Error
err_invalid_response = sentinel invalid_response
