-- ===== src/Query.antt =====
-- query.go: building a query, and the options that change it.
pub mod Padding
pub mod Build
mod Tests
use dnscore.Prelude.{
  ℕ, zero, suc, ◌+◌, ◌-◌, ◌/◌, ◌%◌, ◌^◌, Bytes, Bool, true, false, not, Option, none, some, List,
  [], ◌∷◌, ◌++◌, replicate, ◌==◌, str_eq, if◌then◌else◌,
}
use dnscore.Go.{Result, ok, err, panic, bind}
use dnscore.Dns.{Edns0, padding, Rr, opt_rr, Question, Msg, new_msg, Library, class_inet}
use dnscore.ServerAddr.{Protocol, ServerAddr, protocol_doh}
use dnscore.Runtime.{Env, id_drawn}
use dnscore.Runtime.Io.{Io, pure, lift, ask, emit, ◌>>=◌, ◌>>◌}

-- A function that modifies a query, or fails: the query after it.
abbrev pub QueryOption : Type 0
QueryOption = Msg → Result Msg

abbrev pub edns0_flag_do : ℕ
edns0_flag_do = 1

abbrev pub edns0_flag_block_length_padding : ℕ
edns0_flag_block_length_padding = 2

abbrev pub edns0_suggested_max_response_size_udp : ℕ
edns0_suggested_max_response_size_udp = 1232

abbrev pub edns0_suggested_max_response_size_otherwise : ℕ
edns0_suggested_max_response_size_otherwise = 4096

-- `flags&flag != 0`, for a flag that is one bit.
abbrev pub has_flag : ℕ → ℕ → Bool
has_flag flags flag = not (flags / flag % 2 == 0)

-- `(desiredBlockSize - uint16(q.Len()+4)) % desiredBlockSize`, in 16 bits.
pad_length : ℕ → ℕ
pad_length len = (128 + 2 ^ 16 - (len + 4) % 2 ^ 16) % 2 ^ 16 % 128

-- `append` to the options of a record, which must be an OPT record.
append_to : Rr → List Rr → Edns0 → Option (List Rr)
append_to (opt_rr h options) rrs o = some (opt_rr h (options ++ o ∷ []) ∷ rrs)
append_to _ rrs o = none

-- The same at the record at that place.
append_option : List Rr → ℕ → Edns0 → Option (List Rr)
unfolding append_to
append_option [] i o = none
append_option (rr ∷ rrs) zero o = append_to rr rrs o
append_option (rr ∷ rrs) (suc i) o = elim (append_option rrs i o) [
  | none ↦ none
  | some rest ↦ some (rr ∷ rest)
]

-- Through a nil pointer it panics.
write_extra : Msg → Option (List Rr) → Result Msg
write_extra q none = panic
write_extra q (some extra) = ok (record q { extra = extra })

add_option : Library → Msg → Edns0 → Result Msg
unfolding append_option write_extra
add_option L q o = elim (L.is_edns0 q) [
  | none ↦ panic
  | some i ↦ write_extra q (append_option q.extra i o)
]

-- Step 2 of the closure that `QueryOptionEDNS0` returns.
pad_query : Library → Msg → Result Msg
unfolding pad_length add_option
pad_query L q = add_option L q (padding (replicate (pad_length (L.len q)) 0))

unfoldable pub query_option_edns0 : Library → ℕ → ℕ → QueryOption
unfolding pad_query
query_option_edns0 L max_response_size flags q =
    let q' = L.set_edns0 q max_response_size (has_flag flags edns0_flag_do) in
    if has_flag flags edns0_flag_block_length_padding then pad_query L q' else ok q'

unfoldable pub query_option_id : ℕ → QueryOption
query_option_id id q = ok (record q { id = id })

-- The loop over the options returns at the first error.
unfoldable pub apply_options : List QueryOption → Msg → Result Msg
apply_options [] q = ok q
apply_options (option ∷ options) q = bind (option q) (apply_options options)

-- `if !dns.IsFqdn(punyName) { punyName = dns.Fqdn(punyName) }`
qualify : Library → Bytes → Bytes
qualify L puny_name = if not (L.is_fqdn puny_name) then L.fqdn puny_name else puny_name

-- The message before the switch on the protocol.
initial_query : Library → Bytes → ℕ → Msg
unfolding qualify
initial_query L puny_name qtype = record new_msg {
  recursion_desired = true;
  question = question ∷ [];
}
  where
    question : Question
    question = record { name = qualify L puny_name; qtype = qtype; qclass = class_inet }

-- That switch: `dns.Id()` for all but DNS over HTTPS.
choose_id : Env → Protocol → Msg → Io Msg
choose_id E protocol q =
    if str_eq protocol protocol_doh
    then pure q
    else do id ← ask E.new_id; emit (id_drawn id); pure (record q { id = id })

module _ (L : Library) (E : Env) where
  unfoldable pub new_query_with_server_addr : ServerAddr → Bytes → ℕ → List QueryOption → Io Msg
  unfolding choose_id initial_query
  new_query_with_server_addr server_addr name qtype options = do
    puny_name ← lift (L.to_ascii name)
    query ← choose_id E server_addr.protocol (initial_query L puny_name qtype)
    lift (apply_options options query)

  -- `NewQuery`: at the zero `ServerAddr`.
  unfoldable pub new_query : Bytes → ℕ → List QueryOption → Io Msg
  unfolding new_query_with_server_addr
  new_query = new_query_with_server_addr (record { protocol = ""; address = "" })
