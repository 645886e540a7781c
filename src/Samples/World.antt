-- ===== src/Samples/World.antt =====
-- A world in which dialling succeeds, replies arrive, and one context is done.
use dnscore.Prelude.{Bytes, true, none, some, [], ◌∷◌, codes, ltb, ◌==◌, if◌then◌else◌}
use dnscore.Errors.{foreign}
use dnscore.Go.{Result, ok, err}
use dnscore.Dns.{Msg, new_msg, class_inet}
use dnscore.ServerAddr.{ServerAddr, Protocol, new_server_addr}
use dnscore.Runtime.{Env, Trace, Context, AddrPort, HttpResponse, HttpAnswer}
use dnscore.Udp.Flow.{flow}
use dnscore.Udp.Ending.{datagrams}

abbrev pub name : Bytes
name = codes "a."

abbrev pub query : Msg
query = record new_msg {
  id = 7;
  recursion_desired = true;
  question = record { name = name; qtype = 1; qclass = class_inet } ∷ [];
}

abbrev pub ctx : Context
ctx = record { key = 0; deadline = some 500 }

abbrev pub canceled : Context
canceled = record { key = 9; deadline = none }

abbrev pub server : Protocol → ServerAddr
server protocol = new_server_addr protocol "192.0.2.53:53"

-- The packed reply to the query.
abbrev pub raw_reply : Bytes
raw_reply = 7 ∷ 1 ∷ name

-- Two datagrams arrive, and then the deadline is reached.
abbrev datagram : Trace → Result Bytes
datagram tr = if ltb (datagrams (flow tr)) 2 then ok raw_reply else err (foreign "i/o timeout")

abbrev pub addr_port : AddrPort
addr_port = record { is_valid = true; text = "192.0.2.1:1" }

abbrev pub http_resp : HttpResponse
http_resp = record {
  status_code = 200;
  content_type = "application/dns-message";
  body = record { handle = 3; content = raw_reply; failure = none };
}

abbrev pub http_answer : HttpAnswer
http_answer = record { result = ok http_resp; local_addr = addr_port; remote_addr = addr_port }

abbrev pub env : Env
env = record {
  new_id = λ tr. 7;
  now = λ tr. 100;
  ctx_err = λ tr ctx. if ctx.key == 9 then some (foreign "context canceled") else none;
  default_dial = λ tr ctx network address. ok 1;
  default_tls_dial = λ tr ctx config network address. ok 2;
  split_host = λ address. ok "dns.example";
  write = λ tr conn bytes. none;
  read = λ tr conn n. datagram tr;
  read_full = λ tr conn n. if n == 2 then ok (0 ∷ 4 ∷ []) else ok raw_reply;
  local_addr_port = λ conn. addr_port;
  remote_addr_port = λ conn. addr_port;
  new_request = λ ctx method url body.
      ok (record { method = method; url = url; content_type = none; content = body });
  conn_trace_do = λ tr client req. http_answer;
  can_emit = λ tr ctx. true;
}
