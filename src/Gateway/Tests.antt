-- ===== src/Gateway/Tests.antt =====
-- Runs of the gateway, on header maps that are lists of the changes made, newest first.
use cuartel.Common.{
  ◌≡◌, ◌≢◌, refl, sym, ◌∙◌, inl, inr, true, ◌&&◌, ◌||◌, Option, none, some, List, [], ◌∷◌, String,
  if◌then◌else◌, Bool-cases, map, any, str_eq, eq_refl, arith, All, ◌%◌, ◌^◌,
}
use cuartel.Common.Text.{eq_ignore_ascii_case, replace_from, before_last}
use cuartel.Gateway.Ip.{Ipv4Addr, Ipv6Addr, IpAddr, v4, SocketAddr, FitsV4, FitsV6}
use cuartel.Gateway.Firewall.{is_blocked_v4, is_blocked_v6, parse_ip_authority}
use cuartel.Gateway.Blocks.{in_any, blocks_v4, number_v4, is_blocked_v4-blocks}
use cuartel.Gateway.BlocksV6.{blocks_v6, number_v6, is_mapped, is_blocked_v6-blocks}
use cuartel.Gateway.Rules.{
  AuthRule, AuthGatewayConfig, passthrough, with_default_rules, match_host, render_header_value,
}
use cuartel.Gateway.Http.{ok, HttpLib, HttpLaws}
use cuartel.Gateway.Proxy.{
  Request, Env, build_upstream_request, rewritten, request_hostname, handle_inner,
}
use cuartel.Gateway.Headers.{str_cases, Rewritten, build_upstream_request-Rewritten}
use cuartel.Gateway.Outcome.{Sanctioned, Audited}
use cuartel.Gateway.Guard.{handle_inner-Sanctioned, handle_inner-Audited}
use cuartel.Gateway.Policy.{
  PortForwardConfig, sandbox_to_host, new_policy, protected_ports, new_policy-ports,
}

abbrev Log : Type 0
Log = List (String × Option String)

abbrev last_change : Log → String → Option String
last_change [] n = none
last_change ((m, v) ∷ log) n = if str_eq m n then v else last_change log n

last_change_other :
    (log : Log) (m n : String) (v : Option String)
    → m ≢ n
    → last_change ((n, v) ∷ log) m ≡ last_change log m
last_change_other log m n v apart = elim (str_cases n m) [
  | inl e ↦ absurd (apart (sym e))
  | inr (d, e) ↦ rw e refl
]

logged :
    (log : Log) (n v : String)
    → last_change log n ≡ some v
    → any (λ k. str_eq k n) (map (λ c. c.0) log) ≡ true
logged [] n v h = absurd (cc)
logged ((m, w) ∷ log) n v h = elim (Bool-cases (str_eq m n)) [
  | inl e ↦ rw e refl
  | inr e ↦ rw e (logged log n v (sym (rw e refl) ∙ h))
]

abbrev log_lib : HttpLib
log_lib = record {
  Headers = Log;
  get = last_change;
  keys = λ log. map (λ c. c.0) log;
  insert = λ log n v. (n, some v) ∷ log;
  remove = λ log n. (n, none) ∷ log;
  parse_uri = λ s. some s;
  parse_name = λ s. some s;
  parse_value = λ s. some s;
}

log_laws : HttpLaws log_lib
log_laws = record {
  get-insert = λ log n v. rw (eq_refl n) refl;
  insert_other = λ log m n v apart. last_change_other log m n (some v) apart;
  get-remove = λ log n. rw (eq_refl n) refl;
  remove_other = λ log m n apart. last_change_other log m n none apart;
  get-keys = λ log n v h. logged log n v h;
}

metadata-FitsV4 : FitsV4 (record { a = 169; b = 254; c = 169; d = 254 })
metadata-FitsV4 = record { a = omega arith; b = omega arith; c = omega arith; d = omega arith }

abbrev metadata : Ipv4Addr
metadata = record { a = 169; b = 254; c = 169; d = 254 }

is_blocked_v4-blocks_example : is_blocked_v4 metadata ≡ in_any 32 blocks_v4 (number_v4 metadata)
is_blocked_v4-blocks_example = is_blocked_v4-blocks metadata metadata-FitsV4

metadata_blocked : is_blocked_v4 metadata ≡ true
unfolding is_blocked_v4
metadata_blocked = refl

-- 2606:4700:4700::1111
abbrev resolver : Ipv6Addr
resolver = record {
  s0 = 0x2606;
  s1 = 0x4700;
  s2 = 0x4700;
  s3 = 0;
  s4 = 0;
  s5 = 0;
  s6 = 0;
  s7 = 0x1111;
}

resolver-FitsV6 : FitsV6 resolver
resolver-FitsV6 = record {
  s0 = omega arith;
  s1 = omega arith;
  s2 = omega arith;
  s3 = omega arith;
  s4 = omega arith;
  s5 = omega arith;
  s6 = omega arith;
  s7 = omega arith;
}

is_blocked_v6-blocks_example : is_blocked_v6 resolver ≡ (
    in_any 128 blocks_v6 (number_v6 resolver)
    || is_mapped (number_v6 resolver) && in_any 32 blocks_v4 (number_v6 resolver % 2 ^ 32))
is_blocked_v6-blocks_example = is_blocked_v6-blocks resolver resolver-FitsV6

abbrev openai : AuthRule
openai = record {
  hostname = "api.openai.com";
  provider_id = "openai";
  env_key = "OPENAI_API_KEY";
  header_name = "authorization";
  header_format = "Bearer {key}";
  strip_headers = "Authorization" ∷ "x-api-key" ∷ [];
  upstream_scheme = "https";
  upstream_authority = none;
}

abbrev incoming : Request log_lib
incoming = record {
  method = "POST";
  path_and_query = some "/v1/responses";
  uri = "/v1/responses";
  uri_host = none;
  headers =
      ("host", some "api.openai.com:443")
      ∷ ("x-api-key", some "sk-cuartel-gateway")
      ∷ ("accept", some "text/event-stream")
      ∷ [];
}

abbrev outgoing : Request log_lib
outgoing =
    rewritten log_lib incoming openai "https://api.openai.com/v1/responses" "authorization"
      "Bearer sk-real" "api.openai.com"

build_upstream_request-Rewritten_example :
    Rewritten log_lib log_laws incoming openai "sk-real" "api.openai.com" outgoing
unfolding build_upstream_request render_header_value replace_from
build_upstream_request-Rewritten_example =
    build_upstream_request-Rewritten log_lib log_laws incoming openai "sk-real" "api.openai.com"
      outgoing refl

abbrev config : AuthGatewayConfig
config = record with_default_rules { rules = openai ∷ [] }

abbrev env : Env log_lib
env = record {
  config = config;
  creds = λ provider key. ok (some "sk-real");
  parse_authority = parse_ip_authority (λ s. none) (λ s. none);
  request = λ r. ok 200;
}

abbrev client : IpAddr
client = v4 (record { a = 127; b = 0; c = 0; d = 1 })

handle_inner-Sanctioned_example :
    All (Sanctioned log_lib env incoming client) (handle_inner log_lib env incoming client).sent
unfolding with_default_rules
handle_inner-Sanctioned_example = handle_inner-Sanctioned log_lib env incoming client refl

handle_inner-Audited_example :
    Audited log_lib env incoming client (handle_inner log_lib env incoming client)
unfolding with_default_rules
handle_inner-Audited_example = handle_inner-Audited log_lib env incoming client refl

sent_one : (handle_inner log_lib env incoming client).sent ≡ outgoing ∷ []
unfolding handle_inner with_default_rules request_hostname match_host eq_ignore_ascii_case
    before_last parse_ip_authority render_header_value replace_from
sent_one = refl

abbrev open_env : Env log_lib
open_env = record env { config = record config { on_miss = passthrough; rules = [] } }

abbrev to_gateway : PortForwardConfig
to_gateway = record { direction = sandbox_to_host; sandbox_port = 9999; host_port = 9999 }

abbrev gateway_addr : SocketAddr
gateway_addr = record { ip = client; port = 9999 }

new_policy-ports_example :
    (protected_ports (new_policy (some gateway_addr) 6420 none) ≡ 9999 ∷ 6420 ∷ [])
    × (protected_ports (new_policy none 6420 none) ≡ 6420 ∷ [])
new_policy-ports_example = new_policy-ports gateway_addr 6420 none
