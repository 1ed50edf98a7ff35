-- ===== src/Gateway/Proxy.antt =====
-- proxy.rs: a request from host name to answer. The crates of the network are parameters.
use Prim.Native.String.{◌++◌}
use cuartel.Common.{
  ℕ, Bool, false, Option, none, some, List, [], ◌∷◌, String, if◌then◌else◌, select, any,
}
use cuartel.Common.Text.{eq_ignore_ascii_case, before_last, starts_with_char, is_empty}
use cuartel.Gateway.Ip.{IpAddr, SocketAddr}
use cuartel.Gateway.Firewall.{is_blocked_ip, block_reason}
use cuartel.Gateway.Rules.{
  AuthRule, AuthGatewayConfig, reject, passthrough, match_host, render_header_value,
}
use cuartel.Gateway.Http.{Result, ok, err, ◌>>=◌, ok_or, HttpLib}

-- audit.rs, without the time of the event.
pub data AuditEvent : Type 0 where
  injected : IpAddr → String → String → String → String → String → ℕ → AuditEvent
  blocked : IpAddr → String → String → String → String → AuditEvent
  credential_missing : String → String → String → AuditEvent
  upstream_error : String → String → String → AuditEvent

abbrev pub kind : AuditEvent → String
kind (injected client hostname provider key method path status) = "injected"
kind (blocked client hostname method path reason) = "blocked"
kind (credential_missing hostname provider key) = "credential_missing"
kind (upstream_error hostname provider error) = "upstream_error"

unfoldable pub strip_port : String → String
strip_port host =
    if starts_with_char b'[' host
    then host
    else elim (before_last b':' host) [ some p ↦ p | none ↦ host ]

abbrev pub or_else : Option String → String → String
or_else none d = d
or_else (some s) d = s

-- `host` is the name of the constant `HOST`.
module _ (lib : HttpLib) where
  -- The body, which is passed on unread, is left out.
  pub record Request : Type 0 where
    pub method : String
    pub path_and_query : Option String
    pub uri : String
    pub uri_host : Option String
    pub headers : lib.Headers

  -- An answer of the gateway itself, or that of the upstream.
  pub data Response : Type 0 where
    error_response : ℕ → String → Response
    relayed : ℕ → Response

  unfoldable pub request_hostname : Request → Option String
  unfolding strip_port
  request_hostname req = elim (lib.get req.headers "host") [
    | some host ↦ some (strip_port host)
    | none ↦ req.uri_host
  ]

  -- Whether a header is on the list of those to strip.
  abbrev pub is_stripped : List String → String → Bool
  is_stripped strip_headers name = any (λ h. eq_ignore_ascii_case h name) strip_headers

  unfoldable pub remove_all : List String → lib.Headers → lib.Headers
  remove_all [] headers = headers
  remove_all (n ∷ names) headers = remove_all names (lib.remove headers n)

  -- The headers stripped, and the credential and the host put in.
  unfoldable pub rewritten : Request → AuthRule → String → String → String → String → Request
  unfolding remove_all
  rewritten incoming rule uri name value host =
      let strip = select (is_stripped rule.strip_headers) (lib.keys incoming.headers) in
      record incoming {
        uri = uri;
        headers =
            lib.insert (lib.insert (remove_all strip incoming.headers) name value) "host" host;
      }

  unfoldable pub build_upstream_request : Request → AuthRule → String → String → Result Request
  unfolding rewritten
  build_upstream_request incoming rule credential hostname = do
    uri ←
        ok_or
          (lib.parse_uri (
            rule.upstream_scheme
            ++ "://"
            ++ or_else rule.upstream_authority hostname
            ++ or_else incoming.path_and_query "/"))
          ("build upstream uri for " ++ hostname)
    header_name ←
        ok_or (lib.parse_name rule.header_name) ("invalid header name " ++ rule.header_name)
    header_value ←
        ok_or (lib.parse_value (render_header_value rule credential))
          "render credential into header value"
    host_value ← ok_or (lib.parse_value hostname) "set Host"
    ok (rewritten incoming rule uri header_name header_value host_value)

  unfoldable pub passthrough_request : Request → String → Result Request
  passthrough_request incoming hostname = do
    uri ←
        ok_or (lib.parse_uri ("https://" ++ hostname ++ or_else incoming.path_and_query "/"))
          ("build passthrough uri for " ++ hostname)
    host_value ← ok_or (lib.parse_value hostname) "set Host"
    ok (record incoming { uri = uri; headers = lib.insert incoming.headers "host" host_value })

  -- What the proxy is started with: its configuration, the credential store, the parser of IP
  -- authorities and the upstream, which answers a request with a status or fails.
  pub record Env : Type 0 where
    pub config : AuthGatewayConfig
    pub creds : String → String → Result (Option String)
    pub parse_authority : String → Option SocketAddr
    pub request : Request → Result ℕ

  -- The events emitted, the requests sent upstream, and the answer.
  pub record Handled : Type 0 where
    pub events : List AuditEvent
    pub sent : List Request
    pub response : Result Response

  abbrev pub silent : Result Response → Handled
  silent r = record { events = []; sent = []; response = r }

  module _ (env : Env) (req : Request) (peer : IpAddr) where
    abbrev pub path : String
    path = or_else req.path_and_query "/"

    unfoldable pub passthrough_to : String → Handled
    unfolding passthrough_request
    passthrough_to hostname = elim (passthrough_request req hostname) [
      | err e ↦ silent (err e)
      | ok r ↦ record {
        events = [];
        sent = r ∷ [];
        response = elim (env.request r) [
          | err e ↦ err "passthrough request"
          | ok status ↦ ok (relayed status)
        ];
      }
    ]

    -- No rule for the host.
    unfoldable pub on_missing_rule : String → Handled
    on_missing_rule hostname = elim env.config.on_miss [
      | reject ↦ record {
        events = blocked peer hostname req.method path "no rule for host" ∷ [];
        sent = [];
        response = ok (error_response 502 ("no auth gateway rule for host " ++ hostname));
      }
      | passthrough ↦ passthrough_to hostname
    ]

    abbrev missing_credential : String → AuthRule → String → Handled
    missing_credential hostname rule message = record {
      events = credential_missing hostname rule.provider_id rule.env_key ∷ [];
      sent = [];
      response = ok (error_response 502 message);
    }

    -- Whether the firewall refuses the authority.
    unfoldable pub firewalled : String → Bool
    firewalled authority =
        if env.config.firewall.allow_private_upstreams
        then false
        else elim (env.parse_authority authority) [ none ↦ false | some sa ↦ is_blocked_ip sa.ip ]

    unfoldable pub forward : String → AuthRule → String → Handled
    unfolding build_upstream_request
    forward hostname rule credential = elim (build_upstream_request req rule credential hostname) [
      | err e ↦ silent (err e)
      | ok r ↦ elim (env.request r) [
        | err e ↦ record {
          events = upstream_error hostname rule.provider_id e ∷ [];
          sent = r ∷ [];
          response = err ("upstream request to " ++ hostname ++ ": " ++ e);
        }
        | ok status ↦ record {
          events = injected peer hostname rule.provider_id rule.env_key req.method path status ∷ [];
          sent = r ∷ [];
          response = ok (relayed status);
        }
      ]
    ]

    -- The rule and its credential are there.
    unfoldable pub with_credential : String → AuthRule → String → Handled
    unfolding firewalled forward
    with_credential hostname rule credential =
        let authority = or_else rule.upstream_authority hostname in
        if firewalled authority
        then record {
          events =
              blocked peer hostname req.method path (block_reason ++ " (" ++ authority ++ ")") ∷ [];
          sent = [];
          response = ok (
              error_response 502 (
                "firewall blocked upstream authority " ++ authority ++ " for rule "
                ++ rule.hostname));
        }
        else forward hostname rule credential

    unfoldable pub with_rule : String → AuthRule → Handled
    unfolding with_credential
    with_rule hostname rule =
        let absent =
          missing_credential hostname rule
            ("credential " ++ rule.provider_id ++ ":" ++ rule.env_key ++ " not configured") in
        elim (env.creds rule.provider_id rule.env_key) [
          | err e ↦ missing_credential hostname rule ("credential lookup failed: " ++ e)
          | ok found ↦ elim found [
            | none ↦ absent
            | some v ↦ if is_empty v then absent else with_credential hostname rule v
          ]
        ]

    unfoldable pub handle_inner : Handled
    unfolding on_missing_rule with_rule
    handle_inner = elim (request_hostname req) [
      | none ↦ silent (err "missing Host header")
      | some hostname ↦ elim (match_host env.config hostname) [
        | none ↦ on_missing_rule hostname
        | some rule ↦ with_rule hostname rule
      ]
    ]

    -- Every failure becomes a 502.
    unfoldable pub handle : Response
    unfolding handle_inner
    handle = elim handle_inner.response [
      | ok r ↦ r
      | err e ↦ error_response 502 ("gateway error: " ++ e)
    ]
