-- ===== src/Gateway/Outcome.antt =====
-- What may come of a request in proxy.rs, with unknown hosts rejected: its cause, the event in the
-- audit log, and what is sent upstream.
use cuartel.Common.{ℕ, ◌≡◌, ◌⊎◌, true, false, none, some, [], ◌∷◌, String}
use cuartel.Common.Text.{is_empty}
use Prim.Native.String.{◌++◌}
use cuartel.Gateway.Firewall.{block_reason}
use cuartel.Gateway.Ip.{IpAddr}
use cuartel.Gateway.Rules.{AuthRule, match_host}
use cuartel.Gateway.Http.{ok, err, HttpLib}
use cuartel.Gateway.Proxy.{
  injected, blocked, credential_missing, upstream_error, path, Request, error_response, relayed,
  request_hostname, build_upstream_request, or_else, Env, Handled, firewalled,
}

module _ (lib : HttpLib) (env : Env lib) (req : Request lib) (peer : IpAddr) where
  -- The request belongs to a rule for its host, whose stored credential is not empty and whose
  -- upstream the firewall lets through; it is what the rule makes of the incoming request.
  pub record Sanctioned (r : Request lib) : Type 0 where
    pub hostname : String
    pub rule : AuthRule
    pub credential : String
    pub named : request_hostname lib req ≡ some hostname
    pub ruled : match_host env.config hostname ≡ some rule
    pub stored : env.creds rule.provider_id rule.env_key ≡ ok (some credential)
    pub filled : is_empty credential ≡ false
    pub let_through : firewalled lib env req peer (or_else rule.upstream_authority hostname) ≡ false
    pub built : build_upstream_request lib req rule credential hostname ≡ ok r

  -- The host that the request names has this rule.
  pub record Ruled (hostname : String) (rule : AuthRule) : Type 0 where
    pub named : request_hostname lib req ≡ some hostname
    pub ruled : match_host env.config hostname ≡ some rule

  -- The store has no usable credential for the rule: its lookup fails, or finds nothing or an empty
  -- text.
  abbrev pub Lacking : AuthRule → Type 0
  Lacking rule =
      ((e : String) × (env.creds rule.provider_id rule.env_key ≡ err e))
      ⊎ (env.creds rule.provider_id rule.env_key ≡ ok none)
      ⊎ ((v : String) × (env.creds rule.provider_id rule.env_key ≡ ok (some v))
          × (is_empty v ≡ true))

  -- The upstream of the rule.
  abbrev pub authority_of : String → AuthRule → String
  authority_of hostname rule = or_else rule.upstream_authority hostname

  -- The request that the rule makes is sent.
  pub record Sends (hostname : String) (rule : AuthRule) (r : Request lib) : Type 0 where
    pub credential : String
    pub owner : Ruled hostname rule
    pub stored : env.creds rule.provider_id rule.env_key ≡ ok (some credential)
    pub filled : is_empty credential ≡ false
    pub let_through : firewalled lib env req peer (authority_of hostname rule) ≡ false
    pub built : build_upstream_request lib req rule credential hostname ≡ ok r

  -- Which event belongs to which cause. The causes exclude each other.
  pub data Audited : Handled lib → Type 0 where
    unknown_host :
        (hostname message : String)
        → request_hostname lib req ≡ some hostname
        → match_host env.config hostname ≡ none
        → Audited (record {
          events = blocked peer hostname req.method (path lib env req peer) "no rule for host" ∷ [];
          sent = [];
          response = ok (error_response 502 message);
        })
    no_credential :
        (hostname message : String) (rule : AuthRule)
        → Ruled hostname rule
        → Lacking rule
        → Audited (record {
          events = credential_missing hostname rule.provider_id rule.env_key ∷ [];
          sent = [];
          response = ok (error_response 502 message);
        })
    private_upstream :
        (hostname message credential : String) (rule : AuthRule)
        → Ruled hostname rule
        → env.creds rule.provider_id rule.env_key ≡ ok (some credential)
        → is_empty credential ≡ false
        → firewalled lib env req peer (authority_of hostname rule) ≡ true
        → Audited (record {
          events =
              blocked peer hostname req.method
                (path lib env req peer)
                (block_reason ++ " (" ++ authority_of hostname rule ++ ")")
              ∷ [];
          sent = [];
          response = ok (error_response 502 message);
        })
    answered :
        (hostname : String) (rule : AuthRule) (r : Request lib) (status : ℕ)
        → Sends hostname rule r
        → env.request r ≡ ok status
        → Audited (record {
          events =
              injected peer hostname rule.provider_id rule.env_key req.method
                (path lib env req peer)
                status
              ∷ [];
          sent = r ∷ [];
          response = ok (relayed status);
        })
    failed :
        (hostname : String) (rule : AuthRule) (r : Request lib) (cause message : String)
        → Sends hostname rule r
        → env.request r ≡ err cause
        → Audited (record {
          events = upstream_error hostname rule.provider_id cause ∷ [];
          sent = r ∷ [];
          response = err message;
        })
    unnamed :
        (message : String)
        → request_hostname lib req ≡ none
        → Audited (record { events = []; sent = []; response = err message })
    unbuilt :
        (hostname credential message : String) (rule : AuthRule)
        → Ruled hostname rule
        → env.creds rule.provider_id rule.env_key ≡ ok (some credential)
        → is_empty credential ≡ false
        → firewalled lib env req peer (authority_of hostname rule) ≡ false
        → build_upstream_request lib req rule credential hostname ≡ err message
        → Audited (record { events = []; sent = []; response = err message })
