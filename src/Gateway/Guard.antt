-- ===== src/Gateway/Guard.antt =====
-- The guards of the proxy: what a request that leaves for the upstream has passed, and what the
-- audit log hears of it.
use cuartel.Common.{
  ◌≡◌, refl, ap, ◌∙◌, ◌⊎◌, inl, inr, false, none, some, [], String, Bool-cases, Option-cases, All,
}
use cuartel.Common.Text.{is_empty}
use cuartel.Gateway.Ip.{IpAddr}
use cuartel.Gateway.Rules.{AuthRule, reject, passthrough, match_host}
use cuartel.Gateway.Http.{Result, ok, err, HttpLib}
use cuartel.Gateway.Proxy.{
  Request, request_hostname, build_upstream_request, passthrough_request, or_else, Env, Handled,
  on_missing_rule, passthrough_to, firewalled, forward, with_credential, with_rule, handle_inner,
}
use cuartel.Gateway.Outcome.{
  Sanctioned, Ruled, Sends, Audited, unknown_host, no_credential, private_upstream, answered,
  failed, unnamed, unbuilt,
}

Result-cases {ℓ} :
    {A : Type ℓ} (r : Result A) → ((a : A) × (r ≡ ok a)) ⊎ ((e : String) × (r ≡ err e))
Result-cases (ok a) = inl (a, refl)
Result-cases (err e) = inr (e, refl)

module _ (lib : HttpLib) (env : Env lib) (req : Request lib) (peer : IpAddr) where
  -- Both facts about one outcome.
  Fine : Handled lib → Type 0
  Fine h = All (Sanctioned lib env req peer) h.sent × Audited lib env req peer h

  forward-Fine :
      (hostname : String) (rule : AuthRule) (credential : String)
      → request_hostname lib req ≡ some hostname
      → match_host env.config hostname ≡ some rule
      → env.creds rule.provider_id rule.env_key ≡ ok (some credential)
      → is_empty credential ≡ false
      → firewalled lib env req peer (or_else rule.upstream_authority hostname) ≡ false
      → Fine (forward lib env req peer hostname rule credential)
  unfolding Fine forward
  forward-Fine hostname rule credential a b c d f =
      elim (Result-cases (build_upstream_request lib req rule credential hostname)) [
        | inr (e, build) ↦
            rw (build, forward)
              (tt, unbuilt hostname credential e rule (record { named = a; ruled = b }) c d f build)
        | inl (r, build) ↦
            let sanctioned : Sanctioned lib env req peer r = record {
              hostname = hostname;
              rule = rule;
              credential = credential;
              named = a;
              ruled = b;
              stored = c;
              filled = d;
              let_through = f;
              built = build;
            } in
            let sends : Sends lib env req peer hostname rule r = record {
              credential = credential;
              owner = record { named = a; ruled = b };
              stored = c;
              filled = d;
              let_through = f;
              built = build;
            } in
            elim (Result-cases (env.request r)) [
              | inl (status, sent) ↦
                  rw (build, forward)
                    (rw (sent, Fine) ((sanctioned, tt), answered hostname rule r status sends sent))
              | inr (e, sent) ↦
                  rw (build, forward)
                    (rw (sent, Fine) ((sanctioned, tt), failed hostname rule r e _ sends sent))
            ]
      ]

  with_rule-Fine :
      (hostname : String) (rule : AuthRule)
      → request_hostname lib req ≡ some hostname
      → match_host env.config hostname ≡ some rule
      → Fine (with_rule lib env req peer hostname rule)
  unfolding Fine with_rule with_credential
  with_rule-Fine hostname rule a b =
      let owner : Ruled lib env req peer hostname rule = record { named = a; ruled = b } in
      elim (Result-cases (env.creds rule.provider_id rule.env_key)) [
        | inr (e, lookup) ↦
            rw (lookup, with_rule) (tt, no_credential hostname _ rule owner (inl (e, lookup)))
        | inl (found, lookup) ↦ elim (Option-cases found) [
          | inl nothing ↦
              rw (lookup, nothing, with_rule)
                (tt, no_credential hostname _ rule owner (inr (inl (lookup ∙ ap ok nothing))))
          | inr (v, something) ↦ elim (Bool-cases (is_empty v)) [
            | inl empty ↦
                rw (lookup, something, with_rule)
                  (rw empty (
                    tt,
                    no_credential hostname _ rule owner
                        (inr (inr (v, lookup ∙ ap ok something, empty))),
                  ))
            | inr filled ↦
                elim (Bool-cases
                  (firewalled lib env req peer (or_else rule.upstream_authority hostname))) [
                    | inl stopped ↦
                        rw (lookup, something, with_rule)
                          (rw (filled) (
                            rw (stopped, with_credential)
                              (
                                tt,
                                private_upstream hostname _ v rule owner (lookup ∙ ap ok something)
                                    filled stopped,
                              )))
                    | inr through ↦
                        rw (lookup, something, with_rule)
                          (rw (filled) (
                            rw (through, with_credential)
                              (forward-Fine hostname rule v a b (lookup ∙ ap ok something) filled
                                through)))
                  ]
          ]
        ]
      ]

  handle_inner-Fine : env.config.on_miss ≡ reject → Fine (handle_inner lib env req peer)
  unfolding Fine handle_inner on_missing_rule match_host
  handle_inner-Fine m = elim (Option-cases (request_hostname lib req)) [
    | inl nameless ↦ rw (nameless, handle_inner) (tt, unnamed _ nameless)
    | inr (hostname, named) ↦ elim (Option-cases (match_host env.config hostname)) [
      | inl missing ↦
          rw (named, handle_inner)
            (rw missing (rw (m, on_missing_rule) (tt, unknown_host hostname _ named missing)))
      | inr (rule, ruled) ↦
          rw (named, handle_inner) (rw ruled (with_rule-Fine hostname rule named ruled))
    ]
  ]

  -- With unknown hosts rejected, each request that the proxy sends upstream belongs to a rule for
  -- its host with a stored credential that is not empty, has passed the firewall, and is what the
  -- rule makes of the incoming request.
  pub handle_inner-Sanctioned :
      env.config.on_miss ≡ reject
      → All (Sanctioned lib env req peer) (handle_inner lib env req peer).sent
  unfolding Fine
  handle_inner-Sanctioned m = (handle_inner-Fine m).0

  -- With unknown hosts rejected, each request has one of seven causes, with the event that goes
  -- with it, complete in all its fields: `Blocked` with the reason that there is no rule, for a host
  -- without one; `CredentialMissing` of the rule's key, when the store fails for it or has nothing or
  -- an empty text; `Blocked` with the upstream in the reason, when the firewall refuses that;
  -- `Injected` with the status of the answer; `UpstreamError` with the cause, when the request that
  -- was sent fails; and no event, when the request names no host or that for the upstream cannot be
  -- built. Only with `Injected` and `UpstreamError` has a request been sent, which is the one that
  -- the rule makes.
  pub handle_inner-Audited :
      env.config.on_miss ≡ reject → Audited lib env req peer (handle_inner lib env req peer)
  unfolding Fine
  handle_inner-Audited m = (handle_inner-Fine m).1

  -- With unknown hosts passed through, a request to a host without a rule leaves no event, whatever
  -- comes of it.
  pub passthrough_unaudited :
      (hostname : String)
      → env.config.on_miss ≡ passthrough
      → request_hostname lib req ≡ some hostname
      → match_host env.config hostname ≡ none
      → (handle_inner lib env req peer).events ≡ []
  unfolding handle_inner on_missing_rule passthrough_to
  passthrough_unaudited hostname m named missing =
      elim (Result-cases (passthrough_request lib req hostname)) [
        | inl (r, made) ↦
            rw (named, handle_inner)
              (rw missing (rw (m, on_missing_rule) (rw (made, passthrough_to) refl)))
        | inr (e, made) ↦
            rw (named, handle_inner)
              (rw missing (rw (m, on_missing_rule) (rw (made, passthrough_to) refl)))
      ]
