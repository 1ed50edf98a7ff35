-- ===== src/Gateway/Headers.antt =====
-- The headers of a request that is sent upstream.
use Prim.Native.String.{◌++◌}
use cuartel.Common.{
  ◌≡◌, ◌≢◌, refl, sym, ap, ◌∙◌, subst, ◌⊎◌, inl, inr, Bool, true, false, ◌&&◌, none, some, List, [],
  ◌∷◌, String, if◌then◌else◌, Bool-cases, Option-cases, select, any, str_eq, eq_iff, eq_refl, arith,
}
use cuartel.Gateway.Rules.{AuthRule, render_header_value}
use cuartel.Gateway.Http.{ok, err, HttpLib, HttpLaws}
use cuartel.Gateway.Proxy.{
  Request, is_stripped, remove_all, rewritten, build_upstream_request, or_else,
}

pub str_cases : (m n : String) → (m ≡ n) ⊎ ((m ≢ n) × (str_eq m n ≡ false))
str_cases m n = elim (Bool-cases (str_eq m n)) [
  | inl e ↦ inl ((eq_iff m n).0 e)
  | inr d ↦ inr (λ e. absurd (ground (arith, (eq_iff m n).1 e)), d)
]

any-select :
    (p : String → Bool) (keys : List String) (n : String)
    → any (λ k. str_eq k n) (select p keys) ≡ (p n && any (λ k. str_eq k n) keys)
any-select p [] n = elim (Bool-cases (p n)) [ inl e ↦ rw e refl | inr e ↦ rw e refl ]
any-select p (k ∷ keys) n = elim (str_cases k n) [
  | inl e ↦ elim (Bool-cases (p n)) [
    | inl kept ↦ rw e (rw (kept, select) (rw (eq_refl n) refl))
    | inr gone ↦ rw e (rw (gone, select) (any-select p keys n ∙ rw gone refl))
  ]
  | inr (apart, e) ↦ elim (Bool-cases (p k)) [
    | inl kept ↦ rw (kept, select) (rw e (any-select p keys n))
    | inr gone ↦ rw (gone, select) (rw e (any-select p keys n))
  ]
]

same_branches {ℓ} : {A : Type ℓ} (b c : Bool) (a : A) → (if b then a else a) ≡ (if c then a else a)
same_branches true true a = refl
same_branches true false a = refl
same_branches false true a = refl
same_branches false false a = refl

err_is_no_ok {ℓ} : {A : Type ℓ} (e : String) (a : A) → ¬ (err e ≡ ok a)
err_is_no_ok e a h = cc

ok_inj {ℓ} : {A : Type ℓ} {a b : A} → ok a ≡ ok b → a ≡ b
ok_inj {a = a} h = ap (λ r. elim r [ ok x ↦ x | err e ↦ a ]) h

module _ (lib : HttpLib) (laws : HttpLaws lib) where
  remove_all_absent :
      (names : List String) (h : lib.Headers) (n : String)
      → lib.get h n ≡ none
      → lib.get (remove_all lib names h) n ≡ none
  unfolding remove_all
  remove_all_absent [] h n e = e
  remove_all_absent (m ∷ names) h n e = elim (str_cases n m) [
    | inl same ↦
        remove_all_absent names (lib.remove h m) n
          (ap (lib.get (lib.remove h m)) same ∙ laws.get-remove h m)
    | inr (apart, d) ↦
        remove_all_absent names (lib.remove h m) n (laws.remove_other h n m apart ∙ e)
  ]

  -- A removed name is gone, and every other is as before.
  remove_all_lem :
      (names : List String) (h : lib.Headers) (n : String)
      → lib.get (remove_all lib names h) n
        ≡ (if any (λ k. str_eq k n) names then none else lib.get h n)
  unfolding remove_all
  remove_all_lem [] h n = refl
  remove_all_lem (m ∷ names) h n = elim (str_cases m n) [
    | inl same ↦
        rw (same)
          (rw (eq_refl n) (remove_all_absent names (lib.remove h n) n (laws.get-remove h n)))
    | inr (apart, d) ↦ rw d (
        remove_all_lem names (lib.remove h m) n
        ∙ ap (λ o. if any (λ k. str_eq k n) names then none else o)
            (laws.remove_other h n m (λ e. apart (sym e))))
  ]

  stripped_lem :
      (strip : List String) (h : lib.Headers) (n : String)
      → lib.get (remove_all lib (select (is_stripped lib strip) (lib.keys h)) h) n
        ≡ (if is_stripped lib strip n then none else lib.get h n)
  stripped_lem strip h n =
      remove_all_lem (select (is_stripped lib strip) (lib.keys h)) h n
      ∙ rw (any-select (is_stripped lib strip) (lib.keys h) n) (elim (Option-cases (lib.get h n)) [
        | inr (v, e) ↦ rw (laws.get-keys h n v e) (elim (Bool-cases (is_stripped lib strip n)) [
          | inl on ↦ rw on refl
          | inr off ↦ rw off refl
        ])
        | inl e ↦ rw e (same_branches _ _ none)
      ])

  abbrev pub target : Request lib → AuthRule → String → String
  target incoming rule hostname =
      rule.upstream_scheme
      ++ "://"
      ++ or_else rule.upstream_authority hostname
      ++ or_else incoming.path_and_query "/"

  -- The headers of what leaves: the host, the credential, and the others but for the stripped ones.
  pub record Rewritten (incoming : Request lib) (rule : AuthRule) (credential hostname : String)
      (r : Request lib) : Type 0 where
    pub name : String
    pub value : String
    pub host : String
    pub name_parsed : lib.parse_name rule.header_name ≡ some name
    pub value_parsed : lib.parse_value (render_header_value rule credential) ≡ some value
    pub host_parsed : lib.parse_value hostname ≡ some host
    pub uri_parsed : lib.parse_uri (target incoming rule hostname) ≡ some r.uri
    pub host_set : lib.get r.headers "host" ≡ some host
    pub credential_set : name ≢ "host" → lib.get r.headers name ≡ some value
    pub others :
        (n : String)
        → n ≢ "host"
        → n ≢ name
        → lib.get r.headers n
          ≡ (if is_stripped lib rule.strip_headers n then none else lib.get incoming.headers n)

  rewritten-others :
      (incoming : Request lib) (rule : AuthRule) (uri name value host n : String)
      → n ≢ "host"
      → n ≢ name
      → lib.get (rewritten lib incoming rule uri name value host).headers n
        ≡ (if is_stripped lib rule.strip_headers n then none else lib.get incoming.headers n)
  unfolding rewritten
  rewritten-others incoming rule uri name value host n a b =
      laws.insert_other _ n "host" host a
      ∙ laws.insert_other _ n name value b
      ∙ stripped_lem rule.strip_headers incoming.headers n

  -- A request that is built for the upstream carries the host name that was asked for and the
  -- rendered credential, no other header of those to strip, and all other headers as they came in.
  pub build_upstream_request-Rewritten :
      (incoming : Request lib) (rule : AuthRule) (credential hostname : String) (r : Request lib)
      → build_upstream_request lib incoming rule credential hostname ≡ ok r
      → Rewritten incoming rule credential hostname r
  unfolding build_upstream_request rewritten
  build_upstream_request-Rewritten incoming rule credential hostname r built =
      elim (Option-cases (lib.parse_uri (target incoming rule hostname))) [
        | inl e ↦ absurd (
            err_is_no_ok ("build upstream uri for " ++ hostname) r
              (sym (rw (e, build_upstream_request) refl) ∙ built))
        | inr (uri, u) ↦ elim (Option-cases (lib.parse_name rule.header_name)) [
          | inl e ↦ absurd (
              err_is_no_ok ("invalid header name " ++ rule.header_name) r
                (sym (rw (u, build_upstream_request) (rw e refl)) ∙ built))
          | inr (name, n) ↦
              elim (Option-cases (lib.parse_value (render_header_value rule credential))) [
                | inl e ↦ absurd (
                    err_is_no_ok "render credential into header value" r
                      (sym (rw (u, build_upstream_request) (rw (n, e) refl)) ∙ built))
                | inr (value, v) ↦ elim (Option-cases (lib.parse_value hostname)) [
                  | inl e ↦ absurd (
                      err_is_no_ok "set Host" r
                        (sym (rw (u, build_upstream_request) (rw (n, v, e) refl)) ∙ built))
                  | inr (host, h) ↦
                      let same : ok (rewritten lib incoming rule uri name value host) ≡ ok r =
                        sym (rw (u, build_upstream_request) (rw (n, v, h) refl)) ∙ built in
                      subst (Rewritten incoming rule credential hostname) (ok_inj same) (record {
                        name = name;
                        value = value;
                        host = host;
                        name_parsed = n;
                        value_parsed = v;
                        host_parsed = h;
                        uri_parsed = u;
                        host_set = laws.get-insert _ "host" host;
                        credential_set = λ apart.
                            laws.insert_other _ name "host" host apart
                            ∙ laws.get-insert _ name value;
                        others = λ m a b. rewritten-others incoming rule uri name value host m a b;
                      })
                ]
              ]
        ]
      ]
