-- ===== src/Server/HostValidation/Merged.antt =====
-- Which hosts the configuration of the parent allows.
use apollo_mcp_server.Prelude.{
  ◌≡◌, refl, true, false, ◌||◌, List, [], ◌∷◌, ◌++◌, String, is_empty, Bool-cases, inl, inr, arith,
}
use apollo_mcp_server.Server.HostValidation.{
  HostValidationConfig, TransportConfig, eq_ignore_ascii_case, has_host, merge_hosts, allow_hosts,
  allow_origins, apply_to,
}

same_case_trans :
    (a b c : String)
    → eq_ignore_ascii_case a b ≡ true
    → eq_ignore_ascii_case b c ≡ true
    → eq_ignore_ascii_case a c ≡ true
unfolding eq_ignore_ascii_case
same_case_trans String.[] String.[] c h k = k
same_case_trans String.[] (String.◌∷◌ e t) c h k = absurd (ground arith)
same_case_trans (String.◌∷◌ d s) String.[] c h k = absurd (ground arith)
same_case_trans (String.◌∷◌ d s) (String.◌∷◌ e t) String.[] h k = absurd (ground arith)
same_case_trans (String.◌∷◌ d s) (String.◌∷◌ e t) (String.◌∷◌ f u) h k =
    ground (arith, same_case_trans s t u)

has_host_trans :
    (hosts : List String) (a b : String)
    → has_host hosts a ≡ true
    → eq_ignore_ascii_case a b ≡ true
    → has_host hosts b ≡ true
has_host_trans [] a b h k = absurd (ground arith)
has_host_trans (host ∷ hosts) a b h k =
    ground (arith, same_case_trans host a b, has_host_trans hosts a b)

has_host-append :
    (hosts : List String) (a b : String)
    → has_host (hosts ++ a ∷ []) b ≡ (has_host hosts b || eq_ignore_ascii_case a b)
has_host-append [] a b = ground arith
has_host-append (host ∷ hosts) a b = ground (arith, has_host-append hosts a b)

merge_hosts-has_host :
    (merged hosts : List String) (host : String)
    → has_host (merge_hosts merged hosts) host ≡ (has_host merged host || has_host hosts host)
unfolding merge_hosts
merge_hosts-has_host merged [] host = ground arith
merge_hosts-has_host merged (first ∷ hosts) host = elim (Bool-cases (has_host merged first)) [
  | inl known ↦
      rw (known, merge_hosts-has_host merged hosts host)
        (ground (arith, has_host_trans merged first host))
  | inr fresh ↦
      rw
        (
          fresh,
          merge_hosts-has_host (merged ++ first ∷ []) hosts host,
          has_host-append merged first host,
        )
        (ground arith)
]

-- What rmcp documents: a list that is set is the list that is read, and the origins are apart from it.
pub record IsTransport {C : Type 0} (rmcp : TransportConfig C) : Type 0 where
  pub sets_hosts :
      (config : C) (hosts : List String) → rmcp.hosts (rmcp.with_allowed_hosts config hosts) ≡ hosts
  pub keeps_hosts :
      (config : C) (origins : List String)
      → rmcp.hosts (rmcp.with_allowed_origins config origins) ≡ rmcp.hosts config

allow_origins-hosts :
    {C : Type 0} (rmcp : TransportConfig C) (validation : HostValidationConfig) (config : C)
    → IsTransport rmcp
    → rmcp.hosts (allow_origins rmcp validation config) ≡ rmcp.hosts config
unfolding allow_origins
allow_origins-hosts rmcp validation config laws =
    elim (Bool-cases (is_empty validation.allowed_origins)) [
      | inl empty ↦ rw (empty, allow_origins) refl
      | inr given ↦ rw (given, allow_origins) (laws.keeps_hosts config validation.allowed_origins)
    ]

no_host :
    (hosts : List String) (host : String) → is_empty hosts ≡ true → has_host hosts host ≡ false
no_host [] host h = refl
no_host (first ∷ hosts) host h = absurd (ground arith)

allow_hosts-has_host :
    {C : Type 0} (rmcp : TransportConfig C) (validation : HostValidationConfig) (config : C)
    (host : String)
    → IsTransport rmcp
    → has_host (rmcp.hosts (allow_hosts rmcp validation config)) host
      ≡ (has_host (rmcp.hosts config) host || has_host validation.allowed_hosts host)
unfolding allow_hosts
allow_hosts-has_host rmcp validation config host laws =
    elim (Bool-cases (is_empty validation.allowed_hosts)) [
      | inl empty ↦
          rw (empty, allow_hosts, no_host validation.allowed_hosts host empty) (ground arith)
      | inr given ↦
          rw
            (
              given,
              allow_hosts,
              laws.sets_hosts config (merge_hosts (rmcp.hosts config) validation.allowed_hosts),
            )
            (merge_hosts-has_host (rmcp.hosts config) validation.allowed_hosts host)
    ]

-- When validation is on, the hosts that are allowed are, up to the case of letters, exactly those that
-- were allowed before, such as the loopback ones, and those that the configuration adds. (rmcp's
-- setters are assumed to set what they say.)
pub apply_to-has_host :
    {C : Type 0} (rmcp : TransportConfig C) (validation : HostValidationConfig) (config : C)
    (host : String)
    → IsTransport rmcp
    → validation.enabled ≡ true
    → has_host (rmcp.hosts (apply_to rmcp validation config)) host
      ≡ (has_host (rmcp.hosts config) host || has_host validation.allowed_hosts host)
unfolding apply_to
apply_to-has_host rmcp validation config host laws on =
    rw (on, apply_to, allow_origins-hosts rmcp validation (allow_hosts rmcp validation config) laws)
      (allow_hosts-has_host rmcp validation config host laws)
