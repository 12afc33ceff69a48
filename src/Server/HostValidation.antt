-- ===== src/Server/HostValidation.antt =====
-- The hosts and origins that the transport accepts:
-- crates/apollo-mcp-server/src/host_validation.rs. rmcp's configuration is the record `TransportConfig`.
pub mod Merged
mod Tests
use Prim.Native.Char.{code}
use apollo_mcp_server.Prelude.{
  ℕ, ◌+◌, ◌≡◌, Bool, true, false, not, ◌&&◌, List, [], ◌∷◌, ◌++◌, String, is_empty, any, leb,
  nat_eq, if◌then◌else◌,
}

pub record HostValidationConfig : Type 0 where
  pub enabled : Bool
  pub allowed_hosts : List String
  pub allowed_origins : List String

-- rmcp's `StreamableHttpServerConfig`.
pub record TransportConfig (C : Type 0) : Type 0 where
  pub hosts : C → List String
  pub with_allowed_hosts : C → List String → C
  pub with_allowed_origins : C → List String → C
  pub disable_allowed_hosts : C → C
  pub disable_allowed_origins : C → C

abbrev pub lower_code : ℕ → ℕ
lower_code n = if leb 65 n && leb n 90 then n + 32 else n

unfoldable pub eq_ignore_ascii_case : String → String → Bool
eq_ignore_ascii_case String.[] String.[] = true
eq_ignore_ascii_case String.[] (String.◌∷◌ d t) = false
eq_ignore_ascii_case (String.◌∷◌ c s) String.[] = false
eq_ignore_ascii_case (String.◌∷◌ c s) (String.◌∷◌ d t) =
    nat_eq (lower_code (code c)) (lower_code (code d)) && eq_ignore_ascii_case s t

-- Some entry is this host, up to the case of its letters.
abbrev pub has_host : List String → String → Bool
has_host hosts host = any (λ h. eq_ignore_ascii_case h host) hosts

unfoldable pub merge_hosts : List String → List String → List String
unfolding eq_ignore_ascii_case
merge_hosts merged [] = merged
merge_hosts merged (host ∷ hosts) =
    merge_hosts (if not (has_host merged host) then merged ++ host ∷ [] else merged) hosts

module _ {C : Type 0} (rmcp : TransportConfig C) where
  pub allow_hosts : HostValidationConfig → C → C
  unfolding merge_hosts
  allow_hosts validation config =
      if not (is_empty validation.allowed_hosts)
      then rmcp.with_allowed_hosts config (merge_hosts (rmcp.hosts config) validation.allowed_hosts)
      else config

  pub allow_origins : HostValidationConfig → C → C
  allow_origins validation config =
      if not (is_empty validation.allowed_origins)
      then rmcp.with_allowed_origins config validation.allowed_origins
      else config

  unfoldable pub apply_to : HostValidationConfig → C → C
  unfolding allow_hosts allow_origins
  apply_to validation config =
      if not validation.enabled
      then rmcp.disable_allowed_origins (rmcp.disable_allowed_hosts config)
      else allow_origins validation (allow_hosts validation config)
