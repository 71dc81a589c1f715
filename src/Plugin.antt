-- ===== src/Plugin.antt =====
-- `IsolatedPythonPlugin` of crates/cpex-hosts-python/src/plugin.rs: what its declaration asks of the worker,
-- and the task that one invocation sends.
pub mod Lifecycle
pub mod Launch
pub mod Respawn
pub mod Task
pub mod Response
pub mod Handshake
mod Tests
use Prim.Native.String.{◌++◌}
use cpex.Prelude.{
  Bool, true, false, not, ◌||◌, String, Option, none, some, List, [], ◌∷◌, any, filter, ◌==◌,
  if◌then◌else◌,
}
use cpex.Prelude.Order.{compare_text, sort_by}
use cpex.HostError.{HostError, config, credential, decimal, display}
use cpex.Json.{Value}
use cpex.Result.{Result, ok, err}
use cpex.Credentials.{declares, cap_read_inbound, cap_read_delegated}
use cpex.Hooks.{worker_hook_name}
use cpex.Legacy.{is_cmf_hook, legacy_hook_name}
use cpex.Worker.{WorkerCapabilities, has}

-- The parts of the engine's plugin entry that the host reads; the set of capabilities in the order in which it
-- is iterated.
pub record PluginConfig : Type 0 where
  pub name : String
  pub kind : String
  pub hooks : List String
  pub capabilities : List String
  pub config : Option Value

pub record Plugin : Type 0 where
  pub config : PluginConfig
  pub class_name : String
  pub plugin_dirs : List String

abbrev pub feature_credential : String
feature_credential = "credential"

abbrev pub feature_extensions : String
feature_extensions = "extensions"

abbrev pub feature_cmf_hooks : String
feature_cmf_hooks = "cmf_hooks"

abbrev pub worker_known_capabilities : List String
worker_known_capabilities =
    "read_subject" ∷ "read_roles" ∷ "read_teams" ∷ "read_claims" ∷ "read_permissions" ∷ "read_agent"
    ∷ "read_headers" ∷ "write_headers" ∷ "read_labels" ∷ "append_labels" ∷ "read_delegation"
    ∷ "append_delegation" ∷ []

abbrev pub is_known : String → Bool
is_known c = any (λ k. k == c) worker_known_capabilities

unfoldable pub worker_capabilities : Plugin → List String
worker_capabilities p = filter is_known p.config.capabilities

abbrev pub when_true : Bool → String → List String → List String
when_true true feature rest = feature ∷ rest
when_true false feature rest = rest

unfoldable pub required_worker_features : Plugin → List String
required_worker_features p =
    when_true (any (λ h. h == "cmf.llm_input" || h == "cmf.llm_output") p.config.hooks)
      feature_cmf_hooks
      (when_true (any (λ c. c == cap_read_inbound || c == cap_read_delegated) p.config.capabilities)
        feature_credential (when_true (any is_known p.config.capabilities) feature_extensions []))

pub join_more : List String → String
join_more [] = ""
join_more (s ∷ rest) = ", " ++ (s ++ join_more rest)

abbrev pub join_texts : List String → String
join_texts [] = ""
join_texts (s ∷ rest) = s ++ join_more rest

abbrev version_or_unknown : Option String → String
version_or_unknown none = "version unknown"
version_or_unknown (some v) = v

missing_features : Plugin → List String → WorkerCapabilities → HostError
missing_features p missing reported = credential (
    "the installed cpex worker does not implement "
    ++ (join_texts missing
        ++ (" — which plugin '"
            ++ (p.config.name
                ++ ("' needs given its declared capabilities ("
                    ++ (join_texts (sort_by compare_text p.config.capabilities)
                        ++ (") and hooks ("
                            ++ (join_texts p.config.hooks
                                ++ ("). The worker reported protocol version "
                                    ++ (decimal reported.protocol_version
                                        ++ (" and features ["
                                            ++ (join_texts reported.features
                                                ++ ("] (cpex "
                                                    ++ (version_or_unknown reported.cpex_version
                                                        ++ "). Running anyway would drop those fields silently, so this plugin is failed closed at startup; upgrade the cpex package in the plugin's venv."))))))))))))))

judge : Plugin → List String → List String → WorkerCapabilities → Result (Unit {0})
judge p required [] reported = ok tt
judge p required (f ∷ missing) reported = err (missing_features p (f ∷ missing) reported)

judge_probe : Plugin → List String → Result WorkerCapabilities → Result (Unit {0})
unfolding judge has display
judge_probe p required (ok reported) =
    judge p required (filter (λ f. not (has f reported)) required) reported
judge_probe p required (err e) =
    if any (λ f. f == feature_cmf_hooks) required
    then err (
        config (
          "plugin '"
          ++ (p.config.name
              ++ ("' declares an LLM hook, but the worker's `cmf_hooks` support could not be verified ("
                  ++ (display e ++ "); upgrade the cpex package in the plugin's venv")))))
    else err e

judge_required : Plugin → List String → Result WorkerCapabilities → Result (Unit {0})
judge_required p [] probe = ok tt
judge_required p (f ∷ required) probe = judge_probe p (f ∷ required) probe

-- `probe` is what `capabilities` of the worker answers where it is asked.
unfoldable pub verify_worker_understands : Plugin → Result WorkerCapabilities → Result (Unit {0})
unfolding judge_required judge_probe required_worker_features missing_features join_more
verify_worker_understands p probe = judge_required p (required_worker_features p) probe

or_worker_name : String → Option String → String
or_worker_name hook_name none = worker_hook_name hook_name
or_worker_name hook_name (some legacy) = legacy

unfoldable pub worker_hook_for : String → (legacy_cmf : Bool) → String
unfolding or_worker_name
worker_hook_for hook_name legacy_cmf =
    if legacy_cmf
    then or_worker_name hook_name (legacy_hook_name hook_name)
    else worker_hook_name hook_name

-- `reported` is what the handshake left, if it answered.
unfoldable pub needs_legacy_cmf : Option WorkerCapabilities → Bool
needs_legacy_cmf none = true
needs_legacy_cmf (some c) = not (has feature_cmf_hooks c)
