-- ===== src/Model/Resolve.antt =====
-- src/ai/aimodels.go: resolveApiKeyFromRef, resolveAiModel, resolveAiModelForProbe,
-- resolveModelConfig, resolveChatModelConfig and applyAgentBudgetOverrides.
use mogenius_operator.Prelude.{
  ℕ, String, Bool, Option, none, some, List, ◌==◌, if◌then◌else◌, find_first,
}
use mogenius_operator.Prelude.Assoc.{Assoc, lookup}
use mogenius_operator.Model.{
  SecretKeyRef, AiModel, AiSdkType, Outcome, done, error, ◌>>=◌, parse_sdk_type,
  validate_ai_model_spec, pick_default_ai_model, pick_chat_model, secret_not_found, key_not_found,
  no_own_namespace, list_failed, get_failed, model_not_found, no_default,
}

-- What the manager reads: its own namespace, the models of that namespace, whether the list or the
-- read of one model fails, and the secrets of the store's cache and of the API server (`none` is a
-- failed read), by namespace and name.
pub record Cluster : Type 0 where
  pub own_namespace : Option String
  pub models : List AiModel
  pub list_fails : Bool
  pub get_fails : String → Bool
  pub cached_secret : String → String → Option (Assoc String)
  pub api_secret : String → String → Option (Assoc String)

pub record ResolvedModelConfig : Type 0 where
  pub source : String
  pub model_cr_name : String
  pub sdk : AiSdkType
  pub model : String
  pub api_key : String
  pub base_url : String
  pub max_tool_calls : ℕ
  pub max_tokens_per_run : ℕ
  pub daily_token_limit : ℕ

-- The budget fields of an agent's spec, and its model reference.
pub record AgentBudget : Type 0 where
  pub model_ref : String
  pub max_tool_calls : Option ℕ
  pub max_tokens_per_run : Option ℕ

abbrev pub default_max_tool_calls : ℕ
default_max_tool_calls = 50

abbrev pub default_max_tokens_per_run : ℕ
default_max_tokens_per_run = 30_000

abbrev pub default_daily_token_limit : ℕ
default_daily_token_limit = 300_000

-- `if p != nil { x = *p }`
abbrev pub override : Option ℕ → ℕ → ℕ
override none x = x
override (some n) x = n

abbrev non_empty_key : Option String → Outcome String
non_empty_key none = error key_not_found
non_empty_key (some value) = if value == "" then error key_not_found else done value

abbrev or_api_read : Option (Assoc String) → Option (Assoc String) → Outcome (Assoc String)
or_api_read (some secret) api = done secret
or_api_read none (some secret) = done secret
or_api_read none none = error secret_not_found

-- `key == ""` means DefaultApiKeySecretKey.
unfoldable pub secret_key : SecretKeyRef → String
secret_key ref = if ref.key == "" then "API_KEY" else ref.key

abbrev read_ref : Cluster → String → Option SecretKeyRef → Outcome String
read_ref c namespace none = done ""
read_ref c namespace (some ref) = if ref.name == "" then done "" else do
  secret ← or_api_read (c.cached_secret namespace ref.name) (c.api_secret namespace ref.name)
  non_empty_key (lookup (secret_key ref) secret)

unfoldable pub resolve_api_key_from_ref : Cluster → String → Option SecretKeyRef → Outcome String
resolve_api_key_from_ref = read_ref

unfoldable pub resolve_ai_model : Cluster → AiModel → String → Outcome ResolvedModelConfig
resolve_ai_model c m source = do
  valid ← validate_ai_model_spec m.spec
  sdk ← parse_sdk_type m.spec.sdk
  api_key ← resolve_api_key_from_ref c m.namespace m.spec.api_key_secret_ref
  done (record {
    source = source;
    model_cr_name = m.name;
    sdk = sdk;
    model = m.spec.model;
    api_key = api_key;
    base_url = m.spec.api_url;
    max_tool_calls = override m.spec.max_tool_calls default_max_tool_calls;
    max_tokens_per_run = override m.spec.max_tokens_per_run default_max_tokens_per_run;
    daily_token_limit = override m.spec.daily_token_limit default_daily_token_limit;
  })

abbrev pub with_probe_ref : Option SecretKeyRef → Option SecretKeyRef
with_probe_ref none = some (record { name = "probe-override"; key = "" })
with_probe_ref (some ref) = some ref

unfoldable pub resolve_ai_model_for_probe : Cluster → AiModel → String → Outcome ResolvedModelConfig
resolve_ai_model_for_probe c m api_key_override =
    if api_key_override == "" then resolve_ai_model c m "test" else do
      valid ←
          validate_ai_model_spec
            (record m.spec { api_key_secret_ref = with_probe_ref m.spec.api_key_secret_ref })
      sdk ← parse_sdk_type m.spec.sdk
      done (record {
        source = "test";
        model_cr_name = m.name;
        sdk = sdk;
        model = m.spec.model;
        api_key = api_key_override;
        base_url = m.spec.api_url;
        max_tool_calls = 0;
        max_tokens_per_run = 0;
        daily_token_limit = 0;
      })

-- listAiModels, getDefaultAiModel and store.GetAiModel
unfoldable pub list_ai_models : Cluster → Outcome (List AiModel)
list_ai_models c = elim c.own_namespace [
  | none ↦ error no_own_namespace
  | some ns ↦ if c.list_fails then error list_failed else done c.models
]

abbrev pub default_of : Outcome (List AiModel) → Option AiModel
default_of (error e) = none
default_of (done models) = pick_default_ai_model models

unfoldable pub get_default_ai_model : Cluster → Option AiModel
get_default_ai_model c = default_of (list_ai_models c)

abbrev pub or_not_found : Option AiModel → Outcome AiModel
or_not_found none = error model_not_found
or_not_found (some m) = done m

unfoldable pub get_ai_model : Cluster → String → Outcome AiModel
get_ai_model c name = elim c.own_namespace [
  | none ↦ error no_own_namespace
  | some ns ↦
      if c.get_fails name
      then error get_failed
      else or_not_found (find_first (λ m. m.name == name) c.models)
]

unfoldable pub apply_agent_budget_overrides :
    ResolvedModelConfig → Option AgentBudget → ResolvedModelConfig
apply_agent_budget_overrides resolved none = resolved
apply_agent_budget_overrides resolved (some agent) = record resolved {
  max_tool_calls = override agent.max_tool_calls resolved.max_tool_calls;
  max_tokens_per_run = override agent.max_tokens_per_run resolved.max_tokens_per_run;
}

-- `agentSpec != nil && agentSpec.ModelRef != ""`
abbrev pub explicit_ref : Option AgentBudget → Option String
explicit_ref none = none
explicit_ref (some agent) = if agent.model_ref == "" then none else some agent.model_ref

abbrev pub resolve_default : Cluster → Option AiModel → Outcome ResolvedModelConfig
resolve_default c none = error no_default
resolve_default c (some m) = resolve_ai_model c m "default"

abbrev pub resolve_chosen : Cluster → Option String → Outcome ResolvedModelConfig
resolve_chosen c none = resolve_default c (get_default_ai_model c)
resolve_chosen c (some name) = do m ← get_ai_model c name; resolve_ai_model c m "modelRef"

unfoldable pub resolve_model_config : Cluster → Option AgentBudget → Outcome ResolvedModelConfig
resolve_model_config c agent = do
  resolved ← resolve_chosen c (explicit_ref agent)
  done (apply_agent_budget_overrides resolved agent)

unfoldable pub resolve_chat_model_config : Cluster → String → Outcome ResolvedModelConfig
resolve_chat_model_config c model_ref = do
  models ← list_ai_models c
  m ← pick_chat_model models model_ref
  resolve_ai_model c m "chat"
