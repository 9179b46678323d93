-- ===== src/Model/Precedence.antt =====
-- Which model and which limits a run gets (resolveModelConfig, src/ai/aimodels.go).
use mogenius_operator.Prelude.{
  ℕ, String, Option, none, some, ◌==◌, find_first, ◌≡◌, refl, arith, eq_iff, ap, subst, In,
  find_first-eq_some,
}
use mogenius_operator.Model.{
  AiModel, Outcome, done, error, ◌>>=◌, validate_ai_model_spec, pick_default_ai_model,
}
use mogenius_operator.Model.Laws.{pick_default_oldest}
use mogenius_operator.Model.Resolve.{
  Cluster, ResolvedModelConfig, AgentBudget, override, default_max_tool_calls,
  default_max_tokens_per_run, default_daily_token_limit, resolve_ai_model, list_ai_models,
  get_default_ai_model, get_ai_model, resolve_model_config, apply_agent_budget_overrides,
  explicit_ref, resolve_chosen, resolve_default,
}

-- The parts of a configuration that come from the model.
pub record IsOf (m : AiModel) (r : ResolvedModelConfig) : Type 0 where
  pub valid : validate_ai_model_spec m.spec ≡ done tt
  pub name : r.model_cr_name ≡ m.name
  pub model : r.model ≡ m.spec.model
  pub base_url : r.base_url ≡ m.spec.api_url
  pub daily : r.daily_token_limit ≡ override m.spec.daily_token_limit default_daily_token_limit

resolve_ai_model-IsOf :
    (c : Cluster) (m : AiModel) (source : String) (r : ResolvedModelConfig)
    → resolve_ai_model c m source ≡ done r
    → IsOf m r
      × (r.max_tool_calls ≡ override m.spec.max_tool_calls default_max_tool_calls)
      × (r.max_tokens_per_run ≡ override m.spec.max_tokens_per_run default_max_tokens_per_run)
      × (r.source ≡ source)
unfolding resolve_ai_model
resolve_ai_model-IsOf c m source r h = ground arith

get_ai_model-done :
    (c : Cluster) (name : String) (m : AiModel)
    → get_ai_model c name ≡ done m
    → find_first (λ m. m.name == name) c.models ≡ some m
unfolding get_ai_model
get_ai_model-done c name m h = ground arith

-- How the model was found: the one that the agent names, or else the elected default.
abbrev pub ChosenBy : Cluster → Option String → AiModel → String → Type 0
ChosenBy c (some name) m source = (m.name ≡ name) × (source ≡ "modelRef")
ChosenBy c none m source = (pick_default_ai_model c.models ≡ some m) × (source ≡ "default")

-- What a run may rely on: the model is one of the manager's namespace, and its parts are taken.
record ComesFrom (c : Cluster) (ref : Option String) (r : ResolvedModelConfig) : Type 0 where
  pub chosen : AiModel
  pub listed : In chosen c.models
  pub by : ChosenBy c ref chosen r.source
  pub parts : IsOf chosen r
  pub tool_calls : r.max_tool_calls ≡ override chosen.spec.max_tool_calls default_max_tool_calls
  pub run_tokens :
      r.max_tokens_per_run ≡ override chosen.spec.max_tokens_per_run default_max_tokens_per_run

default_listed :
    (c : Cluster) (m : AiModel)
    → get_default_ai_model c ≡ some m
    → pick_default_ai_model c.models ≡ some m
unfolding get_default_ai_model list_ai_models
default_listed c m h = ground arith

default-ComesFrom :
    (c : Cluster) (o : Option AiModel) (r : ResolvedModelConfig)
    → get_default_ai_model c ≡ o
    → resolve_default c o ≡ done r
    → ComesFrom c none r
default-ComesFrom c none r e h = ground arith
default-ComesFrom c (some m) r e h =
    let is_of = resolve_ai_model-IsOf c m "default" r h in
    record {
      chosen = m;
      listed = (pick_default_oldest c.models m (default_listed c m e)).0;
      by = (default_listed c m e, is_of.3);
      parts = is_of.0;
      tool_calls = is_of.1;
      run_tokens = is_of.2;
    }

named-ComesFrom :
    (c : Cluster) (name : String) (o : Outcome AiModel) (r : ResolvedModelConfig)
    → get_ai_model c name ≡ o
    → (o >>= (λ m. resolve_ai_model c m "modelRef")) ≡ done r
    → ComesFrom c (some name) r
named-ComesFrom c name (error x) r e h = ground arith
named-ComesFrom c name (done m) r e h =
    let is_of = resolve_ai_model-IsOf c m "modelRef" r h in
    let found =
      find_first-eq_some (λ (x : AiModel). x.name == name) c.models m
        (get_ai_model-done c name m e) in
    record {
      chosen = m;
      listed = found.0;
      by = ((eq_iff m.name name).0 found.1, is_of.3);
      parts = is_of.0;
      tool_calls = is_of.1;
      run_tokens = is_of.2;
    }

resolve_chosen-ComesFrom :
    (c : Cluster) (ref : Option String) (r : ResolvedModelConfig)
    → resolve_chosen c ref ≡ done r
    → ComesFrom c ref r
resolve_chosen-ComesFrom c none r h = default-ComesFrom c (get_default_ai_model c) r refl h
resolve_chosen-ComesFrom c (some name) r h = named-ComesFrom c name (get_ai_model c name) r refl h

-- What applyAgentBudgetOverrides leaves: the agent's limit where it sets one.
abbrev pub agent_limit : (AgentBudget → Option ℕ) → Option AgentBudget → ℕ → ℕ
agent_limit field none x = x
agent_limit field (some agent) x = override (field agent) x

-- What the configuration of a run owes to the model and to the agent.
pub record Configured (c : Cluster) (agent : Option AgentBudget) (r : ResolvedModelConfig)
    : Type 0 where
  pub chosen : AiModel
  pub listed : In chosen c.models
  pub by : ChosenBy c (explicit_ref agent) chosen r.source
  pub parts : IsOf chosen r
  pub tool_calls :
      r.max_tool_calls
      ≡ agent_limit
          (λ a. a.max_tool_calls)
          agent
          (override chosen.spec.max_tool_calls default_max_tool_calls)
  pub run_tokens :
      r.max_tokens_per_run
      ≡ agent_limit
          (λ a. a.max_tokens_per_run)
          agent
          (override chosen.spec.max_tokens_per_run default_max_tokens_per_run)

budget-Configured :
    (c : Cluster) (agent : Option AgentBudget) (r : ResolvedModelConfig)
    → ComesFrom c (explicit_ref agent) r
    → Configured c agent (apply_agent_budget_overrides r agent)
unfolding apply_agent_budget_overrides
budget-Configured c none r from = record {
  chosen = from.chosen;
  listed = from.listed;
  by = from.by;
  parts = from.parts;
  tool_calls = from.tool_calls;
  run_tokens = from.run_tokens;
}
budget-Configured c (some agent) r from = record {
  chosen = from.chosen;
  listed = from.listed;
  by = from.by;
  parts = record {
    valid = from.parts.valid;
    name = from.parts.name;
    model = from.parts.model;
    base_url = from.parts.base_url;
    daily = from.parts.daily;
  };
  tool_calls = ap (override agent.max_tool_calls) from.tool_calls;
  run_tokens = ap (override agent.max_tokens_per_run) from.run_tokens;
}

overridden :
    (c : Cluster) (agent : Option AgentBudget) (o : Outcome ResolvedModelConfig)
    (r : ResolvedModelConfig)
    → resolve_chosen c (explicit_ref agent) ≡ o
    → (o >>= (λ x. done (apply_agent_budget_overrides x agent))) ≡ done r
    → Configured c agent r
overridden c agent (error e) r eq h = ground arith
overridden c agent (done x) r eq h =
    subst (Configured c agent) (cc h)
      (budget-Configured c agent x (resolve_chosen-ComesFrom c (explicit_ref agent) x eq))

-- A configuration that resolveModelConfig returns is of a valid model of the manager's namespace:
-- the one that the agent names, never another, or the elected default where it names none; the
-- limits per run are the agent's where it sets them, then the model's, then the built-in ones.
pub resolve_model_config-Configured :
    (c : Cluster) (agent : Option AgentBudget) (r : ResolvedModelConfig)
    → resolve_model_config c agent ≡ done r
    → Configured c agent r
unfolding resolve_model_config
resolve_model_config-Configured c agent r h =
    overridden c agent (resolve_chosen c (explicit_ref agent)) r refl h
