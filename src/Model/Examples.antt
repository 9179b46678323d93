-- ===== src/Model/Examples.antt =====
-- The properties of the model resources at concrete models, and runs of the code on them.
use mogenius_operator.Prelude.{true, false, none, some, [], ◌∷◌, ◌==◌, ◌≡◌, refl, In, inl, inr}
use mogenius_operator.Prelude.Sort.{sort}
use mogenius_operator.Prelude.Text.{trim_space, trim_slash}
use mogenius_operator.Prelude.Assoc.{lookup}
use mogenius_operator.Model.{
  AiModelSpec, AiModel, done, normalize_ai_model_spec, default_api_url_for_sdk,
  validate_ai_model_spec, validate_ai_model_default_unique, pick_default_ai_model, pick_chat_model,
  is_older, parse_sdk_type, validate_for_sdk, openai,
}
use mogenius_operator.Model.Resolve.{
  Cluster, ResolvedModelConfig, AgentBudget, resolve_model_config, resolve_ai_model, get_ai_model,
  resolve_api_key_from_ref, apply_agent_budget_overrides, secret_key,
}
use mogenius_operator.Model.Laws.{accepted_default_is_elected}
use mogenius_operator.Model.Chat.{answers, pick_chat_model_sound}
use mogenius_operator.Model.Precedence.{Configured, resolve_model_config-Configured}

abbrev pub gpt : AiModelSpec
gpt = record {
  display_name = "GPT";
  sdk = "openai";
  model = "gpt-5";
  api_url = " https://api.openai.com/v1/ ";
  api_key_secret_ref = some (record { name = "keys"; key = "" });
  default = true;
  chat_enabled = true;
  max_tool_calls = some 20;
  max_tokens_per_run = none;
  daily_token_limit = none;
}

abbrev pub model_a : AiModel
model_a = record { name = "a"; namespace = "mogenius"; creation_timestamp = 7; spec = gpt }

abbrev pub model_b : AiModel
model_b = record {
  name = "b";
  namespace = "mogenius";
  creation_timestamp = 3;
  spec = record gpt { default = false };
}

abbrev pub cluster : Cluster
cluster = record {
  own_namespace = some "mogenius";
  models = model_b ∷ model_a ∷ [];
  list_fails = false;
  get_fails = λ name. false;
  cached_secret = λ namespace name. none;
  api_secret = λ namespace name. some (("API_KEY", "sk-1") ∷ []);
}

abbrev pub agent : AgentBudget
agent = record { model_ref = "b"; max_tool_calls = some 5; max_tokens_per_run = none }

abbrev pub config_b : ResolvedModelConfig
config_b = record {
  source = "modelRef";
  model_cr_name = "b";
  sdk = openai;
  model = "gpt-5";
  api_key = "sk-1";
  base_url = " https://api.openai.com/v1/ ";
  max_tool_calls = 5;
  max_tokens_per_run = 30_000;
  daily_token_limit = 300_000;
}

the_normal_url_is_empty : (normalize_ai_model_spec gpt).api_url ≡ ""
unfolding normalize_ai_model_spec default_api_url_for_sdk trim_space trim_slash
the_normal_url_is_empty = refl

pick_default : pick_default_ai_model (model_b ∷ model_a ∷ []) ≡ some model_a
unfolding pick_default_ai_model sort is_older
pick_default = refl

accepted : validate_ai_model_default_unique "a" gpt (model_b ∷ []) ≡ done tt
unfolding validate_ai_model_default_unique
accepted = refl

only_b : (o : AiModel) → In o (model_b ∷ []) → (o.name == "a") ≡ false
only_b o (inl e) = rw e refl
only_b o (inr m) = elim m [ ]

accepted_default_is_elected_example : pick_default_ai_model (model_a ∷ model_b ∷ []) ≡ some model_a
accepted_default_is_elected_example =
    accepted_default_is_elected model_a (model_b ∷ []) refl only_b accepted

pick_chat : pick_chat_model (model_b ∷ model_a ∷ []) "" ≡ done model_a
unfolding pick_chat_model
pick_chat = refl

pick_chat_model_sound_example :
    In model_a (model_b ∷ model_a ∷ [])
    × (model_a.spec.chat_enabled ≡ true)
    × (answers (model_b ∷ model_a ∷ []) "" model_a ≡ true)
pick_chat_model_sound_example = pick_chat_model_sound (model_b ∷ model_a ∷ []) "" model_a pick_chat

resolved_b : resolve_model_config cluster (some agent) ≡ done config_b
unfolding resolve_model_config resolve_ai_model get_ai_model resolve_api_key_from_ref
    apply_agent_budget_overrides validate_ai_model_spec parse_sdk_type validate_for_sdk secret_key
    lookup
resolved_b = refl

resolve_model_config-Configured_example : Configured cluster (some agent) config_b
resolve_model_config-Configured_example =
    resolve_model_config-Configured cluster (some agent) config_b resolved_b
