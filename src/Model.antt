-- ===== src/Model.antt =====
-- src/ai/aimodels.go: AI model resources, their validation, the election of the default and of the
-- chat model, and the resolution of one run's configuration. Limits are natural numbers: the
-- resource's schema (src/crds/v1alpha1/type_aimodel.go, type_agent.go) refuses negative ones.
pub mod Resolve
pub mod Laws
pub mod Chat
pub mod Precedence
pub mod Examples
use Prim.Native.String.{compare}
use mogenius_operator.Prelude.{
  ℕ, String, Bool, true, false, not, ◌&&◌, ◌||◌, Option, none, some, List, [], ◌∷◌, ◌==◌, eqb, ltb,
  if◌then◌else◌, is_empty, filter_by, find_first, first, any, is_some,
}
use mogenius_operator.Prelude.Assoc.{Assoc, lookup}
use mogenius_operator.Prelude.Sort.{sort}
use mogenius_operator.Prelude.Text.{trim_space, trim_slash}
use text.Mathlib.Text.{is_lt}

pub record SecretKeyRef : Type 0 where
  pub name : String
  pub key : String

pub record AiModelSpec : Type 0 where
  pub display_name : String
  pub sdk : String
  pub model : String
  pub api_url : String
  pub api_key_secret_ref : Option SecretKeyRef
  pub default : Bool
  pub chat_enabled : Bool
  pub max_tool_calls : Option ℕ
  pub max_tokens_per_run : Option ℕ
  pub daily_token_limit : Option ℕ

-- The fields of the resource's metadata that the code reads.
pub record AiModel : Type 0 where
  pub name : String
  pub namespace : String
  pub creation_timestamp : ℕ
  pub spec : AiModelSpec

pub data AiSdkType : Type 0 where
  openai anthropic ollama : AiSdkType

pub data ModelError : Type 0 where
  unsupported_sdk model_empty api_url_required api_key_required : ModelError
  secret_not_found key_not_found : ModelError
  no_own_namespace list_failed get_failed : ModelError
  model_not_found no_default default_taken chat_not_enabled no_chat_model : ModelError

pub data Outcome (A : Type 0) : Type 0 where
  done : A → Outcome A
  error : ModelError → Outcome A

infixl 5 ◌>>=◌
abbrev pub ◌>>=◌ : {A B : Type 0} → Outcome A → (A → Outcome B) → Outcome B
done a >>= f = f a
error e >>= f = error e

unfoldable pub default_api_url_for_sdk : String → String
default_api_url_for_sdk sdk =
    if sdk == "openai"
    then "https://api.openai.com/v1"
    else if sdk == "anthropic"
    then "https://api.anthropic.com"
    else ""

-- The test of NormalizeAiModelSpec: the url only restates the SDK's default.
abbrev pub restates_default : String → String → Bool
restates_default sdk url =
    not (default_api_url_for_sdk sdk == "") && trim_slash url == default_api_url_for_sdk sdk

unfoldable pub normalize_ai_model_spec : AiModelSpec → AiModelSpec
normalize_ai_model_spec spec =
    let url = trim_space spec.api_url in
    record spec { api_url = if restates_default spec.sdk url then "" else url }

unfoldable pub parse_sdk_type : String → Outcome AiSdkType
parse_sdk_type value =
    if value == "openai"
    then done openai
    else if value == "anthropic"
    then done anthropic
    else if value == "ollama"
    then done ollama
    else error unsupported_sdk

-- `ref == nil || ref.Name == ""`
abbrev pub no_ref : Option SecretKeyRef → Bool
no_ref none = true
no_ref (some ref) = ref.name == ""

-- The second switch of ValidateAiModelSpec.
unfoldable pub validate_for_sdk : AiSdkType → AiModelSpec → Outcome (Unit {0})
validate_for_sdk ollama spec = if spec.api_url == "" then error api_url_required else done tt
validate_for_sdk openai spec =
    if no_ref spec.api_key_secret_ref then error api_key_required else done tt
validate_for_sdk anthropic spec =
    if no_ref spec.api_key_secret_ref then error api_key_required else done tt

unfoldable pub validate_ai_model_spec : AiModelSpec → Outcome (Unit {0})
unfolding parse_sdk_type validate_for_sdk
validate_ai_model_spec spec = do
  sdk ← parse_sdk_type spec.sdk
  if spec.model == "" then error model_empty else validate_for_sdk sdk spec

-- ValidateAiModelDefaultUnique
unfoldable pub validate_ai_model_default_unique :
    String → AiModelSpec → List AiModel → Outcome (Unit {0})
validate_ai_model_default_unique name spec existing =
    if not spec.default
    then done tt
    else if any (λ m. not (m.name == name) && m.spec.default) existing
    then error default_taken
    else done tt

-- The order of PickDefaultAiModel and pickChatModel: the creation time, then the name.
unfoldable pub is_older : AiModel → AiModel → Bool
is_older a b =
    if not (eqb a.creation_timestamp b.creation_timestamp)
    then ltb a.creation_timestamp b.creation_timestamp
    else is_lt (compare a.name b.name)

unfoldable pub pick_default_ai_model : List AiModel → Option AiModel
pick_default_ai_model models = first (sort is_older (filter_by (λ m. m.spec.default) models))

-- `for i := range chatModels { if chatModels[i].Spec.Default { return … } }`, then the oldest.
abbrev pub preferred_chat_model : List AiModel → Option AiModel → Outcome AiModel
preferred_chat_model chat_models (some m) = done m
preferred_chat_model chat_models none = elim (first (sort is_older chat_models)) [
  | none ↦ error no_chat_model
  | some m ↦ done m
]

abbrev pub named_chat_model : List AiModel → String → Option AiModel → Outcome AiModel
named_chat_model models model_ref (some m) = done m
named_chat_model models model_ref none =
    if any (λ m. m.name == model_ref) models then error chat_not_enabled else error model_not_found

unfoldable pub pick_chat_model : List AiModel → String → Outcome AiModel
pick_chat_model models model_ref =
    let chat_models = filter_by (λ m. m.spec.chat_enabled) models in
    if not (model_ref == "")
    then named_chat_model models model_ref (find_first (λ m. m.name == model_ref) chat_models)
    else if is_empty chat_models
    then error no_chat_model
    else preferred_chat_model chat_models (find_first (λ m. m.spec.default) chat_models)
