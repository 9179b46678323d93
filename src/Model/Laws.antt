-- ===== src/Model/Laws.antt =====
-- What validation, election and resolution of AI models promise (src/ai/aimodels.go).
use mogenius_operator.Prelude.{
  All, All-of, ◌⊎◌, String, Bool, true, false, not, ◌&&◌, ◌||◌, some, List, [], ◌∷◌, ◌==◌, ◌≤◌,
  if◌then◌else◌, filter_by, any, ◌≡◌, refl, arith, ◌↔◌, Bool-cases, inl, inr, ap, In, first,
  filter_by-In, In-filter_by, ◌⊎◌,
}
use mogenius_operator.Prelude.Sort.{sort, In-sort, first-In, first-sort-least}
use mogenius_operator.Prelude.Text.{switch_ne, trim_space, trim_slash, trim_space_twice}
use mogenius_operator.Model.{
  AiModelSpec, AiModel, done, validate_ai_model_spec, pick_default_ai_model, no_ref,
  normalize_ai_model_spec, is_older, validate_ai_model_default_unique, restates_default,
}

-- A url that was cleared or kept is kept as it is by a second pass.
url_twice :
    (sdk url : String) (b : Bool)
    → restates_default sdk url ≡ b
    → trim_space url ≡ url
    → (if restates_default sdk (trim_space (if b then "" else url))
        then ""
        else trim_space (if b then "" else url))
      ≡ (if b then "" else url)
unfolding trim_space trim_slash
url_twice sdk url true e t = ground arith
url_twice sdk url false e t = rw t (rw e refl)

-- NormalizeAiModelSpec is idempotent: a spec that went through it is left alone.
pub normalize_twice :
    (spec : AiModelSpec)
    → normalize_ai_model_spec (normalize_ai_model_spec spec) ≡ normalize_ai_model_spec spec
unfolding normalize_ai_model_spec
normalize_twice spec =
    let url = trim_space spec.api_url in
    ap (λ u. record spec { api_url = u })
      (url_twice spec.sdk url (restates_default spec.sdk url) refl (trim_space_twice spec.api_url))

-- The spec is complete: a known SDK, a model, and what the SDK needs.
abbrev pub is_complete : AiModelSpec → Bool
is_complete spec =
    not (spec.model == "")
    && (spec.sdk == "ollama" && not (spec.api_url == "")
        || (spec.sdk == "openai" || spec.sdk == "anthropic")
          && not (no_ref spec.api_key_secret_ref))

-- ValidateAiModelSpec accepts exactly the complete specs.
pub validate_iff_complete :
    (spec : AiModelSpec) → (validate_ai_model_spec spec ≡ done tt) ↔ (is_complete spec ≡ true)
unfolding validate_ai_model_spec
validate_iff_complete spec = ground (
  arith,
  switch_ne spec.sdk "ollama" "openai" refl,
  switch_ne spec.sdk "ollama" "anthropic" refl,
  switch_ne spec.sdk "openai" "ollama" refl,
  switch_ne spec.sdk "anthropic" "ollama" refl,
)

older-below : (a b : AiModel) → is_older a b ≡ true → a.creation_timestamp ≤ b.creation_timestamp
unfolding is_older
older-below a b h = ground arith

older-above : (a b : AiModel) → is_older a b ≡ false → b.creation_timestamp ≤ a.creation_timestamp
unfolding is_older
older-above a b h = ground arith

pick_default_parts :
    (models : List AiModel) (m : AiModel)
    → pick_default_ai_model models ≡ some m
    → In m models
      × (m.spec.default ≡ true)
      × ((o : AiModel)
          → In o models
          → o.spec.default ≡ true
          → m.creation_timestamp ≤ o.creation_timestamp)
unfolding pick_default_ai_model
pick_default_parts models m h =
    let marked = λ (x : AiModel). x.spec.default in
    let defaults = filter_by marked models in
    let (i, d) =
      In-filter_by marked models m
        (In-sort is_older defaults m (first-In (sort is_older defaults) m h)) in
    (
      i,
      d,
      λ o io dd.
          first-sort-least is_older (λ x. x.creation_timestamp) older-below older-above defaults m h
            o (filter_by-In marked models o io dd),
    )

-- PickDefaultAiModel returns a model of the list that is marked as default, and no marked model of
-- the list is older.
pub pick_default_oldest :
    (models : List AiModel) (m : AiModel)
    → pick_default_ai_model models ≡ some m
    → In m models
      × (m.spec.default ≡ true)
      × All
          (λ (o : AiModel).
            (o.spec.default ≡ false) ⊎ (m.creation_timestamp ≤ o.creation_timestamp))
          models
pick_default_oldest models m h =
    let (i, d, least) = pick_default_parts models m h in
    (
      i,
      d,
      All-of _ models
          (λ o io. elim (Bool-cases o.spec.default) [ inl e ↦ inr (least o io e) | inr e ↦ inl e ]),
    )

no_other_default :
    (name : String) (others : List AiModel)
    → any (λ m. not (m.name == name) && m.spec.default) others ≡ false
    → ((o : AiModel) → In o others → (o.name == name) ≡ false)
    → filter_by (λ m. m.spec.default) others ≡ []
no_other_default name [] h distinct = refl
no_other_default name (o ∷ others) h distinct = ground (
  arith,
  distinct o (inl refl),
  no_other_default name others (ground arith) (λ x i. distinct x (inr i)),
)

marked_alone :
    (m : AiModel) (others : List AiModel)
    → m.spec.default ≡ true
    → filter_by (λ (x : AiModel). x.spec.default) others ≡ []
    → filter_by (λ (x : AiModel). x.spec.default) (m ∷ others) ≡ m ∷ []
marked_alone m others d e = ground arith

-- An accepted default is the elected one: once ValidateAiModelDefaultUnique has accepted a model
-- marked as default against models of other names, PickDefaultAiModel returns that model from the
-- list with it among them.
pub accepted_default_is_elected :
    (m : AiModel) (others : List AiModel)
    → m.spec.default ≡ true
    → ((o : AiModel) → In o others → (o.name == m.name) ≡ false)
    → validate_ai_model_default_unique m.name m.spec others ≡ done tt
    → pick_default_ai_model (m ∷ others) ≡ some m
unfolding validate_ai_model_default_unique pick_default_ai_model sort
accepted_default_is_elected m others d distinct h =
    ap (λ l. first (sort is_older l))
      (marked_alone m others d (no_other_default m.name others (ground arith) distinct))
