-- ===== src/Search.antt =====
-- The search over the resource index (src/store/store.go: ParseSearchQuery, SearchConstraint,
-- SearchFilterGroup, BuildSearchFilterGroups). strings.ToLower is a parameter.
use mogenius_operator.Prelude.{
  String, Bool, true, false, not, ◌||◌, Option, none, some, List, [], ◌∷◌, ◌++◌, ◌==◌,
  if◌then◌else◌, is_empty,
}
use mogenius_operator.Prelude.Affixes.{strip_prefix}
use mogenius_operator.Prelude.Text.{cut, trim_space, has_prefix}
mod Plan
mod Planned
mod Merge
mod Ranked
mod Merged
mod Negated
mod Examples

pub record SearchQuery : Type 0 where
  pub term : String
  pub field : String
  pub negate : Bool

pub record SearchFilter : Type 0 where
  pub field : String
  pub operator : String
  pub value : String

pub record SearchConstraint : Type 0 where
  pub operator : String
  pub value : String

pub record SearchFilterGroup : Type 0 where
  pub field : String
  pub operator : String
  pub constraints : List SearchConstraint

-- The attributes of a resource.
pub record Attributes : Type 0 where
  pub name : String
  pub kind : String
  pub namespace : String
  pub api_version : String

-- `strings.Contains(s, term)`
unfoldable pub includes : String → String → Bool
includes String.[] term = term == String.[]
includes (String.◌∷◌ c s) term = has_prefix term (String.◌∷◌ c s) || includes s term

-- `strings.EqualFold(operator, "or")`
abbrev pub is_or : String → Bool
is_or operator = operator == "or" || operator == "OR" || operator == "Or" || operator == "oR"

-- negated
unfoldable pub is_negated : SearchConstraint → Bool
is_negated c = c.operator == "notContains" || c.operator == "notEquals"

module _ (to_lower : String → String) where
  abbrev is_field : String → Bool
  is_field f = f == "name" || f == "kind" || f == "namespace" || f == "apiversion" || f == "group"

  abbrev plain : Bool → String → SearchQuery
  plain negate s = record { term = s; field = ""; negate = negate }

  abbrev scoped : Bool → String → Option (String × String) → SearchQuery
  scoped negate s none = plain negate s
  scoped negate s (some (field, term)) =
      if is_field (trim_space field)
      then record { term = trim_space term; field = trim_space field; negate = negate }
      else plain negate s

  abbrev parse_positive : Bool → String → SearchQuery
  parse_positive negate s = if s == "" then plain false "" else scoped negate s (cut ":" s)

  abbrev parse_negation : String → Option String → SearchQuery
  parse_negation s none = parse_positive false s
  parse_negation s (some rest) = parse_positive true (trim_space rest)

  unfoldable pub parse_search_query : String → SearchQuery
  parse_search_query search =
      let s = to_lower (trim_space search) in
      if s == "" then plain false "" else parse_negation s (strip_prefix "!" s)

  -- match
  unfoldable pub match_constraint : SearchConstraint → String → Bool
  match_constraint c v =
      let term = to_lower (trim_space c.value) in
      let value = to_lower v in
      if c.operator == "equals"
      then value == term
      else if c.operator == "notEquals"
      then not (value == term)
      else if c.operator == "notContains"
      then not (includes value term)
      else includes value term

  unfoldable pub normalize_search_field : String → String
  normalize_search_field field =
      let f = to_lower (trim_space field) in if f == "group" then "apiversion" else f

  -- The loop over the constraints, joined by or or and, with the test of one constraint.
  unfoldable pub joined_by : Bool → (SearchConstraint → Bool) → List SearchConstraint → Bool
  joined_by or_ test [] = not or_
  joined_by or_ test (c ∷ cs) =
      let later = joined_by or_ test cs in
      if or_ then (if test c then true else later) else if test c then later else false

  unfoldable pub match_value : SearchFilterGroup → String → Bool
  unfolding joined_by
  match_value g v =
      if is_empty g.constraints
      then true
      else joined_by (is_or g.operator) (λ c. match_constraint c v) g.constraints

  abbrev pub attribute_list : Attributes → List String
  attribute_list a = a.name ∷ a.kind ∷ a.namespace ∷ a.api_version ∷ []

  unfoldable pub some_match : SearchConstraint → List String → Bool
  some_match c [] = false
  some_match c (a ∷ rest) =
      let later = some_match c rest in if match_constraint c a then true else later

  unfoldable pub every_match : SearchConstraint → List String → Bool
  every_match c [] = true
  every_match c (a ∷ rest) =
      let later = every_match c rest in if match_constraint c a then later else false

  unfoldable pub matched_anywhere : Attributes → SearchConstraint → Bool
  unfolding some_match every_match
  matched_anywhere a c =
      if is_negated c then every_match c (attribute_list a) else some_match c (attribute_list a)

  unfoldable pub matches_any_attribute : SearchFilterGroup → Attributes → Bool
  unfolding joined_by matched_anywhere
  matches_any_attribute g a =
      if is_empty g.constraints
      then true
      else joined_by (is_or g.operator) (matched_anywhere a) g.constraints

  unfoldable pub matches : SearchFilterGroup → Attributes → Bool
  unfolding match_value matches_any_attribute
  matches g a =
      let f = normalize_search_field g.field in
      if f == "name"
      then match_value g a.name
      else if f == "kind"
      then match_value g a.kind
      else if f == "namespace"
      then match_value g a.namespace
      else if f == "apiversion"
      then match_value g a.api_version
      else matches_any_attribute g a

  abbrev is_blank : String → Bool
  is_blank s = trim_space s == ""

  unfoldable pub compact_constraints : List SearchConstraint → List SearchConstraint
  compact_constraints [] = []
  compact_constraints (c ∷ cs) =
      let rest = compact_constraints cs in if is_blank c.value then rest else c ∷ rest

  abbrev single : String → String → String → SearchFilterGroup
  single field operator value = record {
    field = field;
    operator = "";
    constraints = record { operator = operator; value = value } ∷ [];
  }

  unfoldable pub of_query : SearchQuery → List SearchFilterGroup
  of_query q =
      if q.term == ""
      then []
      else single q.field (if q.negate then "notContains" else "") q.term ∷ []

  unfoldable pub of_filters : List SearchFilter → List SearchFilterGroup
  of_filters [] = []
  of_filters (f ∷ fs) =
      let rest = of_filters fs in
      if is_blank f.value then rest else single f.field f.operator f.value ∷ rest

  abbrev compacted_group :
      SearchFilterGroup → List SearchConstraint → List SearchFilterGroup → List SearchFilterGroup
  compacted_group g [] rest = rest
  compacted_group g (c ∷ cs) rest = record g { constraints = c ∷ cs } ∷ rest

  unfoldable pub of_groups : List SearchFilterGroup → List SearchFilterGroup
  unfolding compact_constraints
  of_groups [] = []
  of_groups (g ∷ gs) = compacted_group g (compact_constraints g.constraints) (of_groups gs)

  unfoldable pub build_search_filter_groups :
      String → List SearchFilter → List SearchFilterGroup → List SearchFilterGroup
  unfolding of_query of_filters of_groups parse_search_query
  build_search_filter_groups search filters groups =
      of_query (parse_search_query search) ++ (of_filters filters ++ of_groups groups)
