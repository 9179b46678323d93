-- ===== src/Search/Negated.antt =====
-- Negated search terms (src/store/store.go: matchesAnyAttribute).
use mogenius_operator.Prelude.{
  String, Bool, true, false, not, List, [], ◌∷◌, ◌≡◌, refl, if◌then◌else◌,
}
use mogenius_operator.Search.{
  SearchConstraint, SearchFilterGroup, Attributes, is_negated, match_constraint, some_match,
  every_match, matched_anywhere, joined_by, matches_any_attribute, attribute_list,
}

module _ (to_lower : String → String) where
  -- No attribute contains the term exactly where it is not so that one does.
  opposite_lem :
      (c d : SearchConstraint) (attrs : List String)
      → ((v : String) → match_constraint to_lower d v ≡ not (match_constraint to_lower c v))
      → every_match to_lower d attrs ≡ not (some_match to_lower c attrs)
  unfolding every_match some_match
  opposite_lem c d [] h = refl
  opposite_lem c d (a ∷ attrs) h =
      rw (h a) (chosen (match_constraint to_lower c a) (opposite_lem c d attrs h))
    where
      chosen :
          (b : Bool)
          → every_match to_lower d attrs ≡ not (some_match to_lower c attrs)
          → (if not b then every_match to_lower d attrs else false)
            ≡ not (if b then true else some_match to_lower c attrs)
      chosen true e = refl
      chosen false e = e

  abbrev term : String → String → SearchFilterGroup
  term operator value = record {
    field = "";
    operator = "";
    constraints = record { operator = operator; value = value } ∷ [];
  }

  both : (e s : Bool) → e ≡ not s → (if e then true else false) ≡ not (if s then true else false)
  both true true h = h
  both true false h = h
  both false true h = h
  both false false h = h

  -- A group of one negated constraint on any attribute matches a resource exactly where the group
  -- with the positive constraint does not: "does not contain" negates "contains", "is not" negates
  -- "is".
  pub matches_any_attribute_negated :
      (value : String) (a : Attributes)
      → (matches_any_attribute to_lower (term "notContains" value) a
          ≡ not (matches_any_attribute to_lower (term "contains" value) a))
        × (matches_any_attribute to_lower (term "notEquals" value) a
            ≡ not (matches_any_attribute to_lower (term "equals" value) a))
  unfolding matches_any_attribute joined_by matched_anywhere is_negated match_constraint
  matches_any_attribute_negated value a = (
    both
        (every_match to_lower (record { operator = "notContains"; value = value })
          (attribute_list to_lower a))
        (some_match to_lower (record { operator = "contains"; value = value })
          (attribute_list to_lower a))
        (opposite_lem (record { operator = "contains"; value = value })
          (record { operator = "notContains"; value = value }) (attribute_list to_lower a)
          (λ v. refl)),
    both
        (every_match to_lower (record { operator = "notEquals"; value = value })
          (attribute_list to_lower a))
        (some_match to_lower (record { operator = "equals"; value = value })
          (attribute_list to_lower a))
        (opposite_lem (record { operator = "equals"; value = value })
          (record { operator = "notEquals"; value = value }) (attribute_list to_lower a)
          (λ v. refl)),
  )
