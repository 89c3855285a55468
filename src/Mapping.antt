-- ===== src/Mapping.antt =====
-- GroupMapper of internal/service/group_mapper.go and ProjectMapper of
-- internal/service/project_mapper.go. The package regexp is a parameter: compiled patterns, what
-- they match, and the template expanded with the first match.
pub mod Groups
use dagger_kubernetes.Prelude.{
  Bool, true, false, not, Option, none, some, List, [], ◌∷◌, String, str_eq, if◌then◌else◌,
}
use dagger_kubernetes.Maps.{elem}
use dagger_kubernetes.Domain.{Result, ok, err, nil_dereference, validation}

pub record Regexp : Type 1 where
  pub Pattern : Type 0
  -- regexp.Compile, `none` for an error
  pub compile : String → Option Pattern
  pub matches : Pattern → String → Bool
  -- FindStringSubmatchIndex and ExpandString of a template, `none` without a match
  pub expand : Pattern → String → String → Option String

-- GroupMappingRule and ProjectMappingRule of the configuration
pub record MappingRule : Type 0 where
  pub pattern : String
  pub target : String

module _ (re : Regexp) where
  -- the rules of a mapper, in the order of the configuration
  abbrev pub Rules : Type 0
  Rules = List (re.Pattern × String)

  -- one round of the loop of NewGroupMapper and NewProjectMapper; the message is left out
  unfoldable pub compile_rule : MappingRule → Result (re.Pattern × String)
  compile_rule rule =
      let compiled : Result (re.Pattern × String) = elim (re.compile rule.pattern) [
        | none ↦ err validation
        | some p ↦ ok (p, rule.target)
      ] in
      if str_eq rule.pattern "" then err validation else compiled

  -- NewGroupMapper, NewProjectMapper
  unfoldable pub new_mapper : List MappingRule → Result Rules
  unfolding compile_rule
  new_mapper [] = ok []
  new_mapper (rule ∷ rules) =
      let rest = new_mapper rules in
      elim (compile_rule rule) [
        | err e ↦ err e
        | nil_dereference ↦ nil_dereference
        | ok r ↦ elim rest [
          | ok rs ↦ ok (r ∷ rs)
          | err e ↦ err e
          | nil_dereference ↦ nil_dereference
        ]
      ]

  -- Active of a mapper that may be nil
  unfoldable pub is_active_mapper : Option Rules → Bool
  is_active_mapper none = false
  is_active_mapper (some []) = false
  is_active_mapper (some (r ∷ rs)) = true

  -- the loop of mapGroup
  unfoldable pub map_by_rules : Rules → String → Option String
  map_by_rules [] group = none
  map_by_rules ((p, replacement) ∷ rules) group =
      let rest = map_by_rules rules group in
      elim (re.expand p replacement group) [ some mapped ↦ some mapped | none ↦ rest ]

  -- mapGroup
  unfoldable pub map_group : Option Rules → String → Option String
  unfolding map_by_rules
  map_group none group = some group
  map_group (some []) group = some group
  map_group (some (r ∷ rules)) group = map_by_rules (r ∷ rules) group

  -- the names that Map has seen, and its output
  abbrev pub Mapped : Type 0
  Mapped = List String × List String

  abbrev pub append_name : List String → String → List String
  append_name [] x = x ∷ []
  append_name (y ∷ ys) x = y ∷ append_name ys x

  -- the body of the loop of Map
  unfoldable pub add_mapped : Option String → Mapped → Mapped
  add_mapped none acc = acc
  add_mapped (some mapped) (seen, out) =
      if str_eq mapped ""
      then (seen, out)
      else if elem mapped seen
      then (seen, out)
      else (mapped ∷ seen, append_name out mapped)

  -- the loop of Map
  unfoldable pub map_each : Option Rules → List String → Mapped → Mapped
  unfolding map_group add_mapped
  map_each m [] acc = acc
  map_each m (group ∷ groups) acc = map_each m groups (add_mapped (map_group m group) acc)

  -- Map of GroupMapper
  unfoldable pub map_groups : Option Rules → List String → List String
  unfolding map_each
  map_groups m provider_groups = (map_each m provider_groups ([], [])).1

  -- mapIfActive
  unfoldable pub map_if_active : Option Rules → List String → List String
  unfolding is_active_mapper map_groups
  map_if_active m provider_groups = if is_active_mapper m then map_groups m provider_groups else []

  -- the loop of Map of ProjectMapper
  unfoldable pub map_project_by : Rules → String → Option String
  map_project_by [] name = none
  map_project_by ((p, group) ∷ rules) name =
      let rest = map_project_by rules name in if re.matches p name then some group else rest

  -- Map of ProjectMapper
  unfoldable pub map_project : Option Rules → String → Option String
  unfolding map_project_by
  map_project none name = none
  map_project (some rules) name = map_project_by rules name
