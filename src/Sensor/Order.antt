-- ===== src/Sensor/Order.antt =====
-- domain/sensor_domain/utilities/sensors_order_resolver.h and .cpp: the order in which sensors are
-- processed. A sensor is only passed on, so its ID stands for it; `same` is the equality of IDs. A hash
-- table is a list in the order of its iteration.
pub mod Sets
pub mod Walks
pub mod Search
pub mod Result
pub mod Tables
use rt_core.Prelude.{
  ℕ, zero, suc, ◌+◌, Bool, true, false, not, ◌&&◌, ◌||◌, Option, none, some, List, [], ◌∷◌, ◌++◌,
  length, if◌then◌else◌,
}
use rt_core.Prelude.Tables.{insert_at, keep_if, any_of}

-- The expression of a configuration and what ExpressionEvaluator makes of it: its variables, each once.
pub data Expression (A : Type 0) : Type 0 where
  no_expression invalid : Expression A
  variables : List A → Expression A

pub record Sensor (A : Type 0) : Type 0 where
  pub id : A
  pub expression : Expression A

pub record Resolver (A : Type 0) : Type 0 where
  pub dependencies : List (A × List A)
  pub sensors : List A

-- What HasCyclicDependency() answers, with the two sets when it is false. `unknown` is the exception on a
-- sensor that does not exist, `no_entry` the one of at(), and `out_of_fuel` the model's own.
pub data Answer (A : Type 0) : Type 0 where
  unknown no_entry cyclic out_of_fuel : Answer A
  acyclic : List A → List A → Answer A

-- What GetProcessingOrder() returns or throws.
pub data Outcome (A : Type 0) : Type 0 where
  ordered : List A → Outcome A
  unknown_sensor no_such_entry cyclic_dependency no_fuel : Outcome A

abbrev pub empty_resolver : {A : Type 0} → Resolver A
empty_resolver = record { dependencies = []; sensors = [] }

module _ {A : Type 0} (same : A → A → Bool) where
  unfoldable pub contains : List A → A → Bool
  contains [] x = false
  contains (y ∷ ys) x = same y x || contains ys x

  unfoldable pub erase : A → List A → List A
  unfolding keep_if
  erase id xs = keep_if (λ x. not (same id x)) xs

  unfoldable pub dependencies_at : List (A × List A) → A → Option (List A)
  dependencies_at [] id = none
  dependencies_at ((key, names) ∷ rest) id =
      let later = dependencies_at rest id in if same key id then some names else later

  -- try_emplace() puts a new entry at a place of the table's choice.
  unfoldable pub emplace_dependencies : ℕ → A → List A → List (A × List A) → List (A × List A)
  unfolding dependencies_at insert_at
  emplace_dependencies place id names table = elim (dependencies_at table id) [
    | none ↦ insert_at place (id, names) table
    | some _ ↦ table
  ]

  unfoldable pub emplace_sensor : ℕ → A → List A → List A
  unfolding contains insert_at
  emplace_sensor place id sensors =
      if contains sensors id then sensors else insert_at place id sensors

  unfoldable pub variable_names : Expression A → Option (List A)
  variable_names no_expression = some []
  variable_names invalid = none
  variable_names (variables names) = some names

  -- `none` is the exception on an expression that does not compile.
  unfoldable pub add_sensor : ℕ → ℕ → Sensor A → Resolver A → Option (Resolver A)
  unfolding variable_names emplace_dependencies emplace_sensor
  add_sensor entry place s r = elim (variable_names s.expression) [
    | none ↦ none
    | some names ↦ some (record {
      dependencies = emplace_dependencies entry s.id names r.dependencies;
      sensors = emplace_sensor place s.id r.sensors;
    })
  ]

  -- The loop over the dependencies of a sensor; `visit` is the recursive call.
  unfoldable pub check_dependencies :
      Resolver A → (A → List A → List A → Answer A) → List A → List A → List A → Answer A
  unfolding contains
  check_dependencies r visit [] visited temp = acyclic visited temp
  check_dependencies r visit (dep ∷ deps) visited temp =
      if not (contains r.sensors dep) then unknown else elim (visit dep visited temp) [
        | acyclic visited_then temp_then ↦ check_dependencies r visit deps visited_then temp_then
        | unknown ↦ unknown
        | no_entry ↦ no_entry
        | cyclic ↦ cyclic
        | out_of_fuel ↦ out_of_fuel
      ]

  unfoldable pub leave : A → Answer A → Answer A
  unfolding erase
  leave id (acyclic visited temp) = acyclic (visited ++ id ∷ []) (erase id temp)
  leave id unknown = unknown
  leave id no_entry = no_entry
  leave id cyclic = cyclic
  leave id out_of_fuel = out_of_fuel

  unfoldable pub has_cyclic_dependency : Resolver A → ℕ → A → List A → List A → Answer A
  unfolding contains dependencies_at check_dependencies leave
  has_cyclic_dependency r zero id visited temp = out_of_fuel
  has_cyclic_dependency r (suc fuel) id visited temp =
      if contains temp id
      then cyclic
      else if contains visited id
      then acyclic visited temp
      else elim (dependencies_at r.dependencies id) [
        | none ↦ no_entry
        | some deps ↦
            leave id (check_dependencies r (has_cyclic_dependency r fuel) deps visited (id ∷ temp))
      ]

  -- ResolveDependencies() gives the sets back; `none` is an exception of at(), or no fuel.
  unfoldable pub resolve_each :
      (A → List A → List A → Option (List A × List A))
      → List A
      → List A
      → List A
      → Option (List A × List A)
  resolve_each visit [] visited ordered_sensors = some (visited, ordered_sensors)
  resolve_each visit (dep ∷ deps) visited ordered_sensors =
      elim (visit dep visited ordered_sensors) [
        | none ↦ none
        | some (visited_then, ordered_then) ↦ resolve_each visit deps visited_then ordered_then
      ]

  unfoldable pub push : A → Option (List A × List A) → Option (List A × List A)
  push id none = none
  push id (some (visited, ordered_sensors)) = some (visited, ordered_sensors ++ id ∷ [])

  unfoldable pub resolve_dependencies :
      Resolver A → ℕ → A → List A → List A → Option (List A × List A)
  unfolding contains dependencies_at resolve_each push
  resolve_dependencies r zero id visited ordered_sensors = none
  resolve_dependencies r (suc fuel) id visited ordered_sensors =
      if contains visited id
      then some (visited, ordered_sensors)
      else elim (dependencies_at r.dependencies id) [
        | none ↦ none
        | some deps ↦
            push id (resolve_each (resolve_dependencies r fuel) deps (id ∷ visited) ordered_sensors)
      ]

  -- The loops of GetProcessingOrder() over all sensors.
  unfoldable pub check_all : Resolver A → ℕ → List A → List A → List A → Answer A
  unfolding contains has_cyclic_dependency
  check_all r fuel [] visited temp = acyclic visited temp
  check_all r fuel (id ∷ ids) visited temp =
      if contains visited id
      then check_all r fuel ids visited temp
      else elim (has_cyclic_dependency r fuel id visited temp) [
        | acyclic visited_then temp_then ↦ check_all r fuel ids visited_then temp_then
        | unknown ↦ unknown
        | no_entry ↦ no_entry
        | cyclic ↦ cyclic
        | out_of_fuel ↦ out_of_fuel
      ]

  unfoldable pub get_processing_order : Resolver A → Outcome A
  unfolding check_all resolve_each resolve_dependencies
  get_processing_order r =
      let fuel = length r.sensors + 1 in
      elim (check_all r fuel r.sensors [] []) [
        | acyclic visited temp ↦ elim (resolve_each (resolve_dependencies r fuel) r.sensors [] []) [
          | none ↦ no_such_entry
          | some (resolved, ordered_sensors) ↦ ordered ordered_sensors
        ]
        | unknown ↦ unknown_sensor
        | no_entry ↦ no_such_entry
        | cyclic ↦ cyclic_dependency
        | out_of_fuel ↦ no_fuel
      ]
