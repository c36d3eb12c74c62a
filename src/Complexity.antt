-- ===== src/Complexity.antt =====
-- src/api/graphql/complexity.ts: the cost of a query before it runs. The schema and the reading of
-- arguments are graphql's and stand as a `Schema`; what the code tests of a name is a constructor.
pub mod Fuel
pub mod Limits
use peak_pass.Prelude.{
  ℕ, zero, suc, ◌+◌, ◌*◌, Bool, true, false, ◌&&◌, ◌||◌, Option, none, some, List, [], ◌∷◌, ◌==◌,
  ltb, ℤ, pos, negsuc, if◌then◌else◌,
}

pub data TypeName : Type 0 where
  query_type : TypeName
  other_type : ℕ → TypeName

pub data FieldName : Type 0 where
  events event my_orders my_tickets ticket_by_code typename schema_meta type_meta : FieldName
  other_field : ℕ → FieldName

-- `args.limit`: absent, a value that is no finite number, or a number, rounded down.
pub data LimitArgument : Type 0 where
  absent not_finite : LimitArgument
  finite : ℤ → LimitArgument

-- Whether the type of a field, less a non-null, is a list, and its named type if it is composite.
pub record Field : Type 0 where
  pub is_list : Bool
  pub returns : Option TypeName

-- A selection carries its arguments as a number, which `Schema.limit` reads.
mutual
  pub data Selection : Type 0 where
    leaf : FieldName → ℕ → Selection
    node : FieldName → ℕ → Selections → Selection
    spread : ℕ → Selection
    inline : Option TypeName → Selections → Selection

  pub data Selections : Type 0 where
    done : Selections
    more : Selection → Selections → Selections

pub record Fragment : Type 0 where
  pub condition : TypeName
  pub selections : Selections

-- What graphql gives: the fields of a type, the fields that each type or the query type has besides,
-- whether a type is the query type or composite, and the argument `limit` of a selection under the
-- variables of the request.
pub record Schema : Type 0 where
  pub fields : TypeName → FieldName → Option Field
  pub typename_field : Field
  pub schema_field : Field
  pub type_field : Field
  pub is_query : TypeName → Bool
  pub is_composite : TypeName → Bool
  pub limit : Field → ℕ → LimitArgument

-- `ComplexityContext`; a maximum of `none` is Infinity.
pub record Context : Type 0 where
  pub schema : Schema
  pub fragments : ℕ → Option Fragment
  pub max_complexity : Option ℕ
  pub max_depth : ℕ

-- `out_of_fuel` is an answer of the model alone.
pub data Verdict : Type 0 where
  cost : ℕ → Verdict
  too_deep out_of_fuel : Verdict
  fragment_cycle : ℕ → Verdict
  too_complex : ℕ → Verdict

abbrev pub at_least_one : ℤ → ℕ
at_least_one (pos (suc n)) = suc n
at_least_one _ = 1

-- `numericLimit` with a fallback that is a number from 1 on.
abbrev pub numeric_limit : LimitArgument → ℕ → ℕ
numeric_limit LimitArgument.absent fallback = fallback
numeric_limit LimitArgument.not_finite fallback = fallback
numeric_limit (LimitArgument.finite n) fallback = at_least_one n

-- `complexityRulesMap`: the fallback of a rule that reads the limit, or none for a cost of 1.
abbrev pub paginated : TypeName → FieldName → Option ℕ
paginated TypeName.query_type FieldName.events = some 10
paginated TypeName.query_type FieldName.my_orders = some 10
paginated TypeName.query_type FieldName.my_tickets = some 20
paginated _ _ = none

abbrev pub base_cost : Option ℕ → LimitArgument → ℕ
base_cost none limit = 1
base_cost (some fallback) limit = numeric_limit limit fallback

-- The fallback for the length of a list.
abbrev pub list_fallback : Option ℕ → LimitArgument → ℕ
list_fallback none limit = 10
list_fallback (some fallback) limit = numeric_limit limit fallback

abbrev pub find_field : Schema → TypeName → FieldName → Option Field
find_field s type FieldName.typename = some s.typename_field
find_field s type FieldName.schema_meta =
    if s.is_query type then some s.schema_field else s.fields type FieldName.schema_meta
find_field s type FieldName.type_meta =
    if s.is_query type then some s.type_field else s.fields type FieldName.type_meta
find_field s type name = s.fields type name

abbrev pub argument : Schema → Option Field → ℕ → LimitArgument
argument s none args = LimitArgument.absent
argument s (some field) args = s.limit field args

abbrev pub cardinality : Option Field → Option ℕ → LimitArgument → ℕ
cardinality none rule limit = 1
cardinality (some field) rule limit =
    if field.is_list then numeric_limit limit (list_fallback rule limit) else 1

-- The composite type that a field returns.
abbrev pub nested_type : Schema → Option Field → Option TypeName
nested_type s none = none
nested_type s (some field) = field.returns

abbrev pub has_fragment : ℕ → List ℕ → Bool
has_fragment name [] = false
has_fragment name (x ∷ xs) = x == name || has_fragment name xs

-- A verdict with the rest of the work on its cost.
abbrev pub and_then : Verdict → (ℕ → Verdict) → Verdict
and_then (Verdict.cost n) k = k n
and_then Verdict.too_deep k = Verdict.too_deep
and_then Verdict.out_of_fuel k = Verdict.out_of_fuel
and_then (Verdict.fragment_cycle name) k = Verdict.fragment_cycle name
and_then (Verdict.too_complex n) k = Verdict.too_complex n

abbrev pub over_limit : Option ℕ → ℕ → Bool
over_limit none total = false
over_limit (some limit) total = ltb limit total

-- A recursive call: the selections, their type, the depth, the fragments on the way and their depth.
abbrev pub Nested : Type 0
Nested = Selections → TypeName → ℕ → List ℕ → ℕ → Verdict

-- The cost of a field with what its own selections cost.
abbrev pub field_cost : Schema → TypeName → FieldName → ℕ → ℕ → ℕ
field_cost s type name args nested =
    let field = find_field s type name in
    let limit = argument s field args in
    let rule = paginated type name in base_cost rule limit + cardinality field rule limit * nested

abbrev pub in_type : Option TypeName → (TypeName → Verdict) → Verdict
in_type none k = Verdict.cost 0
in_type (some type) k = k type

-- A type that is composite.
abbrev pub composite : Schema → TypeName → Option TypeName
composite s type = if s.is_composite type then some type else none

abbrev pub condition_type : TypeName → Option TypeName → TypeName
condition_type type none = type
condition_type type (some condition) = condition

abbrev pub in_fragment : Context → Nested → ℕ → ℕ → List ℕ → ℕ → Option Fragment → Verdict
in_fragment c call name depth path fragment_depth none = Verdict.cost 0
in_fragment c call name depth path fragment_depth (some f) =
    in_type (composite c.schema f.condition)
      (λ t. call f.selections t depth (name ∷ path) (suc fragment_depth))

-- The cost of one selection.
unfoldable pub selection_cost : Context → Nested → TypeName → ℕ → List ℕ → ℕ → Selection → Verdict
selection_cost c call type depth path fragment_depth (Selection.leaf name args) =
    Verdict.cost (field_cost c.schema type name args 0)
selection_cost c call type depth path fragment_depth (Selection.node name args sub) =
    and_then
      (in_type (nested_type c.schema (find_field c.schema type name))
        (λ t. call sub t (suc depth) path 0))
      (λ n. Verdict.cost (field_cost c.schema type name args n))
selection_cost c call type depth path fragment_depth (Selection.spread name) =
    if has_fragment name path
    then Verdict.fragment_cycle name
    else in_fragment c call name depth path fragment_depth (c.fragments name)
selection_cost c call type depth path fragment_depth (Selection.inline condition sub) =
    in_type (composite c.schema (condition_type type condition))
      (λ t. call sub t depth path (suc fragment_depth))

abbrev pub within : Context → ℕ → (ℕ → Verdict) → Verdict
within c total k = if over_limit c.max_complexity total then Verdict.too_complex total else k total

-- The loop over the selections from a total on.
unfoldable pub selections_cost : Context → (Selection → Verdict) → Selections → ℕ → Verdict
selections_cost c one Selections.done total = Verdict.cost total
selections_cost c one (Selections.more s rest) total =
    and_then (one s) (λ n. within c (total + n) (selections_cost c one rest))

-- `selectionComplexity`
unfoldable pub selection_complexity : Context → ℕ → Nested
selection_complexity c zero sub type depth path fragment_depth = Verdict.out_of_fuel
selection_complexity c (suc fuel) sub type depth path fragment_depth =
    if ltb c.max_depth depth || ltb c.max_depth fragment_depth
    then Verdict.too_deep
    else selections_cost c
        (selection_cost c (selection_complexity c fuel) type depth path fragment_depth) sub 0
