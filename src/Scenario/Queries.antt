-- ===== src/Scenario/Queries.antt =====
-- A query of the catalogue: `events(limit: 3) { … title }`, its title in a fragment of itself.
use peak_pass.Prelude.{ℕ, zero, suc, ◌≡◌, ◌↔◌, refl, true, false, none, some, [], pos, arith}
use peak_pass.Complexity.{
  TypeName, FieldName, LimitArgument, Field, Selection, Selections, Schema, Context, Verdict,
  over_limit, selection_cost, selections_cost, selection_complexity,
}
use peak_pass.Complexity.Fuel.{Finishes, selection_complexity-Finishes}
use peak_pass.Complexity.Limits.{unlimited, selection_complexity-unlimited}

abbrev event_list : Field
event_list = record { is_list = true; returns = some (TypeName.other_type 1) }

abbrev text_field : Field
text_field = record { is_list = false; returns = none }

abbrev schema : Schema
schema = record {
  fields = λ t f. elim t [
    | TypeName.query_type ↦ some event_list
    | TypeName.other_type x ↦ some text_field
  ];
  typename_field = text_field;
  schema_field = text_field;
  type_field = text_field;
  is_query = λ t. elim t [ TypeName.query_type ↦ true | TypeName.other_type x ↦ false ];
  is_composite = λ t. true;
  limit = λ f args. elim args [
    | zero ↦ LimitArgument.absent
    | suc n ↦ LimitArgument.finite (pos (suc n))
  ];
}

abbrev context : ℕ → Context
context limit = record {
  schema = schema;
  fragments = λ name. some (record {
    condition = TypeName.other_type 1;
    selections = Selections.more (Selection.leaf (FieldName.other_field 1) 0) Selections.done;
  });
  max_complexity = some limit;
  max_depth = 10;
}

abbrev catalogue : Selections
catalogue =
    Selections.more
      (Selection.node FieldName.events 3 (Selections.more (Selection.spread 5) Selections.done))
      Selections.done

-- Three events of one title each: 3 + 3 · 1.
catalogue-cost :
    selection_complexity (context 6) 200 catalogue TypeName.query_type 0 [] 0 ≡ Verdict.cost 6
unfolding selection_complexity selections_cost selection_cost
catalogue-cost = refl

catalogue-too_complex :
    selection_complexity (context 5) 200 catalogue TypeName.query_type 0 [] 0
    ≡ Verdict.too_complex 6
unfolding selection_complexity selections_cost selection_cost
catalogue-too_complex = refl

selection_complexity-Finishes_example :
    Finishes (selection_complexity (context 6) 200 catalogue TypeName.query_type 0 [] 0)
selection_complexity-Finishes_example =
    selection_complexity-Finishes (context 6) 200 catalogue TypeName.query_type 0 [] 0 (omega arith)

selection_complexity-unlimited_example :
    (selection_complexity (context 6) 200 catalogue TypeName.query_type 0 [] 0 ≡ Verdict.cost 6) ↔ (
      (selection_complexity (unlimited (context 6)) 200 catalogue TypeName.query_type 0 [] 0
        ≡ Verdict.cost 6)
      × (over_limit (some 6) 6 ≡ false))
selection_complexity-unlimited_example =
    selection_complexity-unlimited (context 6) 200 catalogue TypeName.query_type 0 [] 0 6
