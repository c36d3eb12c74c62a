-- ===== src/Complexity/Limits.antt =====
-- The limit on the cost: what it accepts, against the cost without a limit.
use peak_pass.Prelude.{
  ℕ, zero, suc, ◌+◌, ◌*◌, ◌≤◌, ◌≡◌, ◌↔◌, refl, ap, subst, Bool, true, false, ◌||◌, Bool-cases, inl,
  inr, Option, none, some, List, ◌∷◌, ltb, if◌then◌else◌, arith, pos, negsuc,
}
use peak_pass.Complexity.{
  Schema, TypeName, FieldName, Field, Fragment, Context, Verdict, Selection, Selections, Nested,
  LimitArgument, and_then, over_limit, within, in_type, composite, condition_type, nested_type,
  find_field, field_cost, has_fragment, in_fragment, selection_cost, selections_cost,
  selection_complexity, cardinality, numeric_limit, list_fallback, paginated, argument,
}

abbrev pub unlimited : Context → Context
unlimited c = record c { max_complexity = none }

and_then-cost :
    (v : Verdict) (k : ℕ → Verdict) (t : ℕ)
    → and_then v k ≡ Verdict.cost t
    → (n : ℕ) × ((v ≡ Verdict.cost n) × (k n ≡ Verdict.cost t))
and_then-cost (Verdict.cost n) k t e = (n, (refl, e))
and_then-cost Verdict.too_deep k t e = absurd (cc e)
and_then-cost Verdict.out_of_fuel k t e = absurd (cc e)
and_then-cost (Verdict.fragment_cycle x) k t e = absurd (cc e)
and_then-cost (Verdict.too_complex x) k t e = absurd (cc e)

within-cost :
    (c : Context) (total : ℕ) (k : ℕ → Verdict) (t : ℕ)
    → within c total k ≡ Verdict.cost t
    → (over_limit c.max_complexity total ≡ false) × (k total ≡ Verdict.cost t)
within-cost c total k t e = elim (Bool-cases (over_limit c.max_complexity total)) [
  | inl y ↦ absurd (cc (rw (y) at e))
  | inr ne ↦ (ne, rw (ne) at e)
]

over_limit-le : (m : Option ℕ) (n t : ℕ) → n ≤ t → over_limit m t ≡ false → over_limit m n ≡ false
over_limit-le none n t h o = refl
over_limit-le (some m) n t h o = ground arith

numeric_limit-pos : (l : LimitArgument) (fallback : ℕ) → 1 ≤ fallback → 1 ≤ numeric_limit l fallback
numeric_limit-pos LimitArgument.absent fallback h = h
numeric_limit-pos LimitArgument.not_finite fallback h = h
numeric_limit-pos (LimitArgument.finite (pos zero)) fallback h = omega arith
numeric_limit-pos (LimitArgument.finite (pos (suc n))) fallback h = omega arith
numeric_limit-pos (LimitArgument.finite (negsuc n)) fallback h = omega arith

paginated-fallback :
    (type : TypeName) (name : FieldName) (l : LimitArgument)
    → 1 ≤ list_fallback (paginated type name) l
paginated-fallback TypeName.query_type FieldName.events l = numeric_limit-pos l 10 (omega arith)
paginated-fallback TypeName.query_type FieldName.event l = omega arith
paginated-fallback TypeName.query_type FieldName.my_orders l = numeric_limit-pos l 10 (omega arith)
paginated-fallback TypeName.query_type FieldName.my_tickets l = numeric_limit-pos l 20 (omega arith)
paginated-fallback TypeName.query_type FieldName.ticket_by_code l = omega arith
paginated-fallback TypeName.query_type FieldName.typename l = omega arith
paginated-fallback TypeName.query_type FieldName.schema_meta l = omega arith
paginated-fallback TypeName.query_type FieldName.type_meta l = omega arith
paginated-fallback TypeName.query_type (FieldName.other_field x) l = omega arith
paginated-fallback (TypeName.other_type y) name l = omega arith

cardinality-pos :
    (f : Option Field) (type : TypeName) (name : FieldName) (l : LimitArgument)
    → 1 ≤ cardinality f (paginated type name) l
cardinality-pos none type name l = omega arith
cardinality-pos (some f) type name l = elim (Bool-cases f.is_list) [
  | inl y ↦ rw (y) (numeric_limit-pos l _ (paginated-fallback type name l))
  | inr ne ↦ rw (ne) (omega arith)
]

times_pos : (k n : ℕ) → 1 ≤ k → n ≤ k * n
times_pos zero n h = absurd (omega arith)
times_pos (suc k) n h = grind arith

-- A field costs what its own selections cost, at least.
field_cost-nested :
    (s : Schema) (type : TypeName) (name : FieldName) (args n : ℕ)
    → n ≤ field_cost s type name args n
field_cost-nested s type name args n =
    let f = find_field s type name in
    let h =
      times_pos (cardinality f (paginated type name) (argument s f args)) n
        (cardinality-pos f type name (argument s f args)) in
    omega (arith, h)

-- What a computation with the limit gives, against one without: `Same` for a cost within the
-- limit, `Under` for the cost of a part, which may be over it.
record Under (m : Option ℕ) (v u : Verdict) : Type 0 where
  kept : (t : ℕ) → v ≡ Verdict.cost t → u ≡ Verdict.cost t
  found : (t : ℕ) → u ≡ Verdict.cost t → over_limit m t ≡ false → v ≡ Verdict.cost t

record Same (m : Option ℕ) (v u : Verdict) : Type 0 where
  under : Under m v u
  limited : (t : ℕ) → v ≡ Verdict.cost t → over_limit m t ≡ false

refl-Under : (m : Option ℕ) (v : Verdict) → Under m v v
refl-Under m v = record { kept = λ t e. e; found = λ t e o. e }

cost-injective : (n t : ℕ) → Verdict.cost n ≡ Verdict.cost t → n ≡ t
cost-injective n t e = ap (λ v. elim v [ Verdict.cost x ↦ x | _ ↦ n ]) e

-- A cost that grows from the cost of a part.
grown-Under :
    (m : Option ℕ) (v u : Verdict) (f : ℕ → ℕ)
    → ((n : ℕ) → n ≤ f n)
    → Under m v u
    → Under m (and_then v (λ n. Verdict.cost (f n))) (and_then u (λ n. Verdict.cost (f n)))
grown-Under m v u f grows s = record {
  kept = λ t e. (let (n, (at, r)) = and_then-cost v _ t e in rw (s.kept n at) r);
  found = λ t e o.
      (let (n, (at, r)) = and_then-cost u _ t e in
        let same : f n ≡ t = cost-injective (f n) t r in
        rw (s.found n at (over_limit-le m n t (subst (λ x. n ≤ x) same (grows n)) o)) r);
}

if-Under :
    (m : Option ℕ) (a b d e : Verdict) (t : Bool)
    → Under m a d
    → Under m b e
    → Under m (if t then a else b) (if t then d else e)
if-Under m a b d e true x y = x
if-Under m a b d e false x y = y

in_type-Under :
    (m : Option ℕ) (o : Option TypeName) (k l : TypeName → Verdict)
    → ((t : TypeName) → Under m (k t) (l t))
    → Under m (in_type o k) (in_type o l)
in_type-Under m none k l f = refl-Under m (Verdict.cost 0)
in_type-Under m (some t) k l f = f t

abbrev AlikeCalls : Option ℕ → Nested → Nested → Type 0
AlikeCalls m k l =
    (sub : Selections) (type : TypeName) (depth : ℕ) (path : List ℕ) (fd : ℕ)
    → Under m (k sub type depth path fd) (l sub type depth path fd)

selection_cost-Under :
    (c : Context) (k l : Nested) (type : TypeName) (depth : ℕ) (path : List ℕ) (fd : ℕ)
    (s : Selection)
    → AlikeCalls c.max_complexity k l
    → Under c.max_complexity
        (selection_cost c k type depth path fd s)
        (selection_cost (unlimited c) l type depth path fd s)
unfolding selection_cost
selection_cost-Under c k l type depth path fd (Selection.leaf name args) f = refl-Under _ _
selection_cost-Under c k l type depth path fd (Selection.node name args sub) f =
    grown-Under c.max_complexity _ _ (field_cost c.schema type name args)
      (field_cost-nested c.schema type name args)
      (in_type-Under _ (nested_type c.schema (find_field c.schema type name)) _ _
        (λ t. f sub t (suc depth) path 0))
selection_cost-Under c k l type depth path fd (Selection.spread name) f =
    if-Under c.max_complexity _ _ _ _ (has_fragment name path) (refl-Under _ _)
      (of_fragment (c.fragments name))
  where
    of_fragment :
        (o : Option Fragment)
        → Under c.max_complexity
            (in_fragment c k name depth path fd o)
            (in_fragment (unlimited c) l name depth path fd o)
    of_fragment none = refl-Under _ _
    of_fragment (some g) =
        in_type-Under c.max_complexity (composite c.schema g.condition) _ _
          (λ t. f g.selections t depth (name ∷ path) (suc fd))
selection_cost-Under c k l type depth path fd (Selection.inline condition sub) f =
    in_type-Under c.max_complexity (composite c.schema (condition_type type condition)) _ _
      (λ t. f sub t depth path (suc fd))

-- The total only grows.
selections_cost-grows :
    (c : Context) (one : Selection → Verdict) (sub : Selections) (total t : ℕ)
    → selections_cost c one sub total ≡ Verdict.cost t
    → total ≤ t
unfolding selections_cost
selections_cost-grows c one Selections.done total t e =
    subst (λ x. total ≤ x) (cost-injective total t e) (omega arith)
selections_cost-grows c one (Selections.more s rest) total t e =
    let (n, (at, r)) = and_then-cost (one s) _ t e in
    let h =
      selections_cost-grows c one rest (total + n) t
        (within-cost c (total + n) (selections_cost c one rest) t r).1 in
    omega (arith, h)

selections_cost-Same :
    (c : Context) (one two : Selection → Verdict) (sub : Selections) (total : ℕ)
    → over_limit c.max_complexity total ≡ false
    → ((s : Selection) → Under c.max_complexity (one s) (two s))
    → Same c.max_complexity
        (selections_cost c one sub total)
        (selections_cost (unlimited c) two sub total)
unfolding selections_cost
selections_cost-Same c one two Selections.done total o f = record {
  under = refl-Under _ _;
  limited = λ t e. subst (λ x. over_limit c.max_complexity x ≡ false) (cost-injective total t e) o;
}
selections_cost-Same c one two (Selections.more s rest) total o f = record {
  under = record {
    kept = λ t e.
        (let (n, (at, r)) = and_then-cost (one s) _ t e in
          let (ok, q) = within-cost c (total + n) (selections_cost c one rest) t r in
          rw ((f s).kept n at)
            ((selections_cost-Same c one two rest (total + n) ok f).under.kept t q));
    found = λ t e ot.
        (let (n, (at, r)) = and_then-cost (two s) _ t e in
          let h = selections_cost-grows (unlimited c) two rest (total + n) t r in
          let ok : over_limit c.max_complexity (total + n) ≡ false =
            over_limit-le c.max_complexity (total + n) t h ot in
          rw ((f s).found n at (over_limit-le c.max_complexity n t (omega (arith, h)) ot), ok)
            ((selections_cost-Same c one two rest (total + n) ok f).under.found t r ot));
  };
  limited = λ t e.
      (let (n, (at, r)) = and_then-cost (one s) _ t e in
        let (ok, q) = within-cost c (total + n) (selections_cost c one rest) t r in
        (selections_cost-Same c one two rest (total + n) ok f).limited t q);
}

zero_within : (m : Option ℕ) → over_limit m 0 ≡ false
zero_within none = refl
zero_within (some m) = ground arith

if-Same :
    (m : Option ℕ) (v u : Verdict) (b : Bool)
    → Same m v u
    → Same m (if b then Verdict.too_deep else v) (if b then Verdict.too_deep else u)
if-Same m v u true s = record { under = refl-Under _ _; limited = λ t e. absurd (cc e) }
if-Same m v u false s = s

selection_complexity-Same :
    (c : Context) (fuel : ℕ) (sub : Selections) (type : TypeName) (depth : ℕ) (path : List ℕ)
    (fd : ℕ)
    → Same c.max_complexity
        (selection_complexity c fuel sub type depth path fd)
        (selection_complexity (unlimited c) fuel sub type depth path fd)
unfolding selection_complexity
selection_complexity-Same c zero sub type depth path fd = record {
  under = refl-Under _ _;
  limited = λ t e. absurd (cc e);
}
selection_complexity-Same c (suc fuel) sub type depth path fd =
    if-Same c.max_complexity _ _ (ltb c.max_depth depth || ltb c.max_depth fd) (
      selections_cost-Same c _ _ sub 0 (zero_within c.max_complexity) (λ s.
        selection_cost-Under c _ _ type depth path fd s
          (λ sub' t d p g. (selection_complexity-Same c fuel sub' t d p g).under)))

-- A query has a cost under a limit just when it has that cost without a limit and the cost is not
-- over the limit: the rejection of a part of the query never hides a cost that is allowed.
pub selection_complexity-unlimited :
    (c : Context) (fuel : ℕ) (sub : Selections) (type : TypeName) (depth : ℕ) (path : List ℕ)
    (fragment_depth t : ℕ)
    → (selection_complexity c fuel sub type depth path fragment_depth ≡ Verdict.cost t) ↔ (
        (selection_complexity (unlimited c) fuel sub type depth path fragment_depth
          ≡ Verdict.cost t)
        × (over_limit c.max_complexity t ≡ false))
selection_complexity-unlimited c fuel sub type depth path fd t =
    let s = selection_complexity-Same c fuel sub type depth path fd in
    (λ e. (s.under.kept t e, s.limited t e), λ e. s.under.found t e.0 e.1)
