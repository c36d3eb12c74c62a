-- ===== src/Complexity/Fuel.antt =====
-- The fuel that the depth limits make enough.
use peak_pass.Prelude.{
  ℕ, zero, suc, ◌+◌, ◌-◌, ◌≤◌, ◌≡◌, refl, sym, subst, Bool, true, false, ◌||◌, Bool-cases, inl, inr,
  Option, none, some, List, ◌∷◌, ltb, if◌then◌else◌, arith,
}
use peak_pass.Complexity.{
  TypeName, Fragment, Context, Verdict, Selection, Selections, Nested, and_then, over_limit,
  in_type, composite, condition_type, nested_type, find_field, has_fragment, in_fragment,
  selection_cost, selections_cost, selection_complexity,
}

abbrev pub is_out_of_fuel : Verdict → Bool
is_out_of_fuel Verdict.out_of_fuel = true
is_out_of_fuel _ = false

abbrev pub Finishes : Verdict → Type 0
Finishes v = is_out_of_fuel v ≡ false

-- `rows` rows of `width`.
abbrev pub budget : ℕ → ℕ → ℕ
budget zero width = 0
budget (suc rows) width = width + budget rows width

-- The fuel for a call: a row for each depth that is left, and what is left of the row of fragments.
abbrev pub enough : ℕ → ℕ → ℕ → ℕ
enough max_depth depth fragment_depth =
    suc (
      budget (suc max_depth - depth) (suc (suc max_depth)) + (suc (suc max_depth) - fragment_depth))

and_then-Finishes :
    (v : Verdict) (k : ℕ → Verdict)
    → Finishes v
    → ((n : ℕ) → Finishes (k n))
    → Finishes (and_then v k)
and_then-Finishes (Verdict.cost n) k h f = f n
and_then-Finishes Verdict.too_deep k h f = refl
and_then-Finishes Verdict.out_of_fuel k h f = h
and_then-Finishes (Verdict.fragment_cycle x) k h f = refl
and_then-Finishes (Verdict.too_complex x) k h f = refl

if-Finishes : (a b : Verdict) (t : Bool) → Finishes a → Finishes b → Finishes (if t then a else b)
if-Finishes a b true x y = x
if-Finishes a b false x y = y

in_type-Finishes :
    (o : Option TypeName) (k : TypeName → Verdict)
    → ((t : TypeName) → Finishes (k t))
    → Finishes (in_type o k)
in_type-Finishes none k f = refl
in_type-Finishes (some t) k f = f t

-- A recursive call one level deeper, and one fragment further, finishes.
abbrev Calls : Nested → ℕ → ℕ → Type 0
Calls call depth fragment_depth =
    (sub : Selections) (type : TypeName) (path : List ℕ)
    → Finishes (call sub type (suc depth) path 0)
      × Finishes (call sub type depth path (suc fragment_depth))

selection_cost-Finishes :
    (c : Context) (call : Nested) (type : TypeName) (depth : ℕ) (path : List ℕ) (fragment_depth : ℕ)
    (s : Selection)
    → Calls call depth fragment_depth
    → Finishes (selection_cost c call type depth path fragment_depth s)
unfolding selection_cost
selection_cost-Finishes c call type depth path fd (Selection.leaf name args) f = refl
selection_cost-Finishes c call type depth path fd (Selection.node name args sub) f =
    and_then-Finishes _ _
      (in_type-Finishes (nested_type c.schema (find_field c.schema type name)) _
        (λ t. (f sub t path).0))
      (λ n. refl)
selection_cost-Finishes c call type depth path fd (Selection.spread name) f =
    if-Finishes _ _ (has_fragment name path) refl (of_fragment (c.fragments name))
  where
    of_fragment : (o : Option Fragment) → Finishes (in_fragment c call name depth path fd o)
    of_fragment none = refl
    of_fragment (some g) =
        in_type-Finishes (composite c.schema g.condition) _
          (λ t. (f g.selections t (name ∷ path)).1)
selection_cost-Finishes c call type depth path fd (Selection.inline condition sub) f =
    in_type-Finishes (composite c.schema (condition_type type condition)) _ (λ t. (f sub t path).1)

selections_cost-Finishes :
    (c : Context) (one : Selection → Verdict) (sub : Selections) (total : ℕ)
    → ((s : Selection) → Finishes (one s))
    → Finishes (selections_cost c one sub total)
unfolding selections_cost
selections_cost-Finishes c one Selections.done total f = refl
selections_cost-Finishes c one (Selections.more s rest) total f =
    and_then-Finishes (one s) _ (f s) (λ n.
      if-Finishes _ _ (over_limit c.max_complexity (total + n)) refl
        (selections_cost-Finishes c one rest (total + n) f))

deeper :
    (m depth fd fuel : ℕ)
    → depth ≤ m
    → fd ≤ m
    → enough m depth fd ≤ suc fuel
    → enough m (suc depth) 0 ≤ fuel
deeper m depth fd fuel d g e =
    let row : suc m - depth ≡ suc (m - depth) = omega arith in
    let same : suc m - suc depth ≡ m - depth = omega arith in
    let left : suc (budget (suc (m - depth)) (suc (suc m)) + (suc (suc m) - fd)) ≤ suc fuel =
      subst (λ x. suc (budget x (suc (suc m)) + (suc (suc m) - fd)) ≤ suc fuel) row e in
    subst (λ x. suc (budget x (suc (suc m)) + (suc (suc m) - 0)) ≤ fuel) (sym same) (omega arith)

further :
    (m depth fd fuel : ℕ) → fd ≤ m → enough m depth fd ≤ suc fuel → enough m depth (suc fd) ≤ fuel
further m depth fd fuel g e = omega arith

-- The cost of a query, or the reason of its rejection, is there with the fuel that the maximal
-- depth makes enough: no cycle of fragments and no nesting makes the computation endless.
pub selection_complexity-Finishes :
    (c : Context) (fuel : ℕ) (sub : Selections) (type : TypeName) (depth : ℕ) (path : List ℕ)
    (fragment_depth : ℕ)
    → enough c.max_depth depth fragment_depth ≤ fuel
    → Finishes (selection_complexity c fuel sub type depth path fragment_depth)
unfolding selection_complexity
selection_complexity-Finishes c zero sub type depth path fd e = absurd (omega arith)
selection_complexity-Finishes c (suc fuel) sub type depth path fd e =
    elim (Bool-cases (ltb c.max_depth depth || ltb c.max_depth fd)) [
      | inl y ↦ rw (y) refl
      | inr ne ↦
          (let d : depth ≤ c.max_depth = ground arith in
            let g : fd ≤ c.max_depth = ground arith in
            rw (ne) (
              selections_cost-Finishes c _ sub 0 (λ s.
                selection_cost-Finishes c (selection_complexity c fuel) type depth path fd s
                  (λ sub' t p. (
                    selection_complexity-Finishes c fuel sub' t (suc depth) p 0
                        (deeper c.max_depth depth fd fuel d g e),
                    selection_complexity-Finishes c fuel sub' t depth p (suc fd)
                        (further c.max_depth depth fd fuel g e),
                  )))))
    ]
