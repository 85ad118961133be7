-- ===== src/Operations/AppendOnly/Laws.antt =====
-- An append-only collection lets through reads, new rows and the allowed operations, and no more.
use mongokit.Prelude.{
  String, ◌≡◌, refl, sym, ap, subst, ◌∙◌, Bool, true, false, not, ◌&&◌, ◌||◌, Option, none, some,
  List, [], ◌∷◌, any, str_eq, eq_iff, Bool-cases, inl, inr, if◌then◌else◌, returns, throws, arith,
}
use mongokit.Js.Object.{Object, get}
use mongokit.Js.Object.Laws.{IsObject}
use mongokit.Pagination.Sort.{includes}
use mongokit.Operations.{OperationDescriptor, op_registry, select, mutating_operations}
use mongokit.Operations.Laws.{select_lem, op_registry-IsObject}
use mongokit.Operations.AppendOnly.{is_allowed, is_fenced, before, append_only_violation}

-- The operations that change or remove rows that are there, as the plugin's documentation lists them.
abbrev pub rewriting : List String
rewriting =
    "update" ∷ "findOneAndUpdate" ∷ "updateMany" ∷ "delete" ∷ "deleteMany" ∷ "restore" ∷ "claim"
    ∷ "claimVersion" ∷ "bulkWrite" ∷ []

-- The same, in the order of the registry.
abbrev registered : List String
registered =
    "update" ∷ "findOneAndUpdate" ∷ "claim" ∷ "claimVersion" ∷ "delete" ∷ "restore" ∷ "updateMany"
    ∷ "deleteMany" ∷ "bulkWrite" ∷ []

registered-eq-rewriting : (op : String) → includes registered op ≡ includes rewriting op
unfolding includes
registered-eq-rewriting op = ground arith

mutates_at : Option OperationDescriptor → Bool
mutates_at none = false
mutates_at (some meta) = meta.mutates

is_fenced_lem :
    (allow : List String) (op : String) (o : Option OperationDescriptor)
    → is_fenced allow op o ≡ (mutates_at o && not (is_allowed allow op))
unfolding is_fenced mutates_at
is_fenced_lem allow op none = refl
is_fenced_lem allow op (some meta) = refl

any-includes : (xs : List String) (op : String) → any (λ a. str_eq a op) xs ≡ includes xs op
unfolding includes
any-includes [] op = refl
any-includes (x ∷ xs) op = ap (λ b. str_eq x op || b) (any-includes xs op)

is_allowed_lem :
    (allow : List String) (op : String)
    → is_allowed allow op ≡ (str_eq "create" op || (str_eq "createMany" op || includes allow op))
unfolding is_allowed
is_allowed_lem allow op =
    ap (λ b. str_eq "create" op || (str_eq "createMany" op || b)) (any-includes allow op)

no_left : (a b : Bool) → (a || b) ≡ false → (a ≡ false) × (b ≡ false)
no_left a b h = ground arith

not_mutating :
    (o : Object OperationDescriptor) (op : String)
    → includes (select (λ x. x.mutates) o) op ≡ false
    → mutates_at (get op o) ≡ false
unfolding mutates_at select includes get
not_mutating [] op h = refl
not_mutating ((j, v) ∷ o) op h = elim (Bool-cases v.mutates) [
  | inl f ↦
      let (e, g) = no_left (str_eq j op) (includes (select (λ x. x.mutates) o) op) (rw f at h) in
      rw e (not_mutating o op g)
  | inr f ↦ elim (Bool-cases (str_eq j op)) [
    | inl e ↦ rw e f
    | inr e ↦ rw e (not_mutating o op (rw f at h))
  ]
]

-- An entry mutates exactly when it is among the selected ones.
mutates_at-get :
    (o : Object OperationDescriptor) (op : String)
    → IsObject o
    → mutates_at (get op o) ≡ includes (select (λ x. x.mutates) o) op
unfolding mutates_at
mutates_at-get o op i = elim (Bool-cases (includes (select (λ x. x.mutates) o) op)) [
  | inl e ↦ let (meta, g, m) = select_lem (λ x. x.mutates) o op i e in rw (g, e) m
  | inr e ↦ not_mutating o op e ∙ sym e
]

and_false : (a : Bool) → (a && false) ≡ false
and_false a = ground arith

-- An operation that makes new rows is fenced on neither side.
new_rows :
    (allow : List String) (name op : String)
    → str_eq name op ≡ true
    → includes registered name ≡ false
    → is_allowed allow name ≡ true
    → (includes mutating_operations op && not (is_allowed allow op))
      ≡ (includes registered op && not (includes allow op))
new_rows allow name op e r a =
    subst
      (λ k.
        (includes mutating_operations k && not (is_allowed allow k))
        ≡ (includes registered k && not (includes allow k)))
      ((eq_iff name op).0 e) (rw (r, a) (and_false (includes mutating_operations name)))

-- Of the mutating operations, those that are fenced.
fenced_lem :
    (allow : List String) (op : String)
    → (includes mutating_operations op && not (is_allowed allow op))
      ≡ (includes registered op && not (includes allow op))
unfolding mutating_operations includes
fenced_lem allow op = elim (Bool-cases (str_eq "create" op)) [
  | inl e ↦ new_rows allow "create" op e refl (is_allowed_lem allow "create")
  | inr e ↦ elim (Bool-cases (str_eq "createMany" op)) [
    | inl f ↦ new_rows allow "createMany" op f refl (is_allowed_lem allow "createMany")
    | inr f ↦ rw (is_allowed_lem allow op, e, f) refl
  ]
]

before_lem :
    (allow : List String) (op : String) (bypass b : Bool)
    → is_fenced allow op (get op op_registry) ≡ b
    → before allow op bypass ≡ (
        if b
        then if bypass then returns true else throws (append_only_violation op)
        else returns false)
unfolding before
before_lem allow op true true h = rw h refl
before_lem allow op false true h = rw h refl
before_lem allow op bypass false h = rw h refl

-- For every operation: it is fenced exactly when it is one of the nine that the documentation lists
-- as rewriting rows and is not on the list of allowed operations. A fenced operation is refused
-- without a bypass, and goes on and is reported with one; any other goes on and nothing is reported.
pub before-eq-fenced :
    (allow : List String) (op : String) (bypass : Bool)
    → before allow op bypass ≡ (
        if includes rewriting op && not (includes allow op)
        then if bypass then returns true else throws (append_only_violation op)
        else returns false)
unfolding mutating_operations
before-eq-fenced allow op bypass = before_lem allow op bypass _ (
    is_fenced_lem allow op (get op op_registry)
    ∙ ap (λ b. b && not (is_allowed allow op)) (mutates_at-get op_registry op op_registry-IsObject)
    ∙ fenced_lem allow op
    ∙ ap (λ b. b && not (includes allow op)) (registered-eq-rewriting op))
