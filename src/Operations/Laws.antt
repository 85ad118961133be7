-- ===== src/Operations/Laws.antt =====
-- What the registry says of its entries.
use mongokit.Prelude.{
  String, ◌≡◌, refl, ap, Bool, true, ◌&&◌, some, [], ◌∷◌, str_eq, eq_iff, arith, Bool-cases, inl,
  inr,
}
use mongokit.Js.Object.{Object, get, has}
use mongokit.Js.Object.Laws.{IsObject, IsObject_of_distinct, distinct, has_of_get}
use mongokit.Operations.{OperationDescriptor, op_registry, select}
use mongokit.Pagination.Sort.{includes}

some_same : (a b : OperationDescriptor) → some a ≡ some b → a ≡ b
some_same a b h = cc

-- Every entry passes a test.
abbrev pub all_pass : (OperationDescriptor → Bool) → Object OperationDescriptor → Bool
all_pass p [] = true
all_pass p ((op, meta) ∷ o) = p meta && all_pass p o

pub all_pass-get :
    (p : OperationDescriptor → Bool) (o : Object OperationDescriptor) (op : String)
    (meta : OperationDescriptor)
    → all_pass p o ≡ true
    → get op o ≡ some meta
    → p meta ≡ true
unfolding get
all_pass-get p [] op meta a h = cc
all_pass-get p ((j, v) ∷ o) op meta a h = elim (Bool-cases (str_eq j op)) [
  | inl e ↦ let f : some v ≡ some meta = rw e at h in ground (arith, ap p (some_same v meta f))
  | inr e ↦ all_pass-get p o op meta (ground arith) (rw e at h)
]

-- A name that `select` gives is an entry that passes its test.
pub select_lem :
    (p : OperationDescriptor → Bool) (o : Object OperationDescriptor) (op : String)
    → IsObject o
    → includes (select p o) op ≡ true
    → (meta : OperationDescriptor) × (get op o ≡ some meta) × (p meta ≡ true)
unfolding select includes get
select_lem p [] op i h = cc
select_lem p ((j, v) ∷ o) op (n, i) h = elim (Bool-cases (str_eq j op)) [
  | inl e ↦ elim (Bool-cases (p v)) [
    | inl f ↦ (v, rw e refl, f)
    | inr f ↦
        let (meta, g, k) = select_lem p o op i (rw f at h) in
        let m : has j o ≡ true = rw ((eq_iff j op).0 e) (has_of_get op o meta g) in
        absurd (cc (m, n))
  ]
  | inr e ↦
      let (meta, g, k) =
        select_lem p o op i
          (elim (Bool-cases (p v)) [ inl f ↦ ground (arith, rw f at h) | inr f ↦ rw f at h ]) in
      (meta, rw e g, k)
]

pub op_registry-IsObject : IsObject op_registry
unfolding op_registry has distinct
op_registry-IsObject = IsObject_of_distinct op_registry refl
