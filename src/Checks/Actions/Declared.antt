-- ===== src/Checks/Actions/Declared.antt =====
-- What an action that validates against its declaration is like.
use text.Mathlib.Text.{◌==◌ as str_eq}
use text.Mathlib.TextEquality.{eq_iff}
use libvda5050pp.Common.{
  ◌≡◌, ◌≢◌, ◌⊎◌, inl, inr, refl, sym, ap, ◌∙◌, subst, arith, String, Bool, false, ◌||◌, Option,
  none, some, List, [], ◌∷◌, Result, ok, err, Bool-cases, Option-cases, Result-cases,
}
use libvda5050pp.Message.{ActionParameter}
use libvda5050pp.Checks.Actions.Declaration.{
  ParameterValueType, boolean_type, integer_type, float_type, string_type, custom_type,
  ParameterRange,
}
use libvda5050pp.Checks.Actions.Constraint.{
  Checked, accepted, refused, outside, bound, ensure_parameter_constraints, parse_bool,
  ensure_bool_constraints,
}
use libvda5050pp.Checks.Actions.Validation.{
  extract, Readers, ParameterValue, integer_value, float_value, boolean_value, string_value,
  Parameters, do_insert, check_value,
}

abbrev pub In : ParameterRange → List ParameterRange → Type 0
In r [] = ⊥
In r (q ∷ qs) = (q ≡ r) ⊎ In r qs

-- A given bound can be read, and is kept.
abbrev pub Keeps : {V : Type 0} → (String → Option V) → Option String → (V → Bool) → Type 0
Keeps read none breaks = Unit
Keeps {V} read (some b) breaks = (limit : V) × (read b ≡ some limit) × (breaks limit ≡ false)

-- The value can be read, is within the bounds, and is one of the set if there is one.
abbrev pub Within :
    {V : Type 0} → (String → Option V) → (V → V → Bool) → ParameterRange → String → Type 0
Within {V} read less r value =
    (v : V) × (read value ≡ some v)
    × Keeps read r.ordinal_min (λ least. less v least)
    × Keeps read r.ordinal_max (λ most. less most v)
    × (outside r.value_set value ≡ false)

bound-Keeps :
    {V : Type 0} (read : String → Option V) (b : Option String) (breaks : V → Bool)
    → bound read b breaks ≡ ok false
    → Keeps read b breaks
bound-Keeps read none breaks h = tt
bound-Keeps read (some b) breaks h = elim (Option-cases (read b)) [
  | inl e ↦ absurd (ground arith)
  | inr (limit, e) ↦ (limit, e, (ground arith))
]

ensure-Within :
    {V : Type 0} (read : String → Option V) (less : V → V → Bool) (r : ParameterRange)
    (value : String) (w : V)
    → ensure_parameter_constraints read less r value ≡ ok (accepted w)
    → Within read less r value
unfolding ensure_parameter_constraints
ensure-Within read less r value w h = elim (Option-cases (read value)) [
  | inl e ↦ absurd (ground arith)
  | inr (v, e) ↦ elim (Result-cases (bound read r.ordinal_min (λ least. less v least))) [
    | inr (x, f) ↦ absurd (ground arith)
    | inl (low, f) ↦ elim (Bool-cases low) [
      | inl l ↦ absurd (ground arith)
      | inr l ↦ elim (Result-cases (bound read r.ordinal_max (λ most. less most v))) [
        | inr (x, g) ↦ absurd (ground arith)
        | inl (high, g) ↦
            let k : high ≡ false = ground arith in
            let o : outside r.value_set value ≡ false = ground arith in
            (
              v,
              e,
              bound-Keeps read r.ordinal_min (λ least. less v least) (f ∙ ap (λ b. ok b) l),
              bound-Keeps read r.ordinal_max (λ most. less most v) (g ∙ ap (λ b. ok b) k),
              o,
            )
      ]
    ]
  ]
]

pub extract-found :
    (key : String) (rs : List ParameterRange) (r : ParameterRange) (left : List ParameterRange)
    → extract key rs ≡ some (r, left)
    → (r.key ≡ key)
      × In r rs
      × ((q : ParameterRange) → In q rs → (r ≡ q) ⊎ In q left)
      × ((q : ParameterRange) → In q left → In q rs)
unfolding extract
extract-found key [] r left h = absurd (ground arith)
extract-found key (s ∷ rs) r left h = elim (Bool-cases (str_eq s.key key)) [
  | inl e ↦
      let same : s ≡ r = ground arith in
      let rest : rs ≡ left = ground arith in
      (
        sym (ap (λ x. x.key) same) ∙ (eq_iff s.key key).0 e,
        inl same,
        (λ q m. elim m [ inl p ↦ inl (sym same ∙ p) | inr n ↦ inr (subst (In q) rest n) ]),
        (λ q n. inr (subst (In q) (sym rest) n)),
      )
  | inr e ↦ elim (Option-cases (extract key rs)) [
    | inl f ↦ absurd (ground arith)
    | inr (found, f) ↦
        let first : found.0 ≡ r = ground arith in
        let rest : s ∷ found.1 ≡ left = ground arith in
        let (k, there, on, back) = extract-found key rs found.0 found.1 f in
        (
          sym (ap (λ x. x.key) first) ∙ k,
          inr (subst (λ x. In x rs) first there),
          (λ q m. elim m [
            | inl p ↦ inr (subst (In q) rest (inl p))
            | inr n ↦ elim (on q n) [
              | inl p ↦ inl (sym first ∙ p)
              | inr o ↦ inr (subst (In q) rest (inr o))
            ]
          ]),
          (λ q n. elim (subst (In q) (sym rest) n) as (λ x. In q (s ∷ rs)) [
            | inl p ↦ inl p
            | inr o ↦ inr (back q o)
          ]),
        )
  ]
]

abbrev pub has_key : String → List ActionParameter → Bool
has_key key [] = false
has_key key (p ∷ ps) = str_eq p.key key || has_key key ps

do_insert-accepted :
    {V Int Float : Type 0} (wrap : V → ParameterValue Int Float) (checked : Result (Checked V))
    (key : String) (m m' : Parameters Int Float)
    → do_insert wrap checked key m ≡ ok (none, m')
    → (v : V) × (checked ≡ ok (accepted v))
unfolding do_insert
do_insert-accepted wrap (ok (accepted v)) key m m' h = (v, refl)
do_insert-accepted wrap (ok (refused e)) key m m' h = absurd (ground arith)
do_insert-accepted wrap (err e) key m m' h = absurd (ground arith)

pub ensure_bool-accepted :
    (r : ParameterRange) (value : String) (v : Bool)
    → ensure_bool_constraints r value ≡ ok (accepted v)
    → (parse_bool value ≢ none) × (outside r.value_set value ≡ false)
unfolding ensure_bool_constraints
ensure_bool-accepted r value v h = elim (Option-cases (parse_bool value)) [
  | inl e ↦ absurd (ground arith)
  | inr (w, e) ↦ ((λ p. ground arith), (ground arith))
]

module _ {Int Float : Type 0} (readers : Readers Int Float) where
  -- The value fits the declared type and range.
  abbrev pub FitsType : ParameterValueType → ParameterRange → String → Type 0
  FitsType integer_type r value = Within readers.read_integer readers.less_integer r value
  FitsType float_type r value = Within readers.read_float readers.less_float r value
  FitsType boolean_type r value = (parse_bool value ≢ none) × (outside r.value_set value ≡ false)
  FitsType string_type r value = Within (λ v. some v) readers.less_string r value
  FitsType custom_type r value = ⊥

  value_type_cases :
      (t : ParameterValueType) (r : ParameterRange) (p : ActionParameter)
      (m m' : Parameters Int Float)
      → r.value_type ≡ t
      → check_value readers r p m ≡ ok (none, m')
      → FitsType t r p.value
  unfolding check_value
  value_type_cases integer_type r p m m' e h =
      let (v, a) =
        do_insert-accepted integer_value
          (ensure_parameter_constraints readers.read_integer readers.less_integer r p.value) p.key m
          m' (ground arith) in
      ensure-Within readers.read_integer readers.less_integer r p.value v a
  value_type_cases float_type r p m m' e h =
      let (v, a) =
        do_insert-accepted float_value
          (ensure_parameter_constraints readers.read_float readers.less_float r p.value) p.key m m'
          (ground arith) in
      ensure-Within readers.read_float readers.less_float r p.value v a
  value_type_cases boolean_type r p m m' e h =
      let (v, a) =
        do_insert-accepted boolean_value (ensure_bool_constraints r p.value) p.key m m'
          (ground arith) in
      ensure_bool-accepted r p.value v a
  value_type_cases string_type r p m m' e h =
      let (v, a) =
        do_insert-accepted string_value
          (ensure_parameter_constraints (λ value. some value) readers.less_string r p.value) p.key m
          m' (ground arith) in
      ensure-Within (λ v. some v) readers.less_string r p.value v a
  value_type_cases custom_type r p m m' e h = absurd (ground arith)

  pub check_value-FitsType :
      (r : ParameterRange) (p : ActionParameter) (m m' : Parameters Int Float)
      → check_value readers r p m ≡ ok (none, m')
      → FitsType r.value_type r p.value
  check_value-FitsType r p m m' h = value_type_cases r.value_type r p m m' refl h
