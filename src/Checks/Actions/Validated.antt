-- ===== src/Checks/Actions/Validated.antt =====
-- What an action is like that `validateActionWithDeclaration` finds no error in.
use text.Mathlib.Text.{◌==◌ as str_eq}
use text.Mathlib.TextEquality.{eq_iff}
use libvda5050pp.Common.{
  ◌≡◌, ◌≢◌, ◌⊎◌, inl, inr, refl, sym, ap, ◌∙◌, subst, arith, String, Bool, true, false, not, ◌||◌,
  Option, none, some, List, [], ◌∷◌, ◌++◌, is_empty, if◌then◌else◌, ok, ◌>>=◌, All, Option-cases,
  Result-cases,
}
use libvda5050pp.Message.{Action, ActionParameter}
use libvda5050pp.Checks.Actions.Declaration.{
  ParameterRange, ActionDeclaration, ActionContext, unspecified_context, instant_context,
  edge_context, node_context, ActionError, unknown_action_parameter, action_type_mismatch,
  action_blocking_type_mismatch, missing_action_parameter, context_check, allows,
}
use libvda5050pp.Checks.Actions.Validation.{
  extract, Readers, Parameters, check_value, as_list, and_errors, check_parameters, given,
  validate_action_with_declaration,
}
use libvda5050pp.Checks.Actions.Declared.{In, FitsType, extract-found, check_value-FitsType}

abbrev pub has_key : String → List ActionParameter → Bool
has_key key [] = false
has_key key (p ∷ ps) = str_eq p.key key || has_key key ps

append-nil_both : (es fs : List ActionError) → es ++ fs ≡ [] → (es ≡ []) × (fs ≡ [])
append-nil_both [] fs h = (refl, h)
append-nil_both (e ∷ es) fs h = absurd (ground arith)

as_list-none : (e : Option ActionError) → as_list e ≡ [] → e ≡ none
as_list-none none h = refl
as_list-none (some e) h = absurd (ground arith)

module _ {Int Float : Type 0} (readers : Readers Int Float) where
  -- A parameter that is declared, among the required or the optional ones, with a value that fits.
  abbrev pub IsDeclared : List ParameterRange → List ParameterRange → ActionParameter → Type 0
  IsDeclared required optional p =
      (r : ParameterRange) × (In r required ⊎ In r optional)
      × (r.key ≡ p.key)
      × FitsType readers r.value_type r p.value

  -- One parameter with its range, and the rest of the loop.
  one_round :
      (r : ParameterRange) (p : ActionParameter) (ps : List ActionParameter)
      (required optional rest : List ParameterRange) (m m' : Parameters Int Float)
      → (do
        checked ← check_value readers r p m
        after ← check_parameters readers ps required optional checked.1
        and_errors (as_list checked.0) after)
        ≡ ok ([], rest, m')
      → (m₁ : Parameters Int Float) × FitsType readers r.value_type r p.value
        × (check_parameters readers ps required optional m₁ ≡ ok ([], rest, m'))
  one_round r p ps required optional rest m m' h = elim (Result-cases (check_value readers r p m)) [
    | inr (x, e) ↦ absurd (ground arith)
    | inl (checked, e) ↦
        elim (Result-cases (check_parameters readers ps required optional checked.1)) [
          | inr (x, f) ↦ absurd (ground arith)
          | inl (after, f) ↦
              let errors : as_list checked.0 ++ after.0 ≡ [] = ground arith in
              let left : after.1 ≡ rest = ground arith in
              let map : after.2 ≡ m' = ground arith in
              let (none_here, none_after) = append-nil_both (as_list checked.0) after.0 errors in
              let fine = as_list-none checked.0 none_here in
              (
                checked.1,
                check_value-FitsType readers r p m checked.1 (e ∙ ap (λ x. ok (x, checked.1)) fine),
                f ∙ cc,
              )
        ]
  ]

  -- The errors of a parameter that nothing declares.
  unknown_round :
      (key : ActionError) (ps : List ActionParameter) (required optional rest : List ParameterRange)
      (m m' : Parameters Int Float)
      → (do after ← check_parameters readers ps required optional m; and_errors (key ∷ []) after)
        ≢ ok ([], rest, m')
  unknown_round key ps required optional rest m m' h =
      elim (Result-cases (check_parameters readers ps required optional m)) [
        | inr (x, e) ↦ ground arith
        | inl (after, e) ↦ ground arith
      ]

  check_parameters-IsDeclared :
      (ps : List ActionParameter)
      (all_required all_optional required optional rest : List ParameterRange)
      (m m' : Parameters Int Float)
      → ((r : ParameterRange) → In r required → In r all_required)
      → ((r : ParameterRange) → In r optional → In r all_optional)
      → check_parameters readers ps required optional m ≡ ok ([], rest, m')
      → All (IsDeclared all_required all_optional) ps
        × ((r : ParameterRange) → In r required → In r rest ⊎ (has_key r.key ps ≡ true))
  unfolding check_parameters
  check_parameters-IsDeclared [] R O required optional rest m m' u v h =
      let same : required ≡ rest = ground arith in (tt, λ r i. inl (subst (In r) same i))
  check_parameters-IsDeclared (p ∷ ps) R O required optional rest m m' u v h =
      elim (Option-cases (extract p.key required)) [
        | inr (found, e) ↦
            let (m₁, fits, go) = one_round found.0 p ps found.1 optional rest m m' (ground arith) in
            let (key, there, on, back) = extract-found p.key required found.0 found.1 e in
            let (declared, left) =
              check_parameters-IsDeclared ps R O found.1 optional rest m₁ m' (λ r i. u r (back r i))
                v go in
            (
              ((found.0, inl (u found.0 there), key, fits), declared),
              λ r i. elim (on r i) [
                | inl same ↦
                    let k : p.key ≡ r.key = sym key ∙ ap (λ x. x.key) same in
                    inr (ground (arith, (eq_iff p.key r.key).1 k))
                | inr j ↦ elim (left r j) [ inl stays ↦ inl stays | inr has ↦ inr (ground arith) ]
              ],
            )
        | inl e ↦ elim (Option-cases (extract p.key optional)) [
          | inl f ↦ absurd (
              unknown_round (unknown_action_parameter p.key) ps required optional rest m m'
                (ground arith))
          | inr (found, f) ↦
              let (m₁, fits, go) =
                one_round found.0 p ps required found.1 rest m m' (ground arith) in
              let (key, there, on, back) = extract-found p.key optional found.0 found.1 f in
              let (declared, left) =
                check_parameters-IsDeclared ps R O required found.1 rest m₁ m' u
                  (λ r i. v r (back r i)) go in
              (
                ((found.0, inr (v found.0 there), key, fits), declared),
                λ r i. elim (left r i) [ inl stays ↦ inl stays | inr has ↦ inr (ground arith) ],
              )
        ]
      ]

-- Where the action may run by its declaration.
abbrev pub allowed_in : ActionContext → ActionDeclaration → Bool
allowed_in unspecified_context d = true
allowed_in instant_context d = d.instant
allowed_in edge_context d = d.edge
allowed_in node_context d = d.node

context_check-allowed_in :
    (c : ActionContext) (d : ActionDeclaration) → context_check c d ≡ [] → allowed_in c d ≡ true
unfolding context_check
context_check-allowed_in unspecified_context d h = refl
context_check-allowed_in instant_context d h = ground arith
context_check-allowed_in edge_context d h = ground arith
context_check-allowed_in node_context d h = ground arith

required_given :
    (ps : List ActionParameter) (rs : List ParameterRange)
    → ((r : ParameterRange) → In r rs → In r [] ⊎ (has_key r.key ps ≡ true))
    → All (λ (r : ParameterRange). has_key r.key ps ≡ true) rs
required_given ps [] h = tt
required_given ps (r ∷ rs) h = (
  elim (h r (inl refl)) [ inl never ↦ absurd never | inr has ↦ has ],
  required_given ps rs (λ q i. h q (inr i)),
)

if_nil : (b : Bool) (e : ActionError) → (if b then e ∷ [] else []) ≡ [] → b ≡ false
if_nil true e h = absurd (ground arith)
if_nil false e h = refl

not-false : (b : Bool) → not b ≡ false → b ≡ true
not-false true h = refl
not-false false h = absurd (ground arith)

empty_nil : (rs : List ParameterRange) → is_empty rs ≡ true → rs ≡ []
empty_nil [] h = refl
empty_nil (r ∷ rs) h = absurd (ground arith)

-- An action that validates without errors is of the declared type, may run in the context and has
-- one of the declared blocking types; each of its parameters is declared, and its value can be
-- read, is within the declared bounds and in the declared set; and each required parameter is
-- there.
pub validate_action_with_declaration-IsDeclared :
    {Int Float : Type 0} (readers : Readers Int Float) (a : Action) (c : ActionContext)
    (d : ActionDeclaration) (m m' : Parameters Int Float)
    → validate_action_with_declaration readers a c d m ≡ ok ([], m')
    → (d.action_type ≡ a.action_type)
      × (allowed_in c d ≡ true)
      × (allows d.blocking_types a.blocking_type ≡ true)
      × All (IsDeclared readers d.parameter d.optional_parameter) (given a)
      × All (λ (r : ParameterRange). has_key r.key (given a) ≡ true) d.parameter
unfolding validate_action_with_declaration
validate_action_with_declaration-IsDeclared readers a c d m m' h =
    elim (Result-cases (check_parameters readers (given a) d.parameter d.optional_parameter m)) [
      | inr (x, e) ↦ absurd (ground arith)
      | inl (checked, e) ↦
          let errors : (if not (str_eq d.action_type a.action_type)
                  then action_type_mismatch a.action_type d.action_type ∷ []
                  else [])
                ++ (context_check c d
                    ++ ((if not (allows d.blocking_types a.blocking_type)
                          then action_blocking_type_mismatch a.blocking_type ∷ []
                          else [])
                        ++ (checked.0
                            ++ (if not (is_empty checked.1)
                                then missing_action_parameter checked.1 ∷ []
                                else []))))
              ≡ [] =
            ground arith in
          let (t, r₁) = append-nil_both _ _ errors in
          let (x, r₂) = append-nil_both (context_check c d) _ r₁ in
          let (b, r₃) = append-nil_both _ _ r₂ in
          let (p, n) = append-nil_both checked.0 _ r₃ in
          let none_left : checked.1 ≡ [] = empty_nil checked.1 (not-false _ (if_nil _ _ n)) in
          let (declared, left) =
            check_parameters-IsDeclared readers (given a) d.parameter d.optional_parameter
              d.parameter d.optional_parameter [] m checked.2 (λ r i. i) (λ r i. i)
              (e
                ∙ ap (λ z. ok (z, checked.1, checked.2)) p
                ∙ ap (λ z. ok ([], z, checked.2)) none_left) in
          (
            (eq_iff d.action_type a.action_type).0 (not-false _ (if_nil _ _ t)),
            context_check-allowed_in c d x,
            not-false _ (if_nil _ _ b),
            declared,
            required_given (given a) d.parameter left,
          )
    ]
