-- ===== src/Entitlements/Choice.antt =====
-- What the resolution of the features means for one of them.
use hospitality_os.Common.{
  ==_iff, Bool, Bool-cases, List, Option, Option-cases, String, [], ap, arith, false, filterb,
  if◌then◌else◌, inl, inr, none, or_else, or_option, refl, some, suc, sym, true, zero, ℕ, ◌&&◌,
  ◌==◌, ◌||◌, ◌∙◌, ◌∷◌, ◌≡◌, ◌⊎◌,
}
use hospitality_os.Entitlements.{
  Feature, FeatureSet, add_feature, add_plan, all_features, apply_overrides, has_feature, includes,
  is_core, override_one, parse_feature, place, resolve_features,
}

-- the feature at a place
abbrev feature_at : ℕ → List Feature → Feature
feature_at n [] = Feature.reservations
feature_at zero (f ∷ fs) = f
feature_at (suc n) (f ∷ fs) = feature_at n fs

at_place : (f : Feature) → feature_at (place f) all_features ≡ f
at_place Feature.reservations = refl
at_place Feature.housekeeping = refl
at_place Feature.maintenance = refl
at_place Feature.staff = refl
at_place Feature.restaurant_pos = refl
at_place Feature.bar_pos = refl
at_place Feature.inventory = refl
at_place Feature.procurement = refl
at_place Feature.rate_management = refl
at_place Feature.channel_manager = refl
at_place Feature.online_payments = refl
at_place Feature.billing_invoices = refl
at_place Feature.ai_assistant = refl
at_place Feature.ai_revenue = refl
at_place Feature.analytics = refl
at_place Feature.marketing = refl
at_place Feature.loyalty = refl
at_place Feature.guest_portal = refl
at_place Feature.reviews = refl
at_place Feature.security_reports = refl

same_place : (f g : Feature) → (place f == place g) ≡ true → f ≡ g
same_place f g e =
    sym (at_place f)
    ∙ ap (λ n. feature_at n all_features) ((==_iff (place f) (place g)).0 e)
    ∙ at_place g

is_listed : (f : Feature) → includes all_features f ≡ true
is_listed Feature.reservations = refl
is_listed Feature.housekeeping = refl
is_listed Feature.maintenance = refl
is_listed Feature.staff = refl
is_listed Feature.restaurant_pos = refl
is_listed Feature.bar_pos = refl
is_listed Feature.inventory = refl
is_listed Feature.procurement = refl
is_listed Feature.rate_management = refl
is_listed Feature.channel_manager = refl
is_listed Feature.online_payments = refl
is_listed Feature.billing_invoices = refl
is_listed Feature.ai_assistant = refl
is_listed Feature.ai_revenue = refl
is_listed Feature.analytics = refl
is_listed Feature.marketing = refl
is_listed Feature.loyalty = refl
is_listed Feature.guest_portal = refl
is_listed Feature.reviews = refl
is_listed Feature.security_reports = refl

includes-filterb :
    (s : FeatureSet) (f : Feature) (fs : List Feature)
    → includes (filterb s fs) f ≡ (includes fs f && s f)
includes-filterb s f [] = refl
includes-filterb s f (g ∷ fs) =
    let rest = includes-filterb s f fs in
    elim (Bool-cases (place g == place f)) [
      | inl same ↦ ground (arith, ap s (same_place g f same))
      | inr other ↦ ground (arith)
    ]

-- the plan lists the feature
unfoldable pub plan_lists : Feature → List String → Bool
plan_lists f [] = false
plan_lists f (v ∷ vs) =
    elim (parse_feature v) [ none ↦ false | some g ↦ place g == place f ] || plan_lists f vs

-- the last override of the feature, if there is one
abbrev pub chosen : Feature → Option Feature → Bool → Option Bool
chosen f none on = none
chosen f (some g) on = if place g == place f then some on else none

unfoldable pub last_choice : Feature → List (String × Bool) → Option Bool
last_choice f [] = none
last_choice f ((key, on) ∷ rest) = or_option (last_choice f rest) (chosen f (parse_feature key) on)

add_plan_lem :
    (f : Feature) (vs : List String) (s : FeatureSet) → add_plan vs s f ≡ (plan_lists f vs || s f)
unfolding add_plan plan_lists
add_plan_lem f [] s = refl
add_plan_lem f (v ∷ vs) s = elim (Option-cases (parse_feature v)) [
  | inl unknown ↦ rw unknown (add_plan_lem f vs s)
  | inr (g, known) ↦
      rw known
        (add_plan_lem f vs (add_feature g s) ∙ swap (plan_lists f vs) (place g == place f) (s f))
]
  where
    swap : (a b c : Bool) → (a || (b || c)) ≡ ((b || a) || c)
    swap a b c = ground arith

-- a feature after one override
override_one_lem :
    (f : Feature) (o : Option Feature) (on : Bool) (s : FeatureSet)
    → (is_core f ≡ false) ⊎ (s f ≡ true)
    → override_one o on s f ≡ (elim (chosen f o on) [ none ↦ s f | some b ↦ is_core f || b ])
override_one_lem f none on s core = refl
override_one_lem f (some g) true s core = ground arith
override_one_lem f (some g) false s core = elim (Bool-cases (place g == place f)) [
  | inl same ↦ ground (arith, ap is_core (same_place g f same), core, same)
  | inr other ↦ ground (arith, other)
]

-- a core feature, or one that the overrides or the plan decide
abbrev pub decided : Feature → Option Bool → Bool → Bool
decided f none in_plan = is_core f || in_plan
decided f (some b) in_plan = is_core f || b

core_kept :
    (f : Feature) (o : Option Bool) (before after : Bool)
    → (is_core f ≡ false) ⊎ (before ≡ true)
    → after ≡ (elim o [ none ↦ before | some b ↦ is_core f || b ])
    → (is_core f ≡ false) ⊎ (after ≡ true)
core_kept f o before after (inl plain) e = inl plain
core_kept f none before after (inr on) e = inr (e ∙ on)
core_kept f (some b) before after (inr on) e = elim (Bool-cases (is_core f)) [
  | inl core ↦ inr (e ∙ rw core refl)
  | inr plain ↦ inl plain
]

decided_twice :
    (f : Feature) (later o : Option Bool) (before after : Bool)
    → after ≡ (elim o [ none ↦ before | some b ↦ is_core f || b ])
    → decided f later after ≡ decided f (or_option later o) before
decided_twice f (some b) o before after e = refl
decided_twice f none none before after e = ap (λ x. is_core f || x) e
decided_twice f none (some b) before after e = ap (λ x. is_core f || x) e ∙ twice (is_core f) b
  where
    twice : (a b : Bool) → (a || (a || b)) ≡ (a || b)
    twice true b = refl
    twice false b = refl

overrides_lem :
    (f : Feature) (ov : List (String × Bool)) (s : FeatureSet)
    → (is_core f ≡ false) ⊎ (s f ≡ true)
    → apply_overrides ov s f ≡ decided f (last_choice f ov) (s f)
unfolding apply_overrides last_choice
overrides_lem f [] s core = elim core [ inl plain ↦ rw plain refl | inr on ↦ ground (arith, on) ]
overrides_lem f ((key, on) ∷ rest) s core =
    let o = parse_feature key in
    let one = override_one_lem f o on s core in
    overrides_lem f rest (override_one o on s)
      (core_kept f (chosen f o on) (s f) (override_one o on s f) core one)
    ∙ decided_twice f (last_choice f rest) (chosen f o on) (s f) (override_one o on s f) one

-- The resolved list has a feature exactly if it is a core feature, or the last override of it says on,
-- or no override names it and the plan lists it: no plan and no override takes a core feature out of
-- the list. The test of the resolved list for a feature says the same.
pub has_feature-resolve_features :
    (plan : Option (List String)) (overrides : Option (List (String × Bool))) (f : Feature)
    → let features = resolve_features plan overrides in
      let d = decided f (last_choice f (or_else overrides [])) (plan_lists f (or_else plan [])) in
      (includes features f ≡ d) × (has_feature (some features) f ≡ d)
unfolding has_feature resolve_features
has_feature-resolve_features plan overrides f = (
  listed,
  ap (λ b. is_core f || b) listed
      ∙ core_once (last_choice f (or_else overrides [])) (plan_lists f (or_else plan [])),
)
  where
    last_true : (a : Bool) → (a || true) ≡ true
    last_true true = refl
    last_true false = refl

    starts :
        add_plan (or_else plan []) is_core f ≡ (plan_lists f (or_else plan []) || is_core f)
        → (is_core f ≡ false) ⊎ (add_plan (or_else plan []) is_core f ≡ true)
    starts e = elim (Bool-cases (is_core f)) [
      | inl core ↦ inr (e ∙ rw core (last_true (plan_lists f (or_else plan []))))
      | inr plain ↦ inl plain
    ]

    settle_core : (o : Option Bool) (l : Bool) → decided f o (l || is_core f) ≡ decided f o l
    settle_core none l = ground arith
    settle_core (some b) l = refl

    core_once : (o : Option Bool) (l : Bool) → (is_core f || decided f o l) ≡ decided f o l
    core_once none l = ground arith
    core_once (some b) l = ground arith

    listed :
        includes
          (filterb
            (apply_overrides (or_else overrides []) (add_plan (or_else plan []) is_core))
            all_features)
          f
        ≡ decided f (last_choice f (or_else overrides [])) (plan_lists f (or_else plan []))
    listed =
        let s = add_plan (or_else plan []) is_core in
        let ov = or_else overrides [] in
        let added = add_plan_lem f (or_else plan []) is_core in
        rw
          (
            includes-filterb (apply_overrides ov s) f all_features,
            is_listed f,
            overrides_lem f ov s (starts added),
            added,
          )
          (settle_core (last_choice f ov) (plan_lists f (or_else plan [])))
