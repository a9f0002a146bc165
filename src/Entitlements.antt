-- ===== src/Entitlements.antt =====
-- The features that a hotel may use (packages/shared/src/entitlements.ts): those of its plan, with the
-- overrides that the platform sets. The API and the web client share it.
pub mod Choice
use hospitality_os.Common.{
  Bool, List, Option, String, [], any, false, filterb, if◌then◌else◌, ltb, none, not, or_else, some,
  str_eq, true, ℕ, ◌&&◌, ◌==◌, ◌||◌, ◌∷◌,
}
use hospitality_os.Enums.{HotelStatus}
use hospitality_os.Store.{find_first}

pub data Feature : Type 0 where
  reservations housekeeping maintenance staff restaurant_pos : Feature
  bar_pos inventory procurement rate_management channel_manager : Feature
  online_payments billing_invoices ai_assistant ai_revenue analytics : Feature
  marketing loyalty guest_portal reviews security_reports : Feature

-- `Object.values(Feature)`
abbrev pub all_features : List Feature
all_features =
    Feature.reservations ∷ Feature.housekeeping ∷ Feature.maintenance ∷ Feature.staff
    ∷ Feature.restaurant_pos ∷ Feature.bar_pos ∷ Feature.inventory ∷ Feature.procurement
    ∷ Feature.rate_management ∷ Feature.channel_manager ∷ Feature.online_payments
    ∷ Feature.billing_invoices ∷ Feature.ai_assistant ∷ Feature.ai_revenue ∷ Feature.analytics
    ∷ Feature.marketing ∷ Feature.loyalty ∷ Feature.guest_portal ∷ Feature.reviews
    ∷ Feature.security_reports ∷ []

abbrev pub feature_name : Feature → String
feature_name Feature.reservations = "RESERVATIONS"
feature_name Feature.housekeeping = "HOUSEKEEPING"
feature_name Feature.maintenance = "MAINTENANCE"
feature_name Feature.staff = "STAFF"
feature_name Feature.restaurant_pos = "RESTAURANT_POS"
feature_name Feature.bar_pos = "BAR_POS"
feature_name Feature.inventory = "INVENTORY"
feature_name Feature.procurement = "PROCUREMENT"
feature_name Feature.rate_management = "RATE_MANAGEMENT"
feature_name Feature.channel_manager = "CHANNEL_MANAGER"
feature_name Feature.online_payments = "ONLINE_PAYMENTS"
feature_name Feature.billing_invoices = "BILLING_INVOICES"
feature_name Feature.ai_assistant = "AI_ASSISTANT"
feature_name Feature.ai_revenue = "AI_REVENUE"
feature_name Feature.analytics = "ANALYTICS"
feature_name Feature.marketing = "MARKETING"
feature_name Feature.loyalty = "LOYALTY"
feature_name Feature.guest_portal = "GUEST_PORTAL"
feature_name Feature.reviews = "REVIEWS"
feature_name Feature.security_reports = "SECURITY_REPORTS"

-- the place of a feature in the list, by which two are compared
abbrev pub place : Feature → ℕ
place Feature.reservations = 0
place Feature.housekeeping = 1
place Feature.maintenance = 2
place Feature.staff = 3
place Feature.restaurant_pos = 4
place Feature.bar_pos = 5
place Feature.inventory = 6
place Feature.procurement = 7
place Feature.rate_management = 8
place Feature.channel_manager = 9
place Feature.online_payments = 10
place Feature.billing_invoices = 11
place Feature.ai_assistant = 12
place Feature.ai_revenue = 13
place Feature.analytics = 14
place Feature.marketing = 15
place Feature.loyalty = 16
place Feature.guest_portal = 17
place Feature.reviews = 18
place Feature.security_reports = 19

-- `CORE_FEATURES.includes(f)`
abbrev pub is_core : Feature → Bool
is_core f = ltb (place f) 4

-- `isFeature(v)`, with the feature that it is
unfoldable pub parse_feature : String → Option Feature
parse_feature v = find_first (λ f. str_eq (feature_name f) v) all_features

-- a `Set<Feature>` is the test for its elements
abbrev pub FeatureSet : Type 0
FeatureSet = Feature → Bool

abbrev pub add_feature : Feature → FeatureSet → FeatureSet
add_feature f s g = place f == place g || s g

abbrev pub delete_feature : Feature → FeatureSet → FeatureSet
delete_feature f s g = not (place f == place g) && s g

-- the loop over the features of the plan
unfoldable pub add_plan : List String → FeatureSet → FeatureSet
add_plan [] s = s
add_plan (v ∷ vs) s = add_plan vs (elim (parse_feature v) [ none ↦ s | some f ↦ add_feature f s ])

-- one override
abbrev pub override_one : Option Feature → Bool → FeatureSet → FeatureSet
override_one none on s = s
override_one (some f) true s = add_feature f s
override_one (some f) false s = if is_core f then s else delete_feature f s

-- the loop over the overrides, an object as the list of its entries
unfoldable pub apply_overrides : List (String × Bool) → FeatureSet → FeatureSet
apply_overrides [] s = s
apply_overrides ((key, on) ∷ rest) s = apply_overrides rest (override_one (parse_feature key) on s)

unfoldable pub resolve_features :
    Option (List String) → Option (List (String × Bool)) → List Feature
unfolding add_plan apply_overrides
resolve_features plan overrides =
    filterb (apply_overrides (or_else overrides []) (add_plan (or_else plan []) is_core))
      all_features

-- `features?.includes(feature)`
abbrev pub includes : List Feature → Feature → Bool
includes features f = any (λ g. place g == place f) features

unfoldable pub has_feature : Option (List Feature) → Feature → Bool
has_feature features f = is_core f || includes (or_else features []) f

-- the statuses of a hotel that may use the app
abbrev pub is_operational : HotelStatus → Bool
is_operational HotelStatus.trial = true
is_operational HotelStatus.active = true
is_operational _ = false
