-- ===== src/Billing/Plans.antt =====
-- backend/app/services/plans_data.py
use Prim.Native.String.{String}
use text.Mathlib.Text.{◌==◌ as str_eq}
use enterprise_document_inte.Base.{ℕ, Option, none, some, List, [], ◌∷◌, if◌then◌else◌}

-- `none` is unlimited.
pub record PlanLimits : Type 0 where
  pub seats : Option ℕ
  pub documents : Option ℕ
  pub queries_per_month : Option ℕ

pub record Plan : Type 0 where
  pub key : String
  pub name : String
  pub price_display : String
  pub limits : PlanLimits
  pub stripe_price_setting : Option String

abbrev pub trial : Plan
trial = record {
  key = "trial";
  name = "Trial";
  price_display = "Free";
  limits = record { seats = some 3; documents = some 25; queries_per_month = some 200 };
  stripe_price_setting = none;
}

abbrev pub pro : Plan
pro = record {
  key = "pro";
  name = "Pro";
  price_display = "$49 / seat / mo";
  limits = record { seats = some 15; documents = some 500; queries_per_month = some 5000 };
  stripe_price_setting = some "STRIPE_PRICE_PRO";
}

abbrev pub business : Plan
business = record {
  key = "business";
  name = "Business";
  price_display = "$99 / seat / mo";
  limits = record { seats = none; documents = none; queries_per_month = none };
  stripe_price_setting = some "STRIPE_PRICE_BUSINESS";
}

-- `PLANS`, in insertion order.
abbrev pub plans : List Plan
plans = trial ∷ pro ∷ business ∷ []

unfoldable pub find_plan : List Plan → String → Option Plan
find_plan [] plan_key = none
find_plan (p ∷ ps) plan_key = if str_eq p.key plan_key then some p else find_plan ps plan_key

unfoldable pub get_plan : String → Option Plan
unfolding find_plan
get_plan plan_key = find_plan plans plan_key
