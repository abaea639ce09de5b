-- ===== src/Router.antt =====
-- backend/app/services/model_router.py, with `TenantSettings` of backend/app/schemas/tenant.py. A
-- client is a value of the type `Client`: the router only hands it on.
pub mod FailClosed
use Prim.Native.String.{String}
use text.Mathlib.Text.{◌==◌ as str_eq}
use enterprise_document_inte.Base.{
  ℕ, Bool, true, false, ◌||◌, Option, none, some, leb, if◌then◌else◌,
}
use enterprise_document_inte.Errors.{Error}
use enterprise_document_inte.Models.{ClassificationLevel}
use enterprise_document_inte.Session.{Settings, Result, ok, err}

pub data Profile : Type 0 where
  cloud self_hosted : Profile

pub data Node : Type 0 where
  planner verifier synthesizer : Node

-- `sensitive_classification`, one of two levels.
pub data Sensitive : Type 0 where
  confidential privileged : Sensitive

pub record TenantSettings : Type 0 where
  pub require_self_hosted_llm : Bool
  pub sensitive_classification : Sensitive

abbrev pub default_settings : TenantSettings
default_settings = record {
  require_self_hosted_llm = false;
  sensitive_classification = Sensitive.confidential;
}

-- `_RANK`
unfoldable pub rank : ClassificationLevel → ℕ
rank ClassificationLevel.public = 0
rank ClassificationLevel.internal = 1
rank ClassificationLevel.confidential = 2
rank ClassificationLevel.privileged = 3

-- `ClassificationLevel(ts.sensitive_classification)`
unfoldable pub threshold : Sensitive → ClassificationLevel
threshold Sensitive.confidential = ClassificationLevel.confidential
threshold Sensitive.privileged = ClassificationLevel.privileged

abbrev pub settings_or_default : Option TenantSettings → TenantSettings
settings_or_default none = default_settings
settings_or_default (some ts) = ts

-- `deployment_mode or settings.DEPLOYMENT_MODE`
abbrev pub mode_or : Option String → String → String
mode_or none default = default
mode_or (some String.[]) default = default
mode_or (some (String.◌∷◌ c s)) default = String.◌∷◌ c s

-- The classification of the content is at or above the tenant's threshold.
abbrev pub is_sensitive : TenantSettings → Option ClassificationLevel → Bool
is_sensitive ts none = false
is_sensitive ts (some level) = leb (rank (threshold ts.sensitive_classification)) (rank level)

module _ (Client : Type 0) where
  pub record Route : Type 0 where
    pub client : Client
    pub model : String
    pub profile : Profile

  pub record ModelRouter : Type 0 where
    pub cloud_client : Client
    pub self_hosted_client : Option Client

  unfoldable pub cloud_model : Settings → Node → String
  cloud_model settings Node.planner = settings.planner_model
  cloud_model settings Node.verifier = settings.verifier_model
  cloud_model settings Node.synthesizer = settings.synthesizer_model

  unfoldable pub cloud_route : Settings → ModelRouter → Node → Route
  cloud_route settings router node = record {
    client = router.cloud_client;
    model = cloud_model settings node;
    profile = Profile.cloud;
  }

  abbrev hosted : Settings → Option Client → Result Route
  hosted settings none = err Error.llm_routing
  hosted settings (some client) = ok (record {
    client = client;
    model = settings.self_hosted_llm_model;
    profile = Profile.self_hosted;
  })

  unfoldable pub self_hosted_route : Settings → ModelRouter → Result Route
  self_hosted_route settings router = hosted settings router.self_hosted_client

  unfoldable pub resolve :
      Settings
      → ModelRouter
      → Node
      → Option ClassificationLevel
      → Option TenantSettings
      → Option String
      → Result Route
  unfolding self_hosted_route cloud_route
  resolve settings router node classification tenant_settings deployment_mode =
      let ts = settings_or_default tenant_settings in
      let mode = mode_or deployment_mode settings.deployment_mode in
      if str_eq mode "private_cloud" || str_eq mode "air_gapped"
      then self_hosted_route settings router
      else if ts.require_self_hosted_llm
      then self_hosted_route settings router
      else if is_sensitive ts classification
      then self_hosted_route settings router
      else ok (cloud_route settings router node)

  -- `_SingleClientRouter.resolve`: every node goes to the injected client.
  unfoldable pub single_client_resolve : Settings → Client → Node → Route
  unfolding cloud_route
  single_client_resolve settings client node =
      cloud_route settings (record { cloud_client = client; self_hosted_client = some client }) node

  -- `get_model_router`: there is a self-hosted profile only where an endpoint is configured.
  unfoldable pub get_model_router : Bool → Client → Client → ModelRouter
  get_model_router self_hosted_llm_configured llm endpoint = record {
    cloud_client = llm;
    self_hosted_client = if self_hosted_llm_configured then some endpoint else none;
  }
