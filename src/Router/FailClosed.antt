-- ===== src/Router/FailClosed.antt =====
-- Content that must stay private never goes to the cloud.
use Prim.Native.String.{String}
use text.Mathlib.Text.{◌==◌ as str_eq}
use text.Mathlib.TextEquality.{eq_iff}
use mathlib.Core.Bool.{false≢true}
use enterprise_document_inte.Base.{
  ◌≡◌, ◌≤◌, ◌⊎◌, inl, inr, refl, Bool, true, ◌||◌, Option, none, some, arith, leb→le, sym, ◌∙◌,
  Bool-cases,
}
use enterprise_document_inte.Errors.{Error}
use enterprise_document_inte.Models.{ClassificationLevel}
use enterprise_document_inte.Session.{Settings, Result, ok, err}
use enterprise_document_inte.Router.{
  Profile, Node, TenantSettings, rank, threshold, Route, ModelRouter, resolve, is_sensitive,
  mode_or, settings_or_default, cloud_model,
}

-- Why a call must stay on the self-hosted profile: the deployment, the tenant's policy, or content at
-- the level that the tenant calls sensitive, or above it.
pub data MustStayPrivate (mode : String) (ts : TenantSettings) (c : Option ClassificationLevel)
    : Type 0 where
  private_cloud : mode ≡ "private_cloud" → MustStayPrivate mode ts c
  air_gapped : mode ≡ "air_gapped" → MustStayPrivate mode ts c
  by_policy : ts.require_self_hosted_llm ≡ true → MustStayPrivate mode ts c
  by_level :
      (level : ClassificationLevel)
      → c ≡ some level
      → rank (threshold ts.sensitive_classification) ≤ rank level
      → MustStayPrivate mode ts c

-- The answer of a router without, and with, a self-hosted client.
abbrev pub private_answer : {Client : Type 0} → Settings → Option Client → Result (Route Client)
private_answer settings none = err Error.llm_routing
private_answer settings (some client) = ok (record {
  client = client;
  model = settings.self_hosted_llm_model;
  profile = Profile.self_hosted;
})

module _ (mode : String) (ts : TenantSettings) (c : Option ClassificationLevel) where
  abbrev is_private : Bool
  is_private =
      (str_eq mode "private_cloud" || str_eq mode "air_gapped")
      || (ts.require_self_hosted_llm || is_sensitive ts c)

  is_private_complete : MustStayPrivate mode ts c → is_private ≡ true
  is_private_complete (private_cloud e) = ground (arith, (eq_iff mode "private_cloud").1 e)
  is_private_complete (air_gapped e) = ground (arith, (eq_iff mode "air_gapped").1 e)
  is_private_complete (by_policy e) = ground arith
  is_private_complete (by_level level e le) = ground arith

by_sensitive :
    (mode : String) (ts : TenantSettings) (c : Option ClassificationLevel)
    → is_sensitive ts c ≡ true
    → MustStayPrivate mode ts c
by_sensitive mode ts none h = absurd (false≢true h)
by_sensitive mode ts (some level) h = by_level level refl (leb→le _ _ h)

is_private_sound :
    (mode : String) (ts : TenantSettings) (c : Option ClassificationLevel)
    → is_private mode ts c ≡ true
    → MustStayPrivate mode ts c
is_private_sound mode ts c h = elim (Bool-cases (str_eq mode "private_cloud")) [
  | inl cloud ↦ private_cloud ((eq_iff mode "private_cloud").0 cloud)
  | inr not_cloud ↦ elim (Bool-cases (str_eq mode "air_gapped")) [
    | inl gapped ↦ air_gapped ((eq_iff mode "air_gapped").0 gapped)
    | inr not_gapped ↦ elim (Bool-cases ts.require_self_hosted_llm) [
      | inl policy ↦ by_policy policy
      | inr free ↦ by_sensitive mode ts c (ground arith)
    ]
  ]
]

module _ {Client : Type 0} (settings : Settings) (router : ModelRouter Client) (node : Node)
    (c : Option ClassificationLevel) (tenant : Option TenantSettings)
    (deployment : Option String) where
  abbrev Private : Type 0
  Private =
      MustStayPrivate (mode_or deployment settings.deployment_mode) (settings_or_default tenant) c

  -- Either the call must stay private, and it goes to the self-hosted client or, if there is none, is
  -- refused; or nothing keeps it private, and it goes to the cloud client with the node's model.
  pub resolve_fails_closed :
      (Private
        × (resolve Client settings router node c tenant deployment
            ≡ private_answer settings router.self_hosted_client))
      ⊎ ((¬ Private)
          × (resolve Client settings router node c tenant deployment
              ≡ ok (record {
                client = router.cloud_client;
                model = cloud_model Client settings node;
                profile = Profile.cloud;
              })))
  unfolding resolve
  resolve_fails_closed =
      let mode = mode_or deployment settings.deployment_mode in
      let ts = settings_or_default tenant in
      elim (Bool-cases (is_private mode ts c)) [
        | inl kept ↦ inl (is_private_sound mode ts c kept, ground arith)
        | inr free ↦
            inr (λ m. false≢true (sym free ∙ is_private_complete mode ts c m), ground arith)
      ]
