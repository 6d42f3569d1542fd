-- ===== src/Capabilities/Laws.antt =====
-- src/core/platform-capabilities.ts: when a platform is found available.
use cued.Base.{
  any, ◌||◌, ◌==◌, if◌then◌else◌, List, [], ◌∷◌, ◌&&◌, Bool, true, false, Option, none, some, ◌≡◌,
  ◌↔◌, Bool-cases, Option-cases, arith, inl, inr,
}
use cued.Platform.{
  signal_cli, whatsapp_helper, slack_helper, missing, outdated, authenticated, auth_state_eq,
  PermissionRequirement, HelperRequirement, Platform, HostOs, is_platform_supported_on_host,
  get_platform_permission_requirements, get_platform_helper_requirements,
}
use cued.Capabilities.Availability.{
  helper_eq, Availability, available, requires_permission, requires_helper, required_unless,
  signal_availability, whatsapp_availability, slack_availability, Metadata, counts, is_true,
  path_counts, version_counts, Inspections, CapabilityIntegration, resolve_permission_availability,
  resolve_helper_availability, summary, summarize_platform_capability,
}

lacking_permission :
    (i : Option CapabilityIntegration) (rs : List PermissionRequirement) (s : Availability)
    → resolve_permission_availability i rs ≡ some s
    → s ≡ requires_permission
unfolding resolve_permission_availability
lacking_permission none rs s h = absurd (cc)
lacking_permission (some i) [] s h = absurd (cc)
lacking_permission (some i) (r ∷ rs) s h = ground (arith, h)

required_unless-some :
    (b : Bool) (s : Availability) → required_unless b ≡ some s → s ≡ requires_helper
required_unless-some true s h = absurd (cc)
required_unless-some false s h = cc

signal_lacks :
    (m : Metadata) (s : Availability) → signal_availability m ≡ some s → s ≡ requires_helper
unfolding signal_availability
signal_lacks m s h = ground (
  arith,
  h,
  required_unless-some (counts m.signal_cli_path && is_true m.signal_version_supported) s,
)

whatsapp_lacks :
    (found : Inspections) (m : Metadata) (s : Availability)
    → whatsapp_availability found m ≡ some s
    → s ≡ requires_helper
unfolding whatsapp_availability
whatsapp_lacks found m s h =
    ground (arith, h, required_unless-some (path_counts found.whatsapp_path) s)

slack_lacks :
    (found : Inspections) (m : Metadata) (s : Availability)
    → slack_availability found m ≡ some s
    → s ≡ requires_helper
unfolding slack_availability
slack_lacks found m s h = ground (
  arith,
  h,
  required_unless-some (counts m.slack_helper_path && is_true m.slack_helper_version_supported) s,
  required_unless-some
      (path_counts found.slack_path && version_counts found.slack_version_supported) s,
)

first_branch-some :
    (a b c : Bool) (x y z : Option Availability) {s t : Availability}
    → (x ≡ some s → s ≡ t)
    → (y ≡ some s → s ≡ t)
    → (z ≡ some s → s ≡ t)
    → (if a then x else if b then y else if c then z else none) ≡ some s
    → s ≡ t
first_branch-some true b c x y z f g k h = f h
first_branch-some false true c x y z f g k h = g h
first_branch-some false false true x y z f g k h = k h
first_branch-some false false false x y z f g k h = absurd (cc)

lacking_helper :
    (found : Inspections) (i : Option CapabilityIntegration) (rs : List HelperRequirement)
    (s : Availability)
    → resolve_helper_availability found i rs ≡ some s
    → s ≡ requires_helper
unfolding resolve_helper_availability
lacking_helper found none rs s h = absurd (cc)
lacking_helper found (some i) rs s h =
    first_branch-some
      (any (λ r. r == signal_cli) rs && (i.auth_state == missing || i.auth_state == outdated))
      (any (λ r. r == whatsapp_helper) rs && i.auth_state == missing)
      (any (λ r. r == slack_helper) rs && i.auth_state == authenticated)
      (signal_availability i.metadata) (whatsapp_availability found i.metadata)
      (slack_availability found i.metadata) (signal_lacks i.metadata s)
      (whatsapp_lacks found i.metadata s) (slack_lacks found i.metadata s) h

-- A platform is found available exactly when the host supports it and neither a permission nor a
-- helper is found to lack.
pub summarize_platform_capability-available :
    (found : Inspections) (p : Platform) (integration : Option CapabilityIntegration) (os : HostOs)
    → (summarize_platform_capability found p integration os).availability ≡ available ↔ (
        (is_platform_supported_on_host p os ≡ true)
        × (resolve_permission_availability integration (get_platform_permission_requirements p)
            ≡ none)
        × (resolve_helper_availability found integration (get_platform_helper_requirements p)
            ≡ none))
unfolding summarize_platform_capability summary
summarize_platform_capability-available found p integration os =
    let permission =
      resolve_permission_availability integration (get_platform_permission_requirements p) in
    let helper =
      resolve_helper_availability found integration (get_platform_helper_requirements p) in
    elim (Bool-cases (is_platform_supported_on_host p os)) [
      | inr off ↦ (λ h. absurd (ground (arith, h, off)), λ h. absurd (ground (arith, h.0, off)))
      | inl on ↦ elim (Option-cases permission) [
        | inr lacks ↦ (
          λ h. absurd (
              ground (
                arith,
                h,
                on,
                lacks,
                lacking_permission integration (get_platform_permission_requirements p) lacks.0
                    lacks.1,
              )),
          λ h. absurd (ground (arith, h.1, lacks.1)),
        )
        | inl granted ↦ elim (Option-cases helper) [
          | inr lacks ↦ (
            λ h. absurd (
                ground (
                  arith,
                  h,
                  on,
                  granted,
                  lacks,
                  lacking_helper found integration (get_platform_helper_requirements p) lacks.0
                      lacks.1,
                )),
            λ h. absurd (ground (arith, h.2, lacks.1)),
          )
          | inl there ↦ (λ h. (on, granted, there), λ h. ground (arith, on, granted, there))
        ]
      ]
    ]
