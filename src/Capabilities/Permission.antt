-- ===== src/Capabilities/Permission.antt =====
-- src/core/platform-capabilities.ts and the permissions of src/platforms/core/types.ts.
use cued.Base.{◌<◌, true, List, [], ◌∷◌, length, none, some, ◌≡◌, refl, arith}
use cued.Platform.{
  Platform, contacts, discord, gmail, imessage, linkedin, signal, slack, whatsapp, HostOs,
  authorized, auth_state_eq, PermissionRequirement, get_platform_permission_requirements,
}
use cued.Capabilities.Availability.{
  available, Inspections, CapabilityIntegration, resolve_permission_availability,
  needs_authorization, summarize_platform_capability,
}
use cued.Capabilities.Laws.{summarize_platform_capability-available}

permissions_checked :
    (p : Platform)
    → 0 < length (get_platform_permission_requirements p)
    → needs_authorization p ≡ true
unfolding get_platform_permission_requirements
permissions_checked contacts h = refl
permissions_checked imessage h = refl
permissions_checked discord h = absurd (omega (arith, h))
permissions_checked gmail h = absurd (omega (arith, h))
permissions_checked linkedin h = absurd (omega (arith, h))
permissions_checked signal h = absurd (omega (arith, h))
permissions_checked slack h = absurd (omega (arith, h))
permissions_checked whatsapp h = absurd (omega (arith, h))

none_lacking :
    (i : CapabilityIntegration) (rs : List PermissionRequirement)
    → 0 < length rs
    → needs_authorization i.platform ≡ true
    → resolve_permission_availability (some i) rs ≡ none
    → i.auth_state ≡ authorized
unfolding resolve_permission_availability
none_lacking i [] h c e = absurd (omega (arith, h))
none_lacking i (r ∷ rs) h c e = ground (arith, c, e)

-- A platform that lists a permission, summarised with its own integration, is found available only
-- when that integration is authorized, on every host and whatever the helpers are like.
pub summarize_platform_capability-authorized :
    (found : Inspections) (p : Platform) (i : CapabilityIntegration) (os : HostOs)
    → i.platform ≡ p
    → 0 < length (get_platform_permission_requirements p)
    → (summarize_platform_capability found p (some i) os).availability ≡ available
    → i.auth_state ≡ authorized
summarize_platform_capability-authorized found p i os own listed h =
    none_lacking i (get_platform_permission_requirements p) listed
      (rw own (permissions_checked p listed))
      ((summarize_platform_capability-available found p (some i) os).0 h).1
