-- ===== src/Contacts/NoCycle.antt =====
-- src/db/database.ts, `planContactMergeDecisions`: the exceptions about a cycle are never thrown.
use cued.Base.{
  if◌then◌else◌, Bool, true, false, ◌||◌, not, String, List, [], ◌∷◌, any, ◌==◌, string_eq,
  is_empty, trim, ◌≡◌, refl, ◌⊎◌, inl, inr, arith,
}
use cued.Contacts.Types.{
  MergeInput, MergeError, and_then, contact_not_found, primary, secondary, missing_id,
  merge_into_itself,
}
use cued.Contacts.Alias.{AliasMap, set_alias}
use cued.Contacts.Merge.{plan_merge, plan_merges}
use cued.Contacts.Resolution.{Leads-end, resolve_canonical_iff}
use cued.Contacts.Union.{joined}
use cued.Contacts.Plan.{
  NoCycle, Resolves, Leads-filled, resolve_set_alias, plan_canonical-NoCycle, plan_merge-Joins,
}

NoCycle-guard {ℓ} :
    {A : Type ℓ} (t : Bool) (e x : MergeError ⊎ A)
    → NoCycle e
    → (t ≡ false → NoCycle x)
    → NoCycle (if t then e else x)
NoCycle-guard true e x ok rest = ok
NoCycle-guard false e x ok rest = rest refl

plan_merge-NoCycle :
    (contacts : List String) (m : AliasMap) (id : String) (merge : MergeInput)
    → Resolves m
    → NoCycle (plan_merge contacts m (id, merge))
unfolding plan_merge
plan_merge-NoCycle contacts m id merge forest =
    let p = trim merge.primary_contact_id in
    let s = trim merge.secondary_contact_id in
    let (p', p_found) = forest p in
    let (s', s_found) = forest s in
    let (n, p_path) = (resolve_canonical_iff m p p').1.0 p_found in
    let (k, s_path) = (resolve_canonical_iff m s s').1.0 s_found in
    NoCycle-guard (is_empty p || is_empty s) (inl missing_id) _ tt (λ given.
      NoCycle-guard (p == s) (inl merge_into_itself) _ tt (λ _.
        NoCycle-guard (not (any (λ d. d == p) contacts)) (inl (contact_not_found primary p)) _ tt
          (λ _.
            NoCycle-guard (not (any (λ d. d == s) contacts)) (inl (contact_not_found secondary s)) _
              tt
              (λ _.
                rw (p_found, s_found)
                  (plan_canonical-NoCycle id merge.reason m p' s' forest (λ apart. (
                    Leads-end m s s' k s_path,
                    Leads-end m p p' n p_path,
                    Leads-filled m p p' n (ground (arith, given)) p_path,
                    apart,
                  )))))))

NoCycle-inl {ℓ} :
    (A B : Type ℓ) (e : MergeError) → NoCycle {A = A} (inl e) → NoCycle {A = B} (inl e)
NoCycle-inl A B (MergeError.not_resolved r) ok = ok
NoCycle-inl A B _ ok = tt

pub NoCycle-and_then {ℓ} :
    {A B : Type ℓ} (x : MergeError ⊎ A) (f : A → MergeError ⊎ B)
    → NoCycle x
    → ((a : A) → x ≡ inr a → NoCycle (f a))
    → NoCycle (and_then x f)
NoCycle-and_then {A = A} {B = B} (inl e) f ok rest = NoCycle-inl A B e ok
NoCycle-and_then (inr a) f ok rest = rest a refl

pub plan_merges-NoCycle :
    (contacts : List String) (m : AliasMap) (merges : List (String × MergeInput))
    → Resolves m
    → NoCycle (plan_merges contacts m merges)
unfolding plan_merges
plan_merges-NoCycle contacts m [] forest = tt
plan_merges-NoCycle contacts m ((id, merge) ∷ merges) forest =
    NoCycle-and_then (plan_merge contacts m (id, merge)) _
      (plan_merge-NoCycle contacts m id merge forest)
      (λ d planned.
        let s = d.secondary_contact_id in
        let p = d.canonical_contact_id in
        let joins = (plan_merge-Joins contacts m id merge planned).0 in
        let after : Resolves (set_alias s p m) = λ c.
          (joined s p (forest c).0, resolve_set_alias m s p c (forest c).0 joins (forest c).1) in
        NoCycle-and_then (plan_merges contacts (set_alias s p m) merges) _
          (plan_merges-NoCycle contacts (set_alias s p m) merges after) (λ ds _. tt))
