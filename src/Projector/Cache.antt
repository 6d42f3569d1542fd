-- ===== src/Projector/Cache.antt =====
-- src/runtime/projection/projection-cache.ts: a cache, and overlays that keep their writes apart
-- until they are committed. An overlay's base is a stored cache or another overlay.
use cued.Base.{
  Bool, ◌||◌, String, List, [], ◌∷◌, Option, none, some, any, ◌==◌, string_eq, if◌then◌else◌,
}

-- `Map.prototype.set`: a key that is there keeps its place.
abbrev pub map_set {ℓ} : {A : Type ℓ} → String → A → List (String × A) → List (String × A)
map_set key value [] = (key, value) ∷ []
map_set key value (e ∷ es) =
    let rest = map_set key value es in if e.0 == key then (key, value) ∷ es else e ∷ rest

abbrev pub map_get {ℓ} : {A : Type ℓ} → String → List (String × A) → Option A
map_get key [] = none
map_get key (e ∷ es) = let rest = map_get key es in if e.0 == key then some e.1 else rest

abbrev pub map_has {ℓ} : {A : Type ℓ} → String → List (String × A) → Bool
map_has key es = any (λ e. e.0 == key) es

pub data CacheLookup {ℓ} (A : Type ℓ) : Type ℓ where
  stored : List (String × A) → CacheLookup A
  overlay : CacheLookup A → List (String × A) → CacheLookup A

unfoldable pub cache_get {ℓ} : {A : Type ℓ} → String → CacheLookup A → Option A
cache_get key (CacheLookup.stored entries) = map_get key entries
cache_get key (CacheLookup.overlay base writes) =
    let below = cache_get key base in if map_has key writes then map_get key writes else below

unfoldable pub cache_has {ℓ} : {A : Type ℓ} → String → CacheLookup A → Bool
cache_has key (CacheLookup.stored entries) = map_has key entries
cache_has key (CacheLookup.overlay base writes) = map_has key writes || cache_has key base

unfoldable pub cache_set {ℓ} : {A : Type ℓ} → String → A → CacheLookup A → CacheLookup A
cache_set key value (CacheLookup.stored entries) = CacheLookup.stored (map_set key value entries)
cache_set key value (CacheLookup.overlay base writes) =
    CacheLookup.overlay base (map_set key value writes)

-- The writes in their order, one after the other.
unfoldable pub set_all {ℓ} : {A : Type ℓ} → List (String × A) → CacheLookup A → CacheLookup A
unfolding cache_set
set_all [] c = c
set_all (e ∷ es) c = set_all es (cache_set e.0 e.1 c)

-- `commit` writes to the base; the overlay's own writes stay.
unfoldable pub commit {ℓ} : {A : Type ℓ} → CacheLookup A → CacheLookup A
unfolding set_all
commit (CacheLookup.stored entries) = CacheLookup.stored entries
commit (CacheLookup.overlay base writes) = CacheLookup.overlay (set_all writes base) writes

-- What an overlay stands over, which is what is left where it is discarded.
abbrev pub base_of {ℓ} : {A : Type ℓ} → CacheLookup A → CacheLookup A
base_of (CacheLookup.stored entries) = CacheLookup.stored entries
base_of (CacheLookup.overlay base writes) = base

pub record ProjectionCache : Type 0 where
  pub contact_merge_alias_map : CacheLookup String
  pub source_contact_map : CacheLookup String
  pub deterministic_handle_map : CacheLookup String
  pub conversation_map : CacheLookup String
  pub contact_name_map : CacheLookup (Option String)
  pub conversation_name_map : CacheLookup (Option String)

unfoldable pub create_projection_cache_overlay : ProjectionCache → ProjectionCache
create_projection_cache_overlay base = record {
  contact_merge_alias_map = CacheLookup.overlay base.contact_merge_alias_map [];
  source_contact_map = CacheLookup.overlay base.source_contact_map [];
  deterministic_handle_map = CacheLookup.overlay base.deterministic_handle_map [];
  conversation_map = CacheLookup.overlay base.conversation_map [];
  contact_name_map = CacheLookup.overlay base.contact_name_map [];
  conversation_name_map = CacheLookup.overlay base.conversation_name_map [];
}

unfoldable pub commit_projection_cache : ProjectionCache → ProjectionCache
unfolding commit
commit_projection_cache cache = record {
  contact_merge_alias_map = commit cache.contact_merge_alias_map;
  source_contact_map = commit cache.source_contact_map;
  deterministic_handle_map = commit cache.deterministic_handle_map;
  conversation_map = commit cache.conversation_map;
  contact_name_map = commit cache.contact_name_map;
  conversation_name_map = commit cache.conversation_name_map;
}
