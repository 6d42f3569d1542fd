-- ===== src/Projector/Overlay.antt =====
-- src/runtime/projection/projection-cache.ts: an overlay is read like the cache that its writes were
-- made to, before and after they are committed.
use cued.Base.{
  false, ◌||◌, String, List, [], ◌∷◌, some, is_some, ◌≡◌, inl, inr, refl, sym, ap, ◌∙◌, arith,
  Bool-cases, ◌==◌, string_eq, if◌then◌else◌,
}
use cued.Projector.Cache.{
  map_set, map_get, map_has, CacheLookup, cache_get, cache_has, cache_set, set_all, commit, base_of,
}

module _ {ℓ} {A : Type ℓ} where
  map_get-map_set :
      (key other : String) (value : A) (es : List (String × A))
      → map_get other (map_set key value es)
        ≡ (if key == other then some value else map_get other es)
  map_get-map_set key other value [] = refl
  map_get-map_set key other value (e ∷ es) = ground (arith, map_get-map_set key other value es)

  map_has-map_set :
      (key other : String) (value : A) (es : List (String × A))
      → map_has other (map_set key value es) ≡ (key == other || map_has other es)
  map_has-map_set key other value [] = ground arith
  map_has-map_set key other value (e ∷ es) = ground (arith, map_has-map_set key other value es)

  map_get-map_has :
      (key : String) (es : List (String × A)) → is_some (map_get key es) ≡ map_has key es
  map_get-map_has key [] = refl
  map_get-map_has key (e ∷ es) = ground (arith, map_get-map_has key es)

  cache_get-cache_set :
      (key other : String) (value : A) (c : CacheLookup A)
      → cache_get other (cache_set key value c)
        ≡ (if key == other then some value else cache_get other c)
  unfolding cache_get cache_set
  cache_get-cache_set key other value (CacheLookup.stored es) = map_get-map_set key other value es
  cache_get-cache_set key other value (CacheLookup.overlay base es) =
      ground (arith, map_get-map_set key other value es, map_has-map_set key other value es)

  -- No key stands twice.
  abbrev pub HasOnce : List (String × A) → Type 0
  HasOnce [] = Unit
  HasOnce (e ∷ es) = (map_has e.0 es ≡ false) × HasOnce es

  HasOnce-map_set :
      (key : String) (value : A) (es : List (String × A))
      → HasOnce es
      → HasOnce (map_set key value es)
  HasOnce-map_set key value [] h = (refl, tt)
  HasOnce-map_set key value (e ∷ es) h = elim (Bool-cases (e.0 == key)) [
    | inl k ↦ rw k (ground (arith, k, h.0), h.1)
    | inr k ↦
        rw k (
          ground (arith, k, h.0, map_has-map_set key e.0 value es),
          HasOnce-map_set key value es h.1,
        )
  ]

  -- Writes to different keys are read back from the cache that they were made to.
  cache_get-set_all :
      (other : String) (es : List (String × A)) (c : CacheLookup A)
      → HasOnce es
      → cache_get other (set_all es c)
        ≡ (if map_has other es then map_get other es else cache_get other c)
  unfolding set_all
  cache_get-set_all other [] c h = refl
  cache_get-set_all other (e ∷ es) c h = ground (
    arith,
    h.0,
    cache_get-set_all other es (cache_set e.0 e.1 c) h.1,
    cache_get-cache_set e.0 other e.1 c,
    map_get-map_has other es,
  )

  Agree : CacheLookup A → CacheLookup A → Type ℓ
  Agree c d = (key : String) → cache_get key c ≡ cache_get key d

  set_all-Agree :
      (ws : List (String × A)) (c d : CacheLookup A)
      → Agree c d
      → Agree (set_all ws c) (set_all ws d)
  unfolding set_all Agree
  set_all-Agree [] c d h = h
  set_all-Agree (w ∷ ws) c d h =
      set_all-Agree ws (cache_set w.0 w.1 c) (cache_set w.0 w.1 d) (λ key.
        cache_get-cache_set w.0 key w.1 c ∙ rw (h key) (sym (cache_get-cache_set w.0 key w.1 d)))

  overlay-Agree :
      (base : CacheLookup A) (es : List (String × A))
      → HasOnce es
      → Agree (CacheLookup.overlay base es) (set_all es base)
  unfolding cache_get Agree
  overlay-Agree base es h key = sym (cache_get-set_all key es base h)

  -- The entries of the overlay's own map after the writes.
  written_map : List (String × A) → List (String × A) → List (String × A)
  written_map [] es = es
  written_map (w ∷ ws) es = written_map ws (map_set w.0 w.1 es)

  HasOnce-written_map : (ws es : List (String × A)) → HasOnce es → HasOnce (written_map ws es)
  unfolding written_map
  HasOnce-written_map [] es h = h
  HasOnce-written_map (w ∷ ws) es h =
      HasOnce-written_map ws (map_set w.0 w.1 es) (HasOnce-map_set w.0 w.1 es h)

  set_all-overlay :
      (ws es : List (String × A)) (base : CacheLookup A)
      → set_all ws (CacheLookup.overlay base es) ≡ CacheLookup.overlay base (written_map ws es)
  unfolding set_all cache_set written_map
  set_all-overlay [] es base = refl
  set_all-overlay (w ∷ ws) es base = set_all-overlay ws (map_set w.0 w.1 es) base

  cache_has-cache_get :
      (key : String) (c : CacheLookup A) → cache_has key c ≡ is_some (cache_get key c)
  unfolding cache_has cache_get
  cache_has-cache_get key (CacheLookup.stored es) = sym (map_get-map_has key es)
  cache_has-cache_get key (CacheLookup.overlay base es) =
      ground (arith, map_get-map_has key es, cache_has-cache_get key base)

  -- Whatever is written to a new overlay, it is read like its base would be with the same writes; a
  -- commit makes its base be read like that too, and without one the base is as it was.
  pub overlay-refines :
      (base : CacheLookup A) (ws : List (String × A)) (key : String)
      → let o = set_all ws (CacheLookup.overlay base []) in
        (cache_get key o ≡ cache_get key (set_all ws base))
        × (cache_has key o ≡ is_some (cache_get key (set_all ws base)))
        × (cache_get key (base_of (commit o)) ≡ cache_get key (set_all ws base))
        × (base_of o ≡ base)
  unfolding commit Agree
  overlay-refines base ws key =
      let es = written_map ws [] in
      let once = HasOnce-written_map ws [] tt in
      let same = set_all-overlay ws [] base in
      let read =
        set_all-Agree ws (CacheLookup.overlay base []) base (overlay-Agree base [] tt) key in
      let committed = sym (overlay-Agree base es once key) ∙ (rw same at read) in
      (
        read,
        cache_has-cache_get key (set_all ws (CacheLookup.overlay base [])) ∙ ap is_some read,
        rw same committed,
        rw same refl,
      )
