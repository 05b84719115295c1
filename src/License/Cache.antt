-- ===== src/License/Cache.antt =====
-- The resolvers' cache (backend/internal/license/cache.go). The map is an association list; the
-- entries that `CacheEntries` exports and `PreloadCache` visits are listed in its order.
use bomhort.Base.{
  Text, Bool, true, false, ◌&&◌, not, Option, some, none, List, [], ◌∷◌, ◌++◌, ◌==◌, is_empty,
  lookup, insert, lookup-insert, has_prefix, strip_prefix, ◌≡◌, ◌≢◌, refl, ◌∙◌, ap, arith,
  if◌then◌else◌,
}
use bomhort.License.Source.{
  negative_cache_value, split_cache_value, negative_marker, split_cache_value-negative_cache_value,
}

abbrev pub ResolverCache : Type 0
ResolverCache = List (Text × Text)

unfoldable pub load_value : Text → ResolverCache → Option Text
load_value key cache = lookup key cache

-- the license and the reason, if there is an entry
abbrev pub decode : Option Text → Option (Text × Text)
decode none = none
decode (some v) = some (split_cache_value v)

unfoldable pub load : Text → ResolverCache → Option (Text × Text)
load key cache = decode (load_value key cache)

unfoldable pub store_value : Text → Text → ResolverCache → ResolverCache
store_value key value cache = if is_empty value then cache else insert key value cache

unfoldable pub store_result : Text → Text → Text → ResolverCache → ResolverCache
store_result key lic reason cache =
    if is_empty lic
    then store_value key (negative_cache_value reason) cache
    else store_value key lic cache

-- `Reason`
abbrev pub reason_of : Option (Text × Text) → Text
reason_of none = []
reason_of (some (lic, reason)) = reason

unfoldable pub reason_at : Text → ResolverCache → Text
reason_at key cache = reason_of (load key cache)

unfoldable pub preload_cache : List (Text × Text) → ResolverCache → ResolverCache
preload_cache [] cache = cache
preload_cache ((k, v) ∷ entries) cache = preload_cache entries (store_value k v cache)

abbrev pub cache_entries : ResolverCache → List (Text × Text)
cache_entries cache = cache

split_cache_value-license :
    (lic : Text) → has_prefix negative_marker lic ≡ false → split_cache_value lic ≡ (lic, [])
unfolding split_cache_value strip_prefix has_prefix
split_cache_value-license [] h = refl
split_cache_value-license (c ∷ lic) h = ground arith

load-insert :
    (key other v : Text) (cache : ResolverCache)
    → load other (insert key v cache)
      ≡ (if key == other then some (split_cache_value v) else load other cache)
unfolding load load_value
load-insert key other v cache =
    ap decode (lookup-insert key other v cache) ∙ choose (key == other) (lookup other cache)
  where
    choose :
        (b : Bool) (o : Option Text)
        → decode (if b then some v else o) ≡ (if b then some (split_cache_value v) else decode o)
    choose true o = refl
    choose false o = refl

-- What a resolver stores and what the cache answers: a result with a license or a reason is read back at
-- its key, the reason only without a license; a result with neither leaves the cache as it was;
-- and other keys are not touched. The license does not begin with the marker of negative results.
pub load-store_result :
    (key other lic reason : Text) (cache : ResolverCache)
    → has_prefix negative_marker lic ≡ false
    → load other (store_result key lic reason cache) ≡ (
        if key == other && not (is_empty lic && is_empty reason)
        then some (lic, if is_empty lic then reason else [])
        else load other cache)
unfolding store_result store_value negative_cache_value
load-store_result key other [] [] cache h = ground arith
load-store_result key other [] (c ∷ reason) cache h =
    let split = split_cache_value-negative_cache_value (c ∷ reason) in
    let step = load-insert key other (negative_marker ++ c ∷ reason) cache in ground arith
load-store_result key other (c ∷ lic) reason cache h =
    let split = split_cache_value-license (c ∷ lic) h in
    let step = load-insert key other (c ∷ lic) cache in ground arith

-- No entry is empty, so that a transient failure is never taken for an answer.
abbrev pub NoEmpty : ResolverCache → Type 0
NoEmpty cache = (key : Text) → load_value key cache ≢ some []

store_value-NoEmpty :
    (key value : Text) (cache : ResolverCache)
    → NoEmpty cache
    → NoEmpty (store_value key value cache)
unfolding store_value load_value
store_value-NoEmpty key [] cache h k e = h k e
store_value-NoEmpty key (c ∷ value) cache h k e =
    let stored = lookup-insert key k (c ∷ value) cache in ground (arith, h k)

-- Preloading any entries into a cache without empty values leaves it without empty values.
pub preload_cache-NoEmpty :
    (entries : List (Text × Text)) (cache : ResolverCache)
    → NoEmpty cache
    → NoEmpty (preload_cache entries cache)
unfolding preload_cache
preload_cache-NoEmpty [] cache h = h
preload_cache-NoEmpty ((k, v) ∷ entries) cache h =
    preload_cache-NoEmpty entries (store_value k v cache) (store_value-NoEmpty k v cache h)
