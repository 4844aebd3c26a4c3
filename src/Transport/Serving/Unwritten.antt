-- ===== src/Transport/Serving/Unwritten.antt =====
-- The observation, the cache and its metrics leave the response as it is.
use test.Common.{
  ◌≡◌, refl, ◌∙◌, String, Bool, true, false, Option, none, some, List, if◌then◌else◌, ◌&&◌, ltb,
  leb,
}
use test.Common.Int.{to_ℕ}
use test.Cache.{Entry}
use test.Transport.Caching.{
  observe_cache, observe_cache_size, set_size, invalidate_tags, entry_of, load_response,
  cached_response, usable,
}
use test.Transport.Handler.{Handler, Metrics, ResponseCache, Exchange, in_world}
use test.Transport.Writer.{BufferedResponse, new_buffered_response}

module _ {W R : Type 0} (h : Handler W) where
  pub response-observe_cache :
      (hit : Bool) (e : Exchange W R) → (observe_cache h hit e).response ≡ e.response
  unfolding observe_cache
  response-observe_cache hit e = by_metrics h.deps.metrics
    where
      by_metrics :
          (m : Option (Metrics W))
          → (elim m as (λ _. Exchange W R) [
            | none ↦ record e { cache_result = if hit then "hit" else "miss" }
            | some m ↦
                in_world
                  (m.observe_cache hit)
                  (record e { cache_result = if hit then "hit" else "miss" })
          ]).response
            ≡ e.response
      by_metrics none = refl
      by_metrics (some m) = refl

  response-set_size :
      (m : Option (Metrics W)) (e : Exchange W R) → (set_size h m e).response ≡ e.response
  unfolding set_size
  response-set_size none e = refl
  response-set_size (some m) e = refl

  pub response-observe_cache_size :
      (e : Exchange W R) → (observe_cache_size h e).response ≡ e.response
  unfolding observe_cache_size
  response-observe_cache_size e = response-set_size h.deps.metrics e

  pub response-invalidate_tags :
      (cache : Option (ResponseCache W)) (tags : List String) (e : Exchange W R)
      → (invalidate_tags h cache tags e).response ≡ e.response
  unfolding invalidate_tags
  response-invalidate_tags none tags e = refl
  response-invalidate_tags (some cache) tags e = response-observe_cache_size _

  abbrev moved : W → Exchange W R → Exchange W R
  moved v e = record e { world = v }

  response-load_response :
      (cache : ResponseCache W) (key : String) (tags : List String)
      (load : Exchange W BufferedResponse → Bool × Exchange W BufferedResponse) (e : Exchange W R)
      → (load_response h cache key tags load e).1.response ≡ e.response
  unfolding load_response
  response-load_response cache key tags load e =
      let loaded = load (record {
        world = e.world;
        response = new_buffered_response;
        cache_result = e.cache_result;
      }) in
      let entry = entry_of tags loaded.1.response in
      let stored : Exchange W R = record e {
        world =
            if loaded.0 && leb 200 entry.status && ltb entry.status 300
            then cache.set key entry (to_ℕ h.deps.cache_ttl) loaded.1.world
            else loaded.1.world;
      } in
      response-observe_cache_size (observe_cache h false stored)
      ∙ response-observe_cache false stored

  pub response-cached_response :
      (cache : ResponseCache W) (key : String) (tags : List String) (accept : Bool)
      (load : Exchange W BufferedResponse → Bool × Exchange W BufferedResponse) (e : Exchange W R)
      → (cached_response h cache key tags accept load e).1.response ≡ e.response
  unfolding cached_response
  response-cached_response cache key tags accept load e =
      by_first (usable accept (cache.get key e.world).0)
    where
      by_second :
          (found : Option Entry)
          → (elim found as (λ _. (Entry × Bool) × Exchange W R) [
            | some entry ↦ (
              (entry, true),
              observe_cache_size h
                  (observe_cache h true (moved (cache.get key (cache.get key e.world).1).1 e)),
            )
            | none ↦
                load_response h cache key tags load
                  (moved (cache.get key (cache.get key e.world).1).1 e)
          ]).1.response
            ≡ e.response
      by_second none =
          response-load_response cache key tags load
            (moved (cache.get key (cache.get key e.world).1).1 e)
      by_second (some entry) =
          response-observe_cache_size
            (observe_cache h true (moved (cache.get key (cache.get key e.world).1).1 e))
          ∙ response-observe_cache true (moved (cache.get key (cache.get key e.world).1).1 e)

      by_first :
          (found : Option Entry)
          → (elim found as (λ _. (Entry × Bool) × Exchange W R) [
            | some entry ↦ ((entry, true), observe_cache h true (moved (cache.get key e.world).1 e))
            | none ↦ elim (usable accept (cache.get key (cache.get key e.world).1).0) [
              | some entry ↦ (
                (entry, true),
                observe_cache_size h
                    (observe_cache h true (moved (cache.get key (cache.get key e.world).1).1 e)),
              )
              | none ↦
                  load_response h cache key tags load
                    (moved (cache.get key (cache.get key e.world).1).1 e)
            ]
          ]).1.response
            ≡ e.response
      by_first none = by_second (usable accept (cache.get key (cache.get key e.world).1).0)
      by_first (some entry) = response-observe_cache true (moved (cache.get key e.world).1 e)
