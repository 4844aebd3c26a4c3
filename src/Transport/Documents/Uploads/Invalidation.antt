-- ===== src/Transport/Documents/Uploads/Invalidation.antt =====
-- What an upload leaves in the cache of answers.
use test.Common.{
  ℕ, suc, ◌%◌, ◌≡◌, refl, ap, ◌∙◌, String, false, Option, none, some, List, [], ◌∷◌, if◌then◌else◌,
}
use test.Cache
use test.Cache.{Memory, Entry, has_tag}
use test.Cache.Invalidation.{get-invalidate}
use test.Cache.Invariant.{IsValid}
use test.Common.Int.{ℤ}
use test.Domain.{User, Document}
use test.Errors.{Result, ok}
use test.Transport.Caching.{
  Library, memory_cache, list_cache_tag, invalidate_tags, observe_cache_size, set_size,
}
use test.Transport.Documents.Parts.{Decoder, RequiredMeta, OpenedFile, upload_of}
use test.Transport.Documents.Uploads.{observe_upload, uploaded, store_upload}
use test.Transport.Handler.{Handler, Metrics, DocumentService, Exchange, in_world, or_domain_error}
use test.Transport.Writer.{ResponseWriter}

module _ {W : Type 0} (h : Handler W) (memory : W → Memory) (put : Memory → W → W)
    (now : W → ℕ) where
  -- An action that leaves the cache and the epoch alone.
  pub record IsApart (act : W → W) : Type 0 where
    pub memory_same : (w : W) → memory (act w) ≡ memory w
    pub epoch_same : (w : W) → h.cache_epoch.load (act w) ≡ h.cache_epoch.load w

  -- The handler uses the cache of the world; the epoch is a `uint64` beside it, and the metrics
  -- that an upload changes are apart from both.
  pub record HasMemory : Type 0 where
    pub cache : h.deps.cache ≡ some (memory_cache memory put now)
    pub files :
        (m : Metrics W) (operation : String) (size : ℤ)
        → h.deps.metrics ≡ some m
        → IsApart (m.observe_file operation size)
    pub sizes : (m : Metrics W) → h.deps.metrics ≡ some m → IsApart m.set_cache_size
    pub stored : (m : Memory) (w : W) → memory (put m w) ≡ m
    pub apart : (w : W) → memory (h.cache_epoch.add_one w) ≡ memory w
    pub counts :
        (w : W)
        → h.cache_epoch.load (h.cache_epoch.add_one w)
          ≡ suc (h.cache_epoch.load w) % 18446744073709551616
    pub put_apart : (m : Memory) (w : W) → h.cache_epoch.load (put m w) ≡ h.cache_epoch.load w

  set_size-IsApart :
      {R : Type 0}
      → HasMemory
      → (o : Option (Metrics W)) (e : Exchange W R) → h.deps.metrics ≡ o
      → (memory (set_size h o e).world ≡ memory e.world)
        × (h.cache_epoch.load (set_size h o e).world ≡ h.cache_epoch.load e.world)
  unfolding set_size
  set_size-IsApart has none e p = (refl, refl)
  set_size-IsApart has (some m) e p =
      ((has.sizes m p).memory_same e.world, (has.sizes m p).epoch_same e.world)

  -- What the invalidation leaves of the cache and of the epoch.
  world-invalidate_tags :
      {R : Type 0}
      → HasMemory
      → (tags : List String) (e : Exchange W R)
      → (memory (invalidate_tags h h.deps.cache tags e).world
          ≡ Cache.invalidate false tags (memory e.world))
        × (h.cache_epoch.load (invalidate_tags h h.deps.cache tags e).world
            ≡ suc (h.cache_epoch.load e.world) % 18446744073709551616)
  unfolding invalidate_tags observe_cache_size
  world-invalidate_tags {R = R} has tags e =
      let called : Exchange W R =
        in_world ((memory_cache memory put now).invalidate tags)
          (in_world h.cache_epoch.add_one e) in
      let (kept, counted) = set_size-IsApart has h.deps.metrics called refl in
      let cached = ap (λ c. (invalidate_tags h c tags e).world) has.cache in
      (
        ap memory cached
            ∙ kept
            ∙ has.stored _ _
            ∙ ap (Cache.invalidate false tags) (has.apart e.world),
        ap h.cache_epoch.load cached ∙ counted ∙ has.put_apart _ _ ∙ has.counts e.world,
      )

module _ {W R : Type 0} (x : Library) (out : ResponseWriter R) where
  or_domain_error_ok :
      {A : Type 0} (answer : Result A × W) (a : A) (w : W) (next : A → Exchange W R → Exchange W R)
      (e : Exchange W R)
      → answer ≡ (ok a, w)
      → or_domain_error x.encoding out answer next e ≡ next a (record e { world = w })
  unfolding or_domain_error
  or_domain_error_ok answer a w next e p = ap (λ r. or_domain_error x.encoding out r next e) p

  observe_upload-IsApart :
      (decode : Decoder) (h : Handler W) (memory : W → Memory) (put : Memory → W → W) (now : W → ℕ)
      (o : Option (Metrics W)) (file : Option OpenedFile) (e : Exchange W R)
      → HasMemory h memory put now
      → h.deps.metrics ≡ o
      → (memory (observe_upload x decode out h o file e).world ≡ memory e.world)
        × (h.cache_epoch.load (observe_upload x decode out h o file e).world
            ≡ h.cache_epoch.load e.world)
  unfolding observe_upload
  observe_upload-IsApart decode h memory put now none file e has p = (refl, refl)
  observe_upload-IsApart decode h memory put now (some m) none e has p = (refl, refl)
  observe_upload-IsApart decode h memory put now (some m) (some file) e has p = (
    (has.files m "upload" file.size p).memory_same e.world,
    (has.files m "upload" file.size p).epoch_same e.world,
  )

  world-store_upload :
      (decode : Decoder) (h : Handler W) (memory : W → Memory) (put : Memory → W → W) (now : W → ℕ)
      (documents : DocumentService W) (meta : RequiredMeta) (json : Option (List ℕ))
      (file : Option OpenedFile) (requester : User) (e : Exchange W R) (document : Document) (w : W)
      → HasMemory h memory put now
      → documents.upload requester (upload_of meta json file) e.world ≡ (ok document, w)
      → (memory (store_upload x decode out h documents meta json file requester e).world
          ≡ Cache.invalidate false (list_cache_tag ∷ []) (memory w))
        × (h.cache_epoch.load
              (store_upload x decode out h documents meta json file requester e).world
            ≡ suc (h.cache_epoch.load w) % 18446744073709551616)
  unfolding store_upload uploaded
  world-store_upload decode h memory put now documents meta json file requester e document w has p =
      let after : Exchange W R = record e { world = w } in
      let observed = observe_upload x decode out h h.deps.metrics file after in
      let taken =
        ap (λ a. a.world)
          (or_domain_error_ok (documents.upload requester (upload_of meta json file) e.world)
            document w _ e p) in
      let (kept, counted) =
        observe_upload-IsApart decode h memory put now h.deps.metrics file after has refl in
      let (cleared, epoch) =
        world-invalidate_tags h memory put now has (list_cache_tag ∷ []) observed in
      (
        ap memory taken ∙ cleared ∙ ap (Cache.invalidate false (list_cache_tag ∷ [])) kept,
        ap h.cache_epoch.load taken ∙ epoch ∙ ap (λ n. suc n % 18446744073709551616) counted,
      )

  -- When the document service takes an upload, and the metrics change neither the cache nor the
  -- epoch, the cache of the handler afterwards has no listing: of what it had when the service was
  -- done, it finds all but the entries with the tag of listings. And the epoch, a `uint64`, has moved
  -- on by one.
  pub get-store_upload :
      (decode : Decoder) (h : Handler W) (memory : W → Memory) (put : Memory → W → W) (now : W → ℕ)
      (documents : DocumentService W) (meta : RequiredMeta) (json : Option (List ℕ))
      (file : Option OpenedFile) (requester : User) (e : Exchange W R) (document : Document) (w : W)
      (later : ℕ) (key : String)
      → HasMemory h memory put now
      → documents.upload requester (upload_of meta json file) e.world ≡ (ok document, w)
      → IsValid (memory w)
      → ((Cache.get false later key
            (memory (store_upload x decode out h documents meta json file requester e).world)).1
          ≡ elim ((Cache.get false later key (memory w)).1) [
            | none ↦ none
            | some entry ↦ if has_tag entry.tags (list_cache_tag ∷ []) then none else some entry
          ])
        × (h.cache_epoch.load
              (store_upload x decode out h documents meta json file requester e).world
            ≡ suc (h.cache_epoch.load w) % 18446744073709551616)
  get-store_upload decode h memory put now documents meta json file requester e document w later key
        has p valid =
      let (cleared, epoch) =
        world-store_upload decode h memory put now documents meta json file requester e document w
          has p in
      (
        ap (λ m. (Cache.get false later key m).1) cleared
            ∙ get-invalidate (list_cache_tag ∷ []) (memory w) valid later key,
        epoch,
      )
