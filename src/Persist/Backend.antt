-- ===== src/Persist/Backend.antt =====
-- persist/backend.go: `KVBackend`, the adapter of a JetStream key-value bucket to the interface that
-- the store calls. The bucket is a parameter, over the state `B` of the substrate; what its `Get`
-- returns is the value of the entry.
pub mod Laws
use imps.Base.{String, ◌<>◌, Bool, true, false, not, Option, none, some, List, [], ℕ, if◌then◌else◌}
use imps.Errors.{Sentinel, persist_not_found, js_key_not_found}
use imps.Persist.Store.{Backend}

-- `jetstream.KeyValue`, the methods that the adapter calls.
pub record KeyValue (B E : Type 0) : Type 0 where
  pub get : B → String → List ℕ × Option E
  pub put : B → String → List ℕ → B × Option E
  pub delete : B → String → B × Option E

-- The errors of the adapter: `ErrNotFound`, an error of the bucket with its text, and any other
-- error, such as a codec's.
pub data BackendError (E : Type 0) : Type 0 where
  not_found : BackendError E
  kv_failed : String → E → BackendError E
  other : E → BackendError E

abbrev is_not_found : Sentinel → Bool
is_not_found persist_not_found = true
is_not_found _ = false

module _ {E : Type 0} (is : E → Sentinel → Bool) where
  -- `errors.Is` on them.
  unfoldable pub is_backend_error : BackendError E → Sentinel → Bool
  is_backend_error not_found s = is_not_found s
  is_backend_error (kv_failed text e) s = is e s
  is_backend_error (other e) s = is e s

  module _ {B : Type 0} (kv : KeyValue B E) where
    -- `Get`
    unfoldable pub kv_get : B → String → List ℕ × Option (BackendError E)
    kv_get b key =
        let (value, err) = kv.get b key in
        elim err [
          | none ↦ (value, none)
          | some e ↦
              if is e js_key_not_found
              then ([], some not_found)
              else ([], some (kv_failed ("persist: kv get " <> key) e))
        ]

    -- `Put`
    unfoldable pub kv_put : B → String → List ℕ → B × Option (BackendError E)
    kv_put b key value =
        let (b', err) = kv.put b key value in
        elim err [
          | none ↦ (b', none)
          | some e ↦ (b', some (kv_failed ("persist: kv put " <> key) e))
        ]

    -- `Delete`
    unfoldable pub kv_delete : B → String → B × Option (BackendError E)
    kv_delete b key =
        let (b', err) = kv.delete b key in
        elim err [
          | none ↦ (b', none)
          | some e ↦
              if not (is e js_key_not_found)
              then (b', some (kv_failed ("persist: kv delete " <> key) e))
              else (b', none)
        ]

    -- `KVBackend`
    unfoldable pub kv_backend : Backend B (BackendError E)
    unfolding kv_get kv_put kv_delete
    kv_backend = record { get = kv_get; put = kv_put; delete = kv_delete }
