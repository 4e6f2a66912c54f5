-- ===== src/Persist/Backend/Laws.antt =====
-- `KVBackend` as a backend of the durable store: what a bucket promises, and what the store relies
-- on.
use imps.Base.{
  ℕ, String, Bool, true, none, some, List, ◌≡◌, refl, arith, ◌≢◌, inl, inr, Option-cases,
  Bool-cases,
}
use imps.Errors.{Sentinel, js_key_not_found}
use imps.Persist.Store.{World, Codec, Envelope}
use imps.Persist.Store.Writes.{Faithful}
use imps.Persist.Backend.{
  KeyValue, BackendError, not_found, is_backend_error, kv_get, kv_put, kv_delete, kv_backend,
}

-- A JetStream bucket: a map whose failed operations change nothing, and which answers a missing key
-- with its own `ErrKeyNotFound`.
pub record IsBucket {B E : Type 0} (is : E → Sentinel → Bool) (kv : KeyValue B E) : Type 0 where
  pub get_put :
      (b : B) (k : String) (v : List ℕ)
      → (kv.put b k v).1 ≡ none
      → kv.get (kv.put b k v).0 k ≡ (v, none)
  pub get_put_ne :
      (b : B) (k j : String) (v : List ℕ) → k ≢ j → kv.get (kv.put b k v).0 j ≡ kv.get b j
  pub get_put_failed :
      (b : B) (k j : String) (v : List ℕ) (e : E)
      → (kv.put b k v).1 ≡ some e
      → kv.get (kv.put b k v).0 j ≡ kv.get b j
  pub get_delete :
      (b : B) (k : String)
      → (kv.delete b k).1 ≡ none
      → (e : E) × ((kv.get (kv.delete b k).0 k).1 ≡ some e) × (is e js_key_not_found ≡ true)
  pub get_delete_absent :
      (b : B) (k : String) (e : E)
      → (kv.delete b k).1 ≡ some e
      → is e js_key_not_found ≡ true
      → (f : E) × ((kv.get b k).1 ≡ some f) × (is f js_key_not_found ≡ true)
  pub get_delete_ne : (b : B) (k j : String) → k ≢ j → kv.get (kv.delete b k).0 j ≡ kv.get b j
  pub get_delete_failed :
      (b : B) (k j : String) (e : E)
      → (kv.delete b k).1 ≡ some e
      → kv.get (kv.delete b k).0 j ≡ kv.get b j

module _ {T B E : Type 0} (is : E → Sentinel → Bool) (kv : KeyValue B E) (zero : T)
    (codec : Codec T (BackendError E)) (json : Codec Envelope (BackendError E)) where
  -- A store's surroundings, with `KVBackend` as its backend.
  abbrev pub kv_world : World T B (BackendError E)
  kv_world = record {
    zero = zero;
    codec = codec;
    json = json;
    backend = kv_backend is kv;
    is = is_backend_error is;
  }

  module _ (law : IsBucket is kv) where
    kv_get_same :
        (b b' : B) (j : String) → kv.get b' j ≡ kv.get b j → kv_get is kv b' j ≡ kv_get is kv b j
    unfolding kv_get
    kv_get_same b b' j h = ground arith

    kv_get_missing :
        (b : B) (k : String)
        → ((e : E) × ((kv.get b k).1 ≡ some e) × (is e js_key_not_found ≡ true))
        → (kv_get is kv b k).1 ≡ some not_found
    unfolding kv_get
    kv_get_missing b k (e, failed, gone) = ground arith

    kv_put_failed :
        (b : B) (k j : String) (v : List ℕ) (e : BackendError E)
        → (kv_put is kv b k v).1 ≡ some e
        → kv_get is kv (kv_put is kv b k v).0 j ≡ kv_get is kv b j
    unfolding kv_put
    kv_put_failed b k j v e h = elim (Option-cases (kv.put b k v).1) [
      | inl fine ↦ ground arith
      | inr (f, bad) ↦
          kv_get_same b (kv_put is kv b k v).0 j (ground (arith, law.get_put_failed b k j v f bad))
    ]

    kv_delete_failed :
        (b : B) (k j : String) (e : BackendError E)
        → (kv_delete is kv b k).1 ≡ some e
        → kv_get is kv (kv_delete is kv b k).0 j ≡ kv_get is kv b j
    unfolding kv_delete
    kv_delete_failed b k j e h = elim (Option-cases (kv.delete b k).1) [
      | inl fine ↦ ground arith
      | inr (f, bad) ↦
          kv_get_same b (kv_delete is kv b k).0 j
            (ground (arith, law.get_delete_failed b k j f bad))
    ]

    get_deleted :
        (b : B) (k : String)
        → (kv_delete is kv b k).1 ≡ none
        → (kv_get is kv (kv_delete is kv b k).0 k).1 ≡ some not_found
    unfolding kv_delete
    get_deleted b k h = elim (Option-cases (kv.delete b k).1) [
      | inl fine ↦ ground (arith, kv_get_missing (kv.delete b k).0 k (law.get_delete b k fine))
      | inr (e, bad) ↦ elim (Bool-cases (is e js_key_not_found)) [
        | inl gone ↦
            let (f, absent, missing) = law.get_delete_absent b k e bad gone in
            ground (
              arith,
              kv_get_missing (kv.delete b k).0 k
                  (f, ground (arith, law.get_delete_failed b k k e bad), missing),
            )
        | inr there ↦ ground arith
      ]
    ]

    pub kv_backend-Faithful :
        ((v : T) (raw : List ℕ) → codec.marshal v ≡ (raw, none) → codec.unmarshal raw ≡ (v, none))
        → ((v : Envelope) (raw : List ℕ)
            → json.marshal v ≡ (raw, none)
            → json.unmarshal raw ≡ (v, none))
        → Faithful kv_world
    unfolding kv_backend is_backend_error
    kv_backend-Faithful codec_ok json_ok = record {
      codec_ok = codec_ok;
      json_ok = json_ok;
      get_put = λ b k v h. ground (arith, law.get_put b k v);
      get_put_ne = λ b k j v n.
          kv_get_same b (kv_put is kv b k v).0 j (ground (arith, law.get_put_ne b k j v n));
      get_put_failed = λ b k j v e h. kv_put_failed b k j v e h;
      get_delete = λ b k h. (not_found, get_deleted b k h, refl);
      get_delete_ne = λ b k j n.
          kv_get_same b (kv_delete is kv b k).0 j (ground (arith, law.get_delete_ne b k j n));
      get_delete_failed = λ b k j e h. kv_delete_failed b k j e h;
    }
