-- ===== src/Persist/Store/History/Elsewhere.antt =====
-- What a call on a store leaves of the rest of the bucket.
use imps.Base.{
  String, ℤ, pos, Option, none, some, ◌≡◌, refl, ap, arith, ◌≢◌, inl, inr, Option-cases,
}
use imps.Errors.{ImpError}
use imps.Persist.Lru.{Residency}
use imps.Persist.Store.{World, Store, key, get, update, delete, rehydrate, write_through}
use imps.Persist.Store.Writes.{Faithful}
use imps.Persist.Store.View.{StoreOk, with_residency, get_lem}
use imps.Persist.Store.Refine.{update_lem}
use imps.Persist.Store.Delete.{delete_lem}
use imps.Persist.Store.History.{Call, reads, updates, deletes, Answer, serve}

module _ {T B E : Type 0} (w : World T B E) (law : Faithful w) where
  written_elsewhere :
      (now : ℤ) (s : Store T) (b : B) (e k : String) (v : T)
      → key s e ≢ k
      → w.backend.get (write_through w now s b e v).0 k ≡ w.backend.get b k
  unfolding write_through
  written_elsewhere now s b e k v h =
      let env = w.json.marshal (record { state = (w.codec.marshal v).0; last_active = now }) in
      ground (arith, law.get_put_ne b (key s e) k env.0 h)

  key-get :
      (now : ℤ) (s s' : Store T) (b : B) (e : String) (v : T) (err : Option (ImpError E))
      → get w now s b e ≡ some (s', v, err)
      → key s' e ≡ key s e
  unfolding get key
  key-get now s s' b e v err h = ground arith

  -- `Update` writes under the key of its entity alone.
  updated_elsewhere :
      (s s' : Store T) (b b' : B) (v : T) (err : Option (ImpError E)) (now now' : ℤ) (e k : String)
      (fn : T → T)
      → update w now now' s b e fn ≡ some ((s', b'), v, err)
      → key s e ≢ k
      → w.backend.get b' k ≡ w.backend.get b k
  unfolding update
  updated_elsewhere s s' b b' v err now now' e k fn h n = elim (Option-cases (get w now s b e)) [
    | inl broke ↦ ground arith
    | inr ((s2, cur, some bad), got) ↦ ground arith
    | inr ((s2, cur, none), got) ↦
        ground (arith, written_elsewhere now' s2 b e k (fn cur), key-get now s s2 b e cur none got)
  ]

  -- A call never panics, and changes no key but those of the store.
  pub serve_lem :
      (s : Store T) (b : B) (c : Call T)
      → StoreOk w s b
      → (r : Residency T) × (b' : B) × (a : Answer T E) × (serve w s b c
          ≡ some ((with_residency s r, b'), a))
        × StoreOk w (with_residency s r) b'
        × ((k : String) → ((e : String) → key s e ≢ k) → w.backend.get b' k ≡ w.backend.get b k)
  unfolding serve delete
  serve_lem s b (reads now e) h =
      let (r, got, h') = get_lem w now s b e h in
      (r, b, (rehydrate w (pos 0) s b e), ground (arith, got), h', λ k n. refl)
  serve_lem s b (updates now now' e fn) h =
      let (r, b', v, err, got, h', _) = update_lem w law now now' s b e fn h in
      (
        r,
        b',
        (v, err),
        ground (arith, got),
        h',
        λ k n. updated_elsewhere s (with_residency s r) b b' v err now now' e k fn got (n e),
      )
  serve_lem s b (deletes e) h =
      let (r, err, got, h', _) = delete_lem w law s b e h in
      (
        r,
        (w.backend.delete b (key s e)).0,
        (w.zero, err),
        ap (λ o. some (o.0, (w.zero, o.1))) got,
        h',
        λ k n. law.get_delete_ne b (key s e) k (n e),
      )
