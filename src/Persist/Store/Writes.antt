-- ===== src/Persist/Store/Writes.antt =====
-- The write-through of the store: what the backend holds after it, by the laws of the codec and of
-- the backend.
use text.Mathlib.TextLemmas.{append_cancel_left}
use imps.Base.{
  ℕ, ◌<>◌, pos, ℤ, String, true, Option, none, some, List, ◌≡◌, arith, ◌≢◌, inl, inr, Option-cases,
}
use imps.Errors.{ImpError, persist_not_found}
use imps.Persist.Store.{World, Store, Envelope, key, decode, rehydrate, write_through}

-- What the store relies on: decoding undoes encoding, and the backend is a map whose failed
-- operations change nothing.
pub record Faithful {T B E : Type 0} (w : World T B E) : Type 0 where
  pub codec_ok :
      (v : T) (raw : List ℕ) → w.codec.marshal v ≡ (raw, none) → w.codec.unmarshal raw ≡ (v, none)
  pub json_ok :
      (v : Envelope) (raw : List ℕ)
      → w.json.marshal v ≡ (raw, none)
      → w.json.unmarshal raw ≡ (v, none)
  pub get_put :
      (b : B) (k : String) (v : List ℕ)
      → (w.backend.put b k v).1 ≡ none
      → w.backend.get (w.backend.put b k v).0 k ≡ (v, none)
  pub get_put_ne :
      (b : B) (k j : String) (v : List ℕ)
      → k ≢ j
      → w.backend.get (w.backend.put b k v).0 j ≡ w.backend.get b j
  pub get_put_failed :
      (b : B) (k j : String) (v : List ℕ) (e : E)
      → (w.backend.put b k v).1 ≡ some e
      → w.backend.get (w.backend.put b k v).0 j ≡ w.backend.get b j
  pub get_delete :
      (b : B) (k : String)
      → (w.backend.delete b k).1 ≡ none
      → (e : E) × ((w.backend.get (w.backend.delete b k).0 k).1 ≡ some e)
        × (w.is e persist_not_found ≡ true)
  pub get_delete_ne :
      (b : B) (k j : String) → k ≢ j → w.backend.get (w.backend.delete b k).0 j ≡ w.backend.get b j
  pub get_delete_failed :
      (b : B) (k j : String) (e : E)
      → (w.backend.delete b k).1 ≡ some e
      → w.backend.get (w.backend.delete b k).0 j ≡ w.backend.get b j

-- Different entities have different keys.
pub key-ne : {T : Type 0} (s : Store T) (e f : String) → e ≢ f → key s e ≢ key s f
unfolding key
key-ne s e f h k = h (append_cancel_left (s.name <> ".") e f k)

module _ {T B E : Type 0} (w : World T B E) where
  -- The state of an entity as the backend has it, for a store without a wake hook.
  abbrev pub view : Store T → B → String → T × Option (ImpError E)
  view s b e = rehydrate w (pos 0) s b e

  pub view_same :
      (s : Store T) (b b' : B) (e : String)
      → w.backend.get b' (key s e) ≡ w.backend.get b (key s e)
      → view s b' e ≡ view s b e
  unfolding rehydrate
  view_same s b b' e h = ground arith

  module _ (law : Faithful w) (now : ℤ) (s : Store T) (b : B) (e : String) (v : T) where
    abbrev pub after : B
    after = (write_through w now s b e v).0

    abbrev pub outcome : Option (ImpError E)
    outcome = (write_through w now s b e v).1

    pub written : s.wake ≡ none → outcome ≡ none → view s after e ≡ (v, none)
    unfolding write_through rehydrate decode
    written plain h =
        let raw = w.codec.marshal v in
        let env = w.json.marshal (record { state = raw.0; last_active = now }) in
        ground (
          arith,
          plain,
          law.codec_ok v raw.0,
          law.json_ok (record { state = raw.0; last_active = now }) env.0,
          law.get_put b (key s e) env.0,
        )

    abbrev sent : List ℕ
    sent = (w.json.marshal (record { state = (w.codec.marshal v).0; last_active = now })).0

    pub written_ne : (f : String) → e ≢ f → view s after f ≡ view s b f
    written_ne f n = view_same s b after f same
      where
        same : w.backend.get after (key s f) ≡ w.backend.get b (key s f)
        same =
            unfold write_through in
            ground (arith, law.get_put_ne b (key s e) (key s f) sent, key-ne s e f n)

    pub not_written :
        {err : ImpError E} (f : String) → outcome ≡ some err → view s after f ≡ view s b f
    not_written f h = view_same s b after f same
      where
        same : w.backend.get after (key s f) ≡ w.backend.get b (key s f)
        same =
            unfold write_through in
            elim (Option-cases (w.backend.put b (key s e) sent).1) [
              | inl fine ↦ ground arith
              | inr (e', bad) ↦ ground (arith, law.get_put_failed b (key s e) (key s f) sent e' bad)
            ]
