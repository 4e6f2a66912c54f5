-- ===== src/Persist/Store/Wake.antt =====
-- The wake hook: it advances the state once, when the entity is rehydrated, and never on a hit.
use imps.Base.{
  ℕ, ℤ, ◌-ℤ◌, String, none, some, List, ◌≡◌, ◌≢◌, ◌⊎◌, refl, arith, lookup, inl, inr, Option-cases,
}
use imps.Persist.Lru.{find, touch}
use imps.Persist.Lru.Coherence.{state_of}
use imps.Persist.Lru.Insert.{ResidencyOk, insert_lem}
use imps.Persist.Store.{World, Envelope, Store, key, decode, rehydrate, get, update, write_through}
use imps.Persist.Store.Refine.{reflect_lem}
use imps.Persist.Store.View.{with_residency, find_miss}

module _ {T B E : Type 0} (w : World T B E) where
  -- A resident entity is returned as it is, whatever the clock and the backend say.
  get_resident :
      (now : ℤ) (s : Store T) (b : B) (e : String) {v : T}
      → state_of s.residency e ≡ some v
      → (a : ℕ) × (get w now s b e ≡ some (with_residency s (touch s.residency a), v, none))
  unfolding get
  get_resident now s b e h = elim (Option-cases (find s.residency e)) [
    | inl away ↦ absurd (ground arith)
    | inr (p, here) ↦ (p.0, ground arith)
  ]

  -- On a well-formed residency, the first read of an entity that is not resident and whose
  -- envelope decodes runs the hook on the decoded state, with the time since the stamp; a second
  -- read returns that same state, at any later time and whatever the backend then holds.
  pub get_wakes_once :
      (now later : ℤ) (s : Store T) (b b' : B) (e : String) (hook : String → ℤ → T → T)
      (raw : List ℕ) (env : Envelope) (state : T)
      → ResidencyOk s.residency
      → s.wake ≡ some hook
      → lookup e s.residency.resident ≡ none
      → w.backend.get b (key s e) ≡ (raw, none)
      → w.json.unmarshal raw ≡ (env, none)
      → w.codec.unmarshal env.state ≡ (state, none)
      → (s' s'' : Store T) × (get w now s b e
          ≡ some (s', hook e (now -ℤ env.last_active) state, none))
        × (get w later s' b' e ≡ some (s'', hook e (now -ℤ env.last_active) state, none))
  unfolding get
  get_wakes_once now later s b b' e hook raw env state ok wakes away fetched enveloped decoded =
      let v = hook e (now -ℤ env.last_active) state in
      let (r, kept, i) = insert_lem s.residency e v ok away in
      let s' = with_residency s r in
      let (a, again) = get_resident later s' b' e i.stored in
      let woken : rehydrate w now s b e ≡ (v, none) = unfold rehydrate decode in ground arith in
      (
        s',
        with_residency s' (touch r a),
        ground (arith, find_miss s.residency e away, woken),
        unfold get in again,
      )

  -- On a well-formed residency, with any codec and backend: an update of an entity that is not resident
  -- and whose envelope decodes runs the hook once, with the time since the stamp, before the update's
  -- function, which gets the woken state. If nothing of the write fails, the update returns the function of the woken state, and so
  -- does the next read; otherwise it reports an error, and the next read returns the woken state. The
  -- next read does so at any later time and whatever the backend then holds.
  pub update_wakes_once :
      (now now' later : ℤ) (s : Store T) (b b' : B) (e : String) (fn : T → T)
      (hook : String → ℤ → T → T) (raw : List ℕ) (env : Envelope) (state : T)
      → ResidencyOk s.residency
      → s.wake ≡ some hook
      → lookup e s.residency.resident ≡ none
      → w.backend.get b (key s e) ≡ (raw, none)
      → w.json.unmarshal raw ≡ (env, none)
      → w.codec.unmarshal env.state ≡ (state, none)
      → let woken = hook e (now -ℤ env.last_active) state in
        let wrote = write_through w now' s b e (fn woken) in
        (s' s'' : Store T) × (update w now now' s b e fn ≡ some ((s', wrote.0), fn woken, wrote.1))
        × (((wrote.1 ≡ none) × (get w later s' b' e ≡ some (s'', fn woken, none)))
            ⊎ ((wrote.1 ≢ none) × (get w later s' b' e ≡ some (s'', woken, none))))
  unfolding update
  update_wakes_once now now' later s b b' e fn hook raw env state ok wakes away fetched enveloped
        decoded =
      let v = hook e (now -ℤ env.last_active) state in
      let (r, kept, i) = insert_lem s.residency e v ok away in
      let s' = with_residency s r in
      let woken : rehydrate w now s b e ≡ (v, none) = unfold rehydrate decode in ground arith in
      let first : get w now s b e ≡ some (s', v, none) =
        unfold get in ground (arith, find_miss s.residency e away, woken) in
      let wrote = write_through w now' s b e (fn v) in
      let same : write_through w now' s' b e (fn v) ≡ wrote = unfold write_through key in refl in
      elim (Option-cases wrote.1) [
        | inr (bad, q) ↦
            let (a, again) = get_resident later s' b' e i.stored in
            (
              s',
              with_residency s' (touch r a),
              ground (arith, first, same, q),
              inr (ground arith, again),
            )
        | inl q ↦
            let (r', kept', f) = reflect_lem w r e (fn v) i.ok in
            let (a, again) = get_resident later (with_residency s r') b' e f.stored in
            (
              with_residency s r',
              with_residency s (touch r' a),
              ground (arith, first, same, q, kept'),
              inl (q, again),
            )
      ]
