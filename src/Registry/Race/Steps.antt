-- ===== src/Registry/Race/Steps.antt =====
-- One step of a call of `ref`: what it does to the counter, the slots and the memory, and to what
-- the other calls know.
use imps.Base.{
  ℕ, ◌+◌, ◌<◌, String, eq_iff, ℤ, pos, ◌+ℤ◌, ◌≤ℤ◌, leb_ℤ, none, some, lookup, ◌≡◌, refl, ◌≢◌, ◌⊎◌,
  false, arith, length, lookup-insert, length-insert_absent, inl, inr,
}
use mathlib.Core.Path.{subst}
use imps.Registry.{Shape, Memory, load_or_store}
use imps.Registry.Race.{Point, counted, reserved, made, lost, got, panicked, Call, advance}

-- A reservation that is neither stored nor given back.
abbrev pub pending : Call → ℕ
pending c = elim c.point [ reserved ↦ 1 | made _ ↦ 1 | lost _ ↦ 1 | panicked ↦ 1 | _ ↦ 0 ]

module _ {Any : Type 0} where
  -- What the locals of a call say about the shared state.
  abbrev pub PointOk : Shape Any → Memory Any → String → Point → Type 0
  PointOk sh m e (made a) =
      (a < m.next) × (m.cell a ≢ none) × ((d : String) → lookup d sh.slots ≢ some a)
  PointOk sh m e (counted c) = leb_ℤ sh.cap c ≡ false
  PointOk sh m e (lost a) = lookup e sh.slots ≡ some a
  PointOk sh m e (got a) = lookup e sh.slots ≡ some a
  PointOk sh m e p = Unit

  pub record SlotsOk (sh : Shape Any) (m : Memory Any) : Type 0 where
    pub held : (d : String) (a : ℕ) → lookup d sh.slots ≡ some a → (a < m.next) × (m.cell a ≢ none)
    pub apart :
        (d e : String) (a : ℕ) → lookup d sh.slots ≡ some a → lookup e sh.slots ≡ some a → d ≡ e

  -- One step, seen from the shape, the memory and the call that moves. The last clause of each
  -- lemma is for the points at which a call has returned.
  pub advance-covered :
      (sh : Shape Any) (m : Memory Any) (e : String) (p : Point) (n : ℕ)
      → sh.count ≡ pos (length sh.slots + (n + pending (record { entity = e; point = p })))
      → (advance sh m e p).0.count
        ≡ pos (
            length (advance sh m e p).0.slots
            + (n + pending (record { entity = e; point = (advance sh m e p).2 })))
  unfolding advance load_or_store ◌+ℤ◌
  advance-covered sh m e (made a) n h = ground (arith, length-insert_absent e a sh.slots)
  advance-covered sh m e p n h = ground arith

  pub advance-le-cap :
      (sh : Shape Any) (m : Memory Any) (e : String) (p : Point)
      → PointOk sh m e p
      → sh.count ≤ℤ sh.cap
      → (advance sh m e p).0.count ≤ℤ (advance sh m e p).0.cap
  unfolding advance load_or_store ◌+ℤ◌
  advance-le-cap sh m e (made a) ok h = ground arith
  advance-le-cap sh m e p ok h = ground arith

  module _ (sh : Shape Any) (m : Memory Any) (e : String) where
    cap-advance : (p : Point) → (advance sh m e p).0.cap ≡ sh.cap
    unfolding advance load_or_store
    cap-advance (made a) = ground arith
    cap-advance p = ground arith

    -- Slots are never removed or replaced, ...
    lookup-advance :
        (p : Point) (d : String) (a : ℕ)
        → lookup d sh.slots ≡ some a
        → lookup d (advance sh m e p).0.slots ≡ some a
    unfolding advance load_or_store
    lookup-advance (made b) d a h = ground (arith, lookup-insert e d b sh.slots, eq_iff e d)
    lookup-advance p d a h = ground arith

    -- ... and the only new one is the one that the call built.
    lookup-advance_new :
        (p : Point) (d : String) (a : ℕ)
        → lookup d (advance sh m e p).0.slots ≡ some a
        → (lookup d sh.slots ≡ some a) ⊎ ((p ≡ made a) × (d ≡ e))
    unfolding advance load_or_store
    lookup-advance_new (made b) d a h = ground (arith, lookup-insert e d b sh.slots, eq_iff e d)
    lookup-advance_new p d a h = ground arith

    cell-advance :
        (p : Point) (a : ℕ)
        → (a < m.next) × (m.cell a ≢ none)
        → (a < (advance sh m e p).1.next) × ((advance sh m e p).1.cell a ≢ none)
    unfolding advance load_or_store
    cell-advance (made b) a h = ground arith
    cell-advance p a h = ground arith

    -- A slot that is built in this step has an address of its own.
    pub advance-made :
        (p : Point) (a : ℕ)
        → (advance sh m e p).2 ≡ made a
        → (p ≡ reserved)
          × (a ≡ m.next)
          × (a < (advance sh m e p).1.next)
          × ((advance sh m e p).1.cell a ≢ none)
          × ((advance sh m e p).0.slots ≡ sh.slots)
    unfolding advance load_or_store
    advance-made (made b) a h = ground arith
    advance-made p a h = ground arith

    advance-lost :
        (p : Point) (a : ℕ)
        → PointOk sh m e p
        → ((advance sh m e p).2 ≡ lost a) ⊎ ((advance sh m e p).2 ≡ got a)
        → lookup e (advance sh m e p).0.slots ≡ some a
    unfolding advance load_or_store
    advance-lost (made b) a ok h = ground (arith, lookup-insert e e b sh.slots, eq_iff e e)
    advance-lost p a ok h = ground arith

    advance-counted :
        (p : Point) (c : ℤ)
        → PointOk sh m e p
        → (advance sh m e p).2 ≡ counted c
        → leb_ℤ sh.cap c ≡ false
    unfolding advance load_or_store
    advance-counted (made b) c ok h = ground arith
    advance-counted p c ok h = ground arith

  module _ (sh : Shape Any) (m : Memory Any) (e : String) (slots : SlotsOk sh m) where
    open slots use {held, apart}

    pub advance-SlotsOk :
        (p : Point) → PointOk sh m e p → SlotsOk (advance sh m e p).0 (advance sh m e p).1
    advance-SlotsOk p ok = record {
      held = λ d a q. elim (lookup-advance_new sh m e p d a q) [
        | inl old ↦ cell-advance sh m e p a (held d a old)
        | inr (built, _) ↦
            let (low, full, new) = subst (PointOk sh m e) built ok in
            cell-advance sh m e p a (low, full)
      ];
      apart = λ d f a q r. elim (lookup-advance_new sh m e p d a q) [
        | inl old ↦ elim (lookup-advance_new sh m e p f a r) [
          | inl old' ↦ apart d f a old old'
          | inr (built, _) ↦ absurd ((subst (PointOk sh m e) built ok).2 d old)
        ]
        | inr (built, here) ↦ elim (lookup-advance_new sh m e p f a r) [
          | inl old' ↦ absurd ((subst (PointOk sh m e) built ok).2 f old')
          | inr (_, here') ↦ cc
        ]
      ];
    }

    -- The call that moves, by the point that it reaches.
    pub advance-PointOk :
        (p q : Point)
        → (advance sh m e p).2 ≡ q
        → PointOk sh m e p
        → PointOk (advance sh m e p).0 (advance sh m e p).1 e q
    advance-PointOk p (made a) h ok =
        let (_, fresh, low, full, same) = advance-made sh m e p a h in
        (low, full, λ d q. absurd (omega (arith, fresh, (held d a (rw same at q)).0)))
    advance-PointOk p (lost a) h ok = advance-lost sh m e p a ok (inl h)
    advance-PointOk p (got a) h ok = advance-lost sh m e p a ok (inr h)
    advance-PointOk p (counted c) h ok = rw (cap-advance sh m e p) (advance-counted sh m e p c ok h)
    advance-PointOk p q h ok = tt

    -- Another call stays right, unless both would store the same fresh slot.
    pub advance-PointOk_other :
        (p : Point) (d : String) (q : Point)
        → PointOk sh m d q
        → ((a : ℕ) → p ≡ made a → q ≢ made a)
        → PointOk (advance sh m e p).0 (advance sh m e p).1 d q
    advance-PointOk_other p d (made a) ok other =
        let (low, full) = cell-advance sh m e p a (ok.0, ok.1) in
        (
          low,
          full,
          λ f q. elim (lookup-advance_new sh m e p f a q) [
            | inl old ↦ ok.2 f old
            | inr (built, _) ↦ other a built refl
          ],
        )
    advance-PointOk_other p d (lost a) ok other = lookup-advance sh m e p d a ok
    advance-PointOk_other p d (got a) ok other = lookup-advance sh m e p d a ok
    advance-PointOk_other p d (counted c) ok other = rw (cap-advance sh m e p) ok
    advance-PointOk_other p d q ok other = tt
