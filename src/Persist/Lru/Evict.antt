-- ===== src/Persist/Lru/Evict.antt =====
-- Eviction at the bound: it ends, makes room, and only forgets entries.
use mathlib.Core.List.{append_assoc, append-nil}
use imps.Base.{
  ℕ, zero, suc, ◌<◌, ◌≤◌, ◌≤ℤ◌, leb_ℤ, pos, String, none, some, List, [], ◌∷◌, ◌++◌, length, ◌≡◌,
  refl, sym, ◌∙◌, arith, ◌⊎◌, lookup, lookup-erase, Bool-cases, inl, inr,
}
use imps.Persist.Lru.{Residency, back, drop, evict}
use imps.Persist.Lru.Addresses.{length-remove, back_nonempty, remove-back}
use imps.Persist.Lru.Coherence.{state_of, Coherent, drop-Coherent, state_of-drop}

module _ {T : Type 0} where
  -- What an eviction leaves: entries may be forgotten, and nothing else is seen to change.
  pub record Fewer (r r' : Residency T) : Type 0 where
    pub coherent : Coherent r'
    pub same_bound : r'.bound ≡ r.bound
    pub same_next : r'.next ≡ r.next
    pub no_new : (f : String) → lookup f r.resident ≡ none → lookup f r'.resident ≡ none
    pub shorter : length r'.lru ≤ length r.lru
    pub cold : (l : List ℕ) × (r.lru ≡ r'.lru ++ l)
    pub kept : (f : String) → (state_of r' f ≡ state_of r f) ⊎ (state_of r' f ≡ none)

  Fewer-trans : (r s t : Residency T) → Fewer r s → Fewer s t → Fewer r t
  Fewer-trans r s t p q = record {
    coherent = q.coherent;
    same_bound = q.same_bound ∙ p.same_bound;
    same_next = q.same_next ∙ p.same_next;
    no_new = λ f n. q.no_new f (p.no_new f n);
    shorter = omega (arith, p.shorter, q.shorter);
    cold =
        let (a, e) = p.cold in let (b, f) = q.cold in (b ++ a, rw (e, f) (append_assoc t.lru b a));
    kept = λ f. ground (arith, p.kept f, q.kept f);
  }

  drop-Fewer :
      (r : Residency T) (a : ℕ) (e : String)
      → Coherent r
      → lookup e r.resident ≡ some a
      → back r.lru ≡ some a
      → Fewer r (drop r a e) × (suc (length (drop r a e).lru) ≡ length r.lru)
  drop-Fewer r a e h is last = (
    record {
      coherent = drop-Coherent r h a e is;
      same_bound = unfold drop in refl;
      same_next = unfold drop in refl;
      no_new = λ f n. unfold drop in ground (arith, lookup-erase e f r.resident);
      shorter = omega (arith, one_less);
      cold = (a ∷ [], unfold drop in remove-back r.lru h.once last);
      kept = λ f. ground (arith, state_of-drop r e f a);
    },
    one_less,
  )
    where
      one_less : suc (length (drop r a e).lru) ≡ length r.lru
      one_less = unfold drop in length-remove a r.lru h.once (h.linked e a is).0

  -- With a positive bound the loop never dereferences nil, ends within the fuel, and leaves room
  -- for one more entry.
  pub evict_lem :
      (fuel : ℕ) (r : Residency T)
      → Coherent r
      → pos 1 ≤ℤ r.bound
      → pos (length r.lru) ≤ℤ r.bound
      → length r.lru < fuel
      → (r' : Residency T) × (evict fuel r ≡ some r')
        × (pos (suc (length r'.lru)) ≤ℤ r.bound)
        × ((r'.lru ≡ r.lru) ⊎ (pos (suc (length r'.lru)) ≡ r.bound))
        × Fewer r r'
  unfolding evict
  evict_lem zero r h b c m = absurd (omega arith)
  evict_lem (suc fuel) r h b c m = elim (Bool-cases (leb_ℤ r.bound (pos (length r.lru)))) [
    | inr room ↦ (
      r,
      rw (room, evict) refl,
      ground arith,
      inl refl,
      record {
        coherent = h;
        same_bound = refl;
        same_next = refl;
        no_new = λ f n. n;
        shorter = omega arith;
        cold = ([], sym (append-nil r.lru));
        kept = λ f. inl refl;
      },
    )
    | inl full ↦
        let (a, last, here) = back_nonempty r.lru (ground arith) in
        let (e, owned, linked) = h.listed a here in
        let (fewer, one_less) = drop-Fewer r a e h linked last in
        let s = drop r a e in
        let (r', ends, room, tight, fewer') =
          evict_lem fuel s fewer.coherent (rw fewer.same_bound b)
            (rw fewer.same_bound (omega arith)) (omega arith) in
        (
          r',
          ground arith,
          rw fewer.same_bound at room,
          inr (ground (arith, fewer.same_bound)),
          Fewer-trans r s r' fewer fewer',
        )
  ]
