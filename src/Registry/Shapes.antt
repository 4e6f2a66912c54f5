-- ===== src/Registry/Shapes.antt =====
-- All shapes of an imp's registry over their one memory: `ref`, and `Set` and `Update` of a slot.
use mathlib.Core.Path.{subst}
use imps.Base.{
  ℕ, String, ◌==◌, eq_iff, All, pos, ◌≤ℤ◌, none, some, List, [], ◌∷◌, lookup, insert, lookup-insert,
  ◌≡◌, ◌≢◌, refl, sym, ap, ◌∙◌, arith, ◌⊎◌, inl, inr, Option-cases, Bool-cases,
}
use imps.Spec.{StateShape}
use imps.Validate.Sound.{StateOk}
use imps.Registry.{
  Shape, Memory, Registry, new_shape, add_shapes, new_registry, store, alloc, ref, set, update,
}
use imps.Registry.Calls.{ShapeOk, grown, existing, full, fresh, ref_in-Outcome, ref_in-ShapeOk}

-- What a name or an entity reads as after an insertion: the new value, or the old reading.
inserted :
    {V : Type 0} (name n : String) (v v' : V) (table : List (String × V))
    → lookup n (insert name v table) ≡ some v'
    → ((name ≡ n) × (v ≡ v')) ⊎ ((name ≢ n) × (lookup n table ≡ some v'))
inserted name n v v' table h = elim (Bool-cases (name == n)) [
  | inl q ↦ inl ((eq_iff name n).0 q, ground (arith, lookup-insert name n v table))
  | inr q ↦ inr ((λ p. ground (arith, eq_iff name n)), ground (arith, lookup-insert name n v table))
]

module _ {Any : Type 0} where
  -- Every shape is well formed, and shapes share no slot.
  pub record RegistryOk (r : Registry Any) : Type 0 where
    pub shape_ok :
        (n : String) (sh : Shape Any)
        → lookup n r.shapes ≡ some sh
        → ShapeOk r.memory sh × (sh.factory ≢ none)
    pub apart :
        (n o : String) (sh sh' : Shape Any) (d e : String) (a : ℕ)
        → lookup n r.shapes ≡ some sh
        → lookup o r.shapes ≡ some sh'
        → lookup d sh.slots ≡ some a
        → lookup e sh'.slots ≡ some a
        → n ≡ o

  -- A shape does not notice a new slot, or a new value of a slot.
  module _ (m : Memory Any) (sh : Shape Any) (h : ShapeOk m sh) (v : Any) where
    open h use {counted, capped, held, apart}

    alloc-ShapeOk : ShapeOk (alloc m v).0 sh
    alloc-ShapeOk = record {
      counted = counted;
      capped = capped;
      held = λ e a p. ground (arith, held e a p);
      apart = apart;
    }

    store-ShapeOk : (b : ℕ) → ShapeOk (store m b v) sh
    store-ShapeOk b = record {
      counted = counted;
      capped = capped;
      held = λ e a p. ground (arith, held e a p);
      apart = apart;
    }

  pub set-RegistryOk : (r : Registry Any) (a : ℕ) (v : Any) → RegistryOk r → RegistryOk (set r a v)
  unfolding set
  set-RegistryOk r a v h = record {
    shape_ok =
        λ n sh p. (store-ShapeOk r.memory sh (h.shape_ok n sh p).0 v a, (h.shape_ok n sh p).1);
    apart = h.apart;
  }

  pub update-RegistryOk :
      (r : Registry Any) (a : ℕ) (f : Any → Any) → RegistryOk r → RegistryOk (update r a f)
  unfolding update set
  update-RegistryOk r a f h = elim (Option-cases (r.memory.cell a)) [
    | inl q ↦ rw (update, q) h
    | inr (v, q) ↦ rw (update, q) (set-RegistryOk r a (f v) h)
  ]

  -- The registry with a shape and the memory replaced, as `ref` leaves it.
  abbrev replaced : Registry Any → String → Shape Any → Memory Any → Registry Any
  replaced r name sh m = record { shapes = insert name sh r.shapes; memory = m }

  module _ (r : Registry Any) (name : String) (sh : Shape Any) (h : RegistryOk r)
      (known : lookup name r.shapes ≡ some sh) where
    same_shape :
        (n : String) (x : Shape Any)
        → lookup n (insert name sh r.shapes) ≡ some x
        → lookup n r.shapes ≡ some x
    same_shape n x p = elim (inserted name n sh x r.shapes p) [
      | inl (is, eq) ↦ ap (λ k. lookup k r.shapes) (sym is) ∙ known ∙ ap some eq
      | inr (other, old) ↦ old
    ]

    same-RegistryOk : RegistryOk (replaced r name sh r.memory)
    same-RegistryOk = record {
      shape_ok = λ n x p. h.shape_ok n x (same_shape n x p);
      apart = λ n o x y d e a p q. h.apart n o x y d e a (same_shape n x p) (same_shape o y q);
    }

    module _ (entity : String) (v : Any) (new : lookup entity sh.slots ≡ none) where
      abbrev at : ℕ
      at = r.memory.next

      -- The new slot is at an address that no other shape has.
      unshared :
          (o : String) (y : Shape Any) (d e : String) (a : ℕ)
          → name ≢ o
          → lookup o r.shapes ≡ some y
          → lookup d (grown sh entity at).slots ≡ some a
          → lookup e y.slots ≡ some a
          → ⊥
      unshared o y d e a other q there here = elim (inserted entity d at a sh.slots there) [
        | inl (is, eq) ↦ ground (arith, ((h.shape_ok o y q).0).held e a here)
        | inr (old, slot) ↦ other (h.apart name o sh y d e a known q slot here)
      ]

      grown-RegistryOk :
          ShapeOk (alloc r.memory v).0 (grown sh entity at)
          → RegistryOk (replaced r name (grown sh entity at) (alloc r.memory v).0)
      grown-RegistryOk ok = record {
        shape_ok = λ n x p. elim (inserted name n (grown sh entity at) x r.shapes p) [
          | inl (is, eq) ↦
              subst (λ y. ShapeOk (alloc r.memory v).0 y × (y.factory ≢ none)) eq
                (ok, (h.shape_ok name sh known).1)
          | inr (other, old) ↦
              (alloc-ShapeOk r.memory x (h.shape_ok n x old).0 v, (h.shape_ok n x old).1)
        ];
        apart = λ n o x y d e a p q s t. elim (inserted name n (grown sh entity at) x r.shapes p) [
          | inl (is, eq) ↦ elim (inserted name o (grown sh entity at) y r.shapes q) [
            | inl (is', eq') ↦ sym is ∙ is'
            | inr (other, old) ↦
                absurd (unshared o y d e a other old (ap (λ z. lookup d z.slots) eq ∙ s) t)
          ]
          | inr (other, old) ↦ elim (inserted name o (grown sh entity at) y r.shapes q) [
            | inl (is', eq') ↦
                absurd (unshared n x e d a other old (ap (λ z. lookup e z.slots) eq' ∙ t) s)
            | inr (other', old') ↦ h.apart n o x y d e a old old' s t
          ]
        ];
      }

  pub ref-RegistryOk :
      (E : Type 0) (r : Registry Any) (name entity : String)
      → RegistryOk r
      → RegistryOk (ref {E = E} r name entity).0
  unfolding ref
  ref-RegistryOk E r name entity h = elim (Option-cases (lookup name r.shapes)) [
    | inl unknown ↦ rw (ref, unknown) h
    | inr (sh, known) ↦
        let (ok, made) = h.shape_ok name sh known in
        let next = ref_in-ShapeOk sh entity E r.memory ok made in
        elim (ref_in-Outcome sh entity E r.memory ok made) [
          | existing a old is ↦ rw (ref, known, is) (same-RegistryOk r name sh h known)
          | full new at_cap is ↦ rw (ref, known, is) (same-RegistryOk r name sh h known)
          | fresh v new room is ↦
              rw (ref, known, is)
                (grown-RegistryOk r name sh h known entity v new
                  (subst (λ x. ShapeOk x.1 x.0) is next))
        ]
  ]

  -- A shape without slots, as `newRegistry` makes them of the states that `validateSpec` accepts.
  record Bare (sh : Shape Any) : Type 0 where
    zeroed : sh.count ≡ pos 0
    slotless : sh.slots ≡ []
    capable : pos 0 ≤ℤ sh.cap
    makes : sh.factory ≢ none

  AllBare : List (String × Shape Any) → Type 0
  AllBare shapes = (n : String) (sh : Shape Any) → lookup n shapes ≡ some sh → Bare sh

  add_shapes-AllBare :
      (shapes : List (String × Shape Any)) (ss : List (StateShape Any))
      → AllBare shapes
      → All StateOk ss
      → AllBare (add_shapes shapes ss)
  unfolding add_shapes AllBare
  add_shapes-AllBare shapes [] h ok = h
  add_shapes-AllBare shapes (s ∷ ss) h ok =
      add_shapes-AllBare (insert s.name (new_shape s) shapes) ss
        (λ n sh p. elim (inserted s.name n (new_shape s) sh shapes p) [
          | inl (is, eq) ↦ subst Bare eq (record {
            zeroed = refl;
            slotless = refl;
            capable = ground (arith, ok.0.bounded);
            makes = ok.0.makes;
          })
          | inr (other, old) ↦ h n sh old
        ])
        ok.1

  pub new_registry-RegistryOk :
      (ss : List (StateShape Any)) → All StateOk ss → RegistryOk (new_registry ss)
  unfolding new_registry lookup AllBare
  new_registry-RegistryOk ss ok =
      let bare = add_shapes-AllBare [] ss (λ n sh p. absurd (ground arith)) ok in
      record {
        shape_ok = λ n sh p.
            let b = bare n sh p in
            (
              record {
                counted = ground (arith, b.zeroed, b.slotless);
                capped = ground (arith, b.zeroed, b.capable);
                held = λ e a q. absurd (ground (arith, b.slotless));
                apart = λ d e a q t. absurd (ground (arith, b.slotless));
              },
              b.makes,
            );
        apart = λ n o x y d e a p q s t. absurd (ground (arith, (bare n x p).slotless));
      }
