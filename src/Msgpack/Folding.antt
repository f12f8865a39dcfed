-- ===== src/Msgpack/Folding.antt =====
-- What the loop of `unpack` in app/udp_proxy.cpp and app/tcp_proxy.cpp makes of the objects.
use ae_proxy.Base.{
  ℕ, zero, suc, ◌+◌, ◌≤◌, ◌<◌, ◌≡◌, ◌≢◌, ◌⊎◌, inl, inr, refl, ap, sym, subst, ◌∙◌, List, [], ◌∷◌,
  Option, none, some, length, arith, Option-cases,
}
use mathlib.Core.Bool.{Bool, true, false, true≢false}
use mathlib.Core.Option.{bind}
use ae_proxy.Msgpack.{
  Object, Unpacked, decoded, undefined, out_of_fuel, Unpacker, unpack_loop, unpack_objects,
}

-- What msgpack documents of a success: the offset moves forward, and stays in the buffer.
unfoldable pub Advances : Unpacker → Type 0
Advances next =
    (buffer : List ℕ) (offset : ℕ) (obj : Object) (offset' : ℕ)
    → next buffer offset ≡ some (obj, offset')
    → (offset < offset') × (offset' ≤ length buffer)

-- From a return value on, the unpacker yields these objects and then stops.
unfoldable pub Yields : Unpacker → List ℕ → Option (Object × ℕ) → List Object → Type 0
Yields next buffer ret [] = ret ≡ none
Yields next buffer ret (obj ∷ objs) =
    (offset : ℕ) × (ret ≡ some (obj, offset)) × Yields next buffer (next buffer offset) objs

module _ {ℓ} {F : Type ℓ} where
  is_out_of_fuel : Unpacked F → Bool
  is_out_of_fuel out_of_fuel = true
  is_out_of_fuel _ = false

  ends : {u : Unpacked F} → is_out_of_fuel u ≡ false → u ≢ out_of_fuel
  unfolding is_out_of_fuel
  ends h e = true≢false (sym (ap is_out_of_fuel e) ∙ h)

  -- What a result of the assignments is as a result of the loop.
  abbrev pub as_unpacked : Option F → Unpacked F
  as_unpacked none = undefined
  as_unpacked (some f) = decoded f

module _ {ℓ} {F : Type ℓ} (assign : ℕ → Object → F → Option F) where
  -- The assignments of the objects, one after the other.
  unfoldable pub assign_all : ℕ → List Object → F → Option F
  assign_all i [] f = some f
  assign_all i (obj ∷ objs) f = bind (assign i obj f) (assign_all (suc i) objs)

  -- The objects from index `i` on change nothing.
  abbrev pub Ignores : ℕ → Type ℓ
  Ignores i = (j : ℕ) (obj : Object) (f : F) → assign (j + i) obj f ≡ some f

  pub assign_all-Ignores :
      (i : ℕ) (objs : List Object) (f : F) → Ignores i → assign_all i objs f ≡ some f
  unfolding assign_all bind
  assign_all-Ignores i [] f h = refl
  assign_all-Ignores i (obj ∷ objs) f h =
      let first : assign i obj f ≡ some f =
        subst (λ k. assign k obj f ≡ some f) (omega arith) (h 0 obj f) in
      let later : Ignores (suc i) =
        λ j obj' f'. subst (λ k. assign k obj' f' ≡ some f') (omega arith) (h (suc j) obj' f') in
      rw first (assign_all-Ignores (suc i) objs f later)

  module _ (next : Unpacker) (buffer : List ℕ) where
    loop_ends :
        Advances next
        → (fuel i offset : ℕ) (f : F) → offset ≤ length buffer
        → length buffer < offset + fuel
        → is_out_of_fuel (unpack_loop assign next buffer fuel i (next buffer offset) f) ≡ false
    unfolding unpack_loop Advances is_out_of_fuel
    loop_ends adv zero i offset f inside enough = absurd (omega (arith, inside, enough))
    loop_ends adv (suc fuel) i offset f inside enough = elim (Option-cases (next buffer offset)) [
      | inl stop ↦ rw stop refl
      | inr ((obj, offset'), found) ↦ rw found (
          let (forward, inside') = adv buffer offset obj offset' found in
          elim (Option-cases (assign i obj f)) [
            | inl e ↦ rw e refl
            | inr (f', e) ↦
                rw e
                  (loop_ends adv fuel (suc i) offset' f' inside' (omega (arith, enough, forward)))
          ])
    ]

    pub objects_end : (f : F) → Advances next → unpack_objects assign next buffer f ≢ out_of_fuel
    unfolding unpack_objects
    objects_end f adv =
        ends (loop_ends adv (suc (suc (length buffer))) 0 0 f (omega arith) (omega arith))

    loop-assign_all :
        (fuel i : ℕ) (ret : Option (Object × ℕ)) (objs : List Object) (f : F)
        → Yields next buffer ret objs
        → (unpack_loop assign next buffer fuel i ret f ≡ out_of_fuel)
          ⊎ (unpack_loop assign next buffer fuel i ret f ≡ as_unpacked (assign_all i objs f))
    unfolding Yields unpack_loop assign_all bind
    loop-assign_all zero i ret objs f y = inl refl
    loop-assign_all (suc fuel) i ret [] f y = rw y (inr refl)
    loop-assign_all (suc fuel) i ret (obj ∷ objs) f (offset, e, y) =
        rw e (elim (Option-cases (assign i obj f)) [
          | inl undef ↦ rw undef (inr refl)
          | inr (f', defined) ↦
              rw defined (loop-assign_all fuel (suc i) (next buffer offset) objs f' y)
        ])

    -- The loop is a fold: with an unpacker that moves forward at every success, what it reads from a
    -- buffer are the assignments of the objects that the unpacker yields, each with its index, in their
    -- order, and it is undefined just when one of these is.
    pub unpack_objects-assign_all :
        (objs : List Object) (f : F)
        → Advances next
        → Yields next buffer (next buffer 0) objs
        → unpack_objects assign next buffer f ≡ as_unpacked (assign_all 0 objs f)
    unfolding unpack_objects
    unpack_objects-assign_all objs f adv y =
        elim (loop-assign_all (suc (suc (length buffer))) 0 (next buffer 0) objs f y) [
          | inl e ↦ absurd (objects_end f adv e)
          | inr e ↦ e
        ]
