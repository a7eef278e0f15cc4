-- ===== src/Domain/Signals/Stops.antt =====
-- Where `compute_stop` puts the stop.
use mathlib.Core.Option.{some-injective, none-ne-some}
use pyharmonics_gpt.Prelude.{
  ◌≡◌, refl, subst, Bool, true, false, not, ◌&&◌, arith, ◌⊎◌, inl, inr, Option, none, some, String,
  if◌then◌else◌,
}
use pyharmonics_gpt.Float.{
  Float, IsOrdered, IsNumber, lt, le, gt, add, sub, mul, max, lit, nought, le-max_left,
}
use pyharmonics_gpt.Float.Rounding.{IsRounded}
use pyharmonics_gpt.Domain.Signals.{
  Candidate, Tuning, StopOptions, base_buffer, regime_multiplier, grade_multiplier,
  effective_multiplier, structural_anchor, swing_or, stop_at, ensured, stop_requires, compute_stop,
}

module _ {F : Type 0} ⦃d : Float F⦄ where
  -- The anchor is the structural one, or the swing, which then lies strictly between that and the
  -- entry.
  abbrev pub Anchors : StopOptions F → Bool → F → F → Type 0
  Anchors o bullish structural anchor =
      (anchor ≡ structural)
      ⊎ ((entry : F) × (o.swing_anchor ≡ some anchor)
          × (o.entry ≡ some entry)
          × ((if bullish
                then lt anchor entry && lt structural anchor
                else lt entry anchor && lt anchor structural)
              ≡ true))

  swing-if :
      (o : StopOptions F) (structural swing entry : F) (bullish b : Bool)
      → o.swing_anchor ≡ some swing
      → o.entry ≡ some entry
      → (b ≡ true
          → (if bullish
              then lt swing entry && lt structural swing
              else lt entry swing && lt swing structural)
            ≡ true)
      → Anchors o bullish structural (if b then swing else structural)
  swing-if o structural swing entry bullish true hs he h = inr (entry, hs, he, h refl)
  swing-if o structural swing entry bullish false hs he h = inl refl

  swing-cases :
      (o : StopOptions F) (bullish : Bool) (structural : F) (swing entry : Option F)
      → o.swing_anchor ≡ swing
      → o.entry ≡ entry
      → Anchors o bullish structural (elim swing [
        | none ↦ structural
        | some s ↦ elim entry [
          | none ↦ structural
          | some e ↦
              if bullish
              then (if lt s e && gt s nought && gt s structural then s else structural)
              else (if gt s e && gt s nought && lt s structural then s else structural)
        ]
      ])
  swing-cases o bullish structural none entry hs he = inl refl
  swing-cases o bullish structural (some s) none hs he = inl refl
  swing-cases o true structural (some s) (some e) hs he =
      swing-if o structural s e true (lt s e && gt s nought && gt s structural) hs he
        (λ b. ground arith)
  swing-cases o false structural (some s) (some e) hs he =
      swing-if o structural s e false (gt s e && gt s nought && lt s structural) hs he
        (λ b. ground arith)

  swing_or-Anchors :
      (o : StopOptions F) (bullish : Bool) (structural : F)
      → Anchors o bullish structural (swing_or o bullish structural)
  unfolding swing_or
  swing_or-Anchors o bullish structural =
      swing-cases o bullish structural o.swing_anchor o.entry refl refl

  module _ (o : IsOrdered F) {round8 : F → F} (r : IsRounded F round8) where
    regime_nonneg : (regime : String) → le {F = F} nought (regime_multiplier regime) ≡ true
    unfolding regime_multiplier
    regime_nonneg regime = ground (arith, r.lit_nonneg 15 1, r.lit_nonneg 1 0)

    grade_nonneg : (g : Option String) → le {F = F} nought (grade_multiplier g) ≡ true
    unfolding grade_multiplier
    grade_nonneg none = r.lit_nonneg 1 0
    grade_nonneg (some g) = ground (arith, r.lit_nonneg 13 1, r.lit_nonneg 15 1, r.lit_nonneg 1 0)

    trap_nonneg : (x : F) → le nought (max (lit 1 0) x) ≡ true
    trap_nonneg x =
        o.le_trans nought (lit 1 0) (max (lit 1 0) x) (r.lit_nonneg 1 0)
          (le-max_left o (lit 1 0) x (o.lit_IsNumber 1 0))

    product_nonneg :
        (a b c e : F)
        → le nought a ≡ true
        → le nought b ≡ true
        → le nought c ≡ true
        → le nought e ≡ true
        → IsNumber (mul (mul (mul a b) c) e)
        → le nought (mul (mul (mul a b) c) e) ≡ true
    product_nonneg a b c e ha hb hc he h =
        let h2 = (r.mul_number (mul (mul a b) c) e h).0 in
        let h3 = (r.mul_number (mul a b) c h2).0 in
        r.mul_nonneg (mul (mul a b) c) e h
          (r.mul_nonneg (mul a b) c h2 (r.mul_nonneg a b h3 ha hb) hc) he

    -- the clamp at two
    clamped :
        (x : F) (b : Bool)
        → lt (lit 2 0) x ≡ b
        → IsNumber (if b then lit 2 0 else x)
        → (IsNumber x → le nought x ≡ true)
        → (le nought (if b then lit 2 0 else x) ≡ true)
          × (le (if b then lit 2 0 else x) (lit 2 0) ≡ true)
    clamped x true e h k = (r.lit_nonneg 2 0, o.lit_IsNumber 2 0)
    clamped x false e h k = (k h, ground (arith, o.lt_of_not_le (lit 2 0) x (o.lit_IsNumber 2 0) h))

    effective_bounds :
        (t : Tuning F) (opts : StopOptions F)
        → le nought (base_buffer t opts) ≡ true
        → IsNumber (effective_multiplier t opts)
        → (le nought (effective_multiplier t opts) ≡ true)
          × (le (effective_multiplier t opts) (lit 2 0) ≡ true)
    unfolding effective_multiplier
    effective_bounds t opts base h = clamped _ _ refl h (λ k.
        product_nonneg _ _ _ _ base (trap_nonneg opts.trap_multiplier) (regime_nonneg opts.regime)
          (grade_nonneg opts.grade) k)

    -- How a stop and an invalidation point come about, and which side they are on.
    abbrev pub Placed : Tuning F → Candidate F → F → StopOptions F → F × F → Type 0
    Placed t c atr opts result =
        (structural : F) × (anchor : F) × (buffer : F) × (structural_anchor t opts c
          ≡ some structural)
        × Anchors opts c.bullish structural anchor
        × (result.1 ≡ round8 anchor)
        × (result.0 ≡ round8 (if c.bullish then sub anchor buffer else add anchor buffer))
        × (le nought buffer ≡ true)
        × (le buffer (mul (lit 2 0) atr) ≡ true)
        × ((if c.bullish then le (result.0) (result.1) else le (result.1) (result.0)) ≡ true)

    side :
        (bullish : Bool) (anchor buffer : F)
        → IsNumber (if bullish then sub anchor buffer else add anchor buffer)
        → le nought buffer ≡ true
        → (if bullish
            then le
                (round8 (if bullish then sub anchor buffer else add anchor buffer))
                (round8 anchor)
            else le
                (round8 anchor)
                (round8 (if bullish then sub anchor buffer else add anchor buffer)))
          ≡ true
    side true anchor buffer h k = r.round_le _ _ (r.sub_le anchor buffer h k)
    side false anchor buffer h k = r.round_le _ _ (r.le_add anchor buffer h k)

    buffer-IsNumber :
        (bullish : Bool) (anchor buffer : F)
        → IsNumber (if bullish then sub anchor buffer else add anchor buffer)
        → IsNumber buffer
    buffer-IsNumber true anchor buffer h = (r.sub_number anchor buffer h).1
    buffer-IsNumber false anchor buffer h = (r.add_number anchor buffer h).1

    ensured-some :
        (x result : F × F) → ensured x ≡ some result → (gt (x.0) nought ≡ true) × (x ≡ result)
    unfolding ensured
    ensured-some x result e = go (gt (x.0) nought && gt (x.1) nought) refl e
      where
        go :
            (b : Bool)
            → (gt (x.0) nought && gt (x.1) nought) ≡ b
            → (if b then some x else none) ≡ some result
            → (gt (x.0) nought ≡ true) × (x ≡ result)
        go true h k = (ground arith, some-injective x result k)
        go false h k = absurd (none-ne-some result k)

    placed :
        (t : Tuning F) (c : Candidate F) (atr : F) (opts : StopOptions F) (structural : F)
        (result : F × F)
        → le nought (base_buffer t opts) ≡ true
        → gt atr nought ≡ true
        → IsNumber (mul (lit 2 0) atr)
        → structural_anchor t opts c ≡ some structural
        → ensured (
            stop_at round8 c.bullish
              (swing_or opts c.bullish structural)
              (mul (effective_multiplier t opts) atr))
          ≡ some result
        → Placed t c atr opts result
    unfolding stop_at
    placed t c atr opts structural result base positive full es e =
        let anchor = swing_or opts c.bullish structural in
        let buffer = mul (effective_multiplier t opts) atr in
        let out = ensured-some (stop_at round8 c.bullish anchor buffer) result e in
        let number = r.round_number _ ((o.refl_of_le _ _ (o.le_of_lt _ _ (out.0))).1) in
        let is_buffer = buffer-IsNumber c.bullish anchor buffer number in
        let bounds = effective_bounds t opts base ((r.mul_number _ _ is_buffer).0) in
        let atr_nonneg = o.le_of_lt nought atr positive in
        let low = r.mul_nonneg _ _ is_buffer (bounds.0) atr_nonneg in
        let high = r.mul_le_mul _ _ _ is_buffer full (bounds.1) atr_nonneg in
        subst (Placed t c atr opts) (out.1) (
          structural,
          anchor,
          buffer,
          es,
          swing_or-Anchors opts c.bullish structural,
          refl,
          refl,
          low,
          high,
          side c.bullish anchor buffer number low,
        )

    stop-if :
        (t : Tuning F) (c : Candidate F) (atr : F) (opts : StopOptions F) (b : Bool)
        (structural : Option F) (result : F × F)
        → le nought (base_buffer t opts) ≡ true
        → IsNumber (mul (lit 2 0) atr)
        → (b ≡ true → gt atr nought ≡ true)
        → structural_anchor t opts c ≡ structural
        → (if not b then none else elim structural [
          | none ↦ none
          | some anchor ↦ ensured (
              stop_at round8 c.bullish
                (swing_or opts c.bullish anchor)
                (mul (effective_multiplier t opts) atr))
        ])
          ≡ some result
        → Placed t c atr opts result
    stop-if t c atr opts false structural result base full positive es e =
        absurd (none-ne-some result e)
    stop-if t c atr opts true none result base full positive es e = absurd (none-ne-some result e)
    stop-if t c atr opts true (some anchor) result base full positive es e =
        placed t c atr opts anchor result base (positive refl) full es e

    requires-atr : (c : Candidate F) (atr : F) → stop_requires c atr ≡ true → gt atr nought ≡ true
    unfolding stop_requires
    requires-atr c atr h = ground arith

    -- With a base buffer that is not negative, and where twice the ATR is a number: if `compute_stop`
    -- returns, the invalidation point is the rounded anchor, and the stop lies a buffer between 0 and
    -- 2 ATR below it for a long, above it for a short, whatever the trap, regime and grade multipliers
    -- are, so that the stop is never on the near side of the invalidation point. The anchor is the
    -- structural one, or the swing, which then lies strictly between the structure and the entry.
    pub compute_stop-Placed :
        (t : Tuning F) (c : Candidate F) (atr : F) (opts : StopOptions F) (result : F × F)
        → le nought (base_buffer t opts) ≡ true
        → IsNumber (mul (lit 2 0) atr)
        → compute_stop round8 t c atr opts ≡ some result
        → Placed t c atr opts result
    unfolding compute_stop
    compute_stop-Placed t c atr opts result base full e =
        stop-if t c atr opts (stop_requires c atr) (structural_anchor t opts c) result base full
          (requires-atr c atr) refl e
