-- ===== src/Loop/Mutation/Attempts.antt =====
-- One attempt at a mutation of one field, app/loop/mutation.py: `_apply_one_mutation`.
use pyharmonics_gpt.Prelude.{
  ℕ, suc, Bool, not, ◌&&◌, Option, none, some, List, [], ◌∷◌, String, any, filter, ℤ, pos, negsuc,
  ◌+ℤ◌, ◌-ℤ◌, ltb_ℤ, if◌then◌else◌,
}
use pyharmonics_gpt.Float.{Float, lt, le, add, mul, div, lit, nought, neg, max, min}
use pyharmonics_gpt.Dict.{Dict, lookup}
use pyharmonics_gpt.Config.Tuning.{TuningConstants, sum_ℤ, sum_values}
use pyharmonics_gpt.Config.Tuning.Fields.{
  Value, float, int, floats, Built, built, refused, ill_typed, fields, replace,
}

-- A kind with its keyword arguments; those of a dict are `per_key`, `min`, `max`, `keys_bounds` and
-- `target_sum`.
pub data Kind (F : Type 0) : Type 0 where
  abs_small rel_large : F → F → Kind F
  int_window int_threshold : ℤ → ℤ → Kind F
  dict_per_key : Option F → Option F → Option F → Dict (F × F) → Option ℤ → Kind F
  enum : List (Value F) → Kind F
  unknown : String → Kind F

pub record Member (F : Type 0) : Type 0 where
  pub name : String
  pub kind : Kind F
  pub max_retries : Option ℕ

pub record Random (R F : Type 0) : Type 0 where
  -- `gauss(0.0, sigma)`
  pub gauss : F → R → F × R
  pub random : R → F × R
  pub choice : List (Value F) → R → Value F × R
  pub choice_of_name : List String → R → String × R
  pub sample : List (Member F) → ℕ → R → List (Member F) × R

-- Python's `==` on the values of a field, and `math.isinf`.
pub record Builtins (F : Type 0) : Type 0 where
  pub same : Value F → Value F → Bool
  pub is_infinite : F → Bool

-- What one attempt gives: new constants, the same ones, a ValueError or TypeError, the OverflowError of
-- `int(round(x))` on an infinite x, the IndexError of a choice from nothing, an AttributeError, or
-- (`outside`) a value of another type than the field's, where the model ends.
pub data Attempt (F : Type 0) : Type 0 where
  made : TuningConstants F → Attempt F
  unchanged failed index_error : Attempt F
  overflow : F → Attempt F
  no_attribute outside : String → Attempt F

pub data Outcome (F A : Type 0) : Type 0 where
  ok : A → Outcome F A
  index_error : Outcome F A
  overflow : F → Outcome F A
  unknown_kind no_attribute outside : String → Outcome F A

infixl 5 ◌>>=◌
abbrev pub ◌>>=◌ : {F A B : Type 0} → Outcome F A → (A → Outcome F B) → Outcome F B
ok a >>= f = f a
Outcome.index_error >>= f = Outcome.index_error
Outcome.overflow x >>= f = Outcome.overflow x
Outcome.unknown_kind k >>= f = Outcome.unknown_kind k
Outcome.no_attribute n >>= f = Outcome.no_attribute n
Outcome.outside n >>= f = Outcome.outside n

abbrev pub clip_ℤ : ℤ → ℤ → ℤ → ℤ
clip_ℤ x lo hi = let y = if ltb_ℤ x hi then x else hi in if ltb_ℤ lo y then y else lo

-- `scaled[last_key] += drift`
unfoldable pub add_to_last : ℤ → Dict ℤ → Dict ℤ
add_to_last drift [] = []
add_to_last drift ((k, v) ∷ []) = (k, v +ℤ drift) ∷ []
add_to_last drift ((k, v) ∷ next ∷ m) = (k, v) ∷ add_to_last drift (next ∷ m)

abbrev pub values : Dict ℤ → List ℤ
values [] = []
values ((k, v) ∷ m) = v ∷ values m

abbrev pub attempt_of : {F : Type 0} → Built (TuningConstants F) → Attempt F
attempt_of (built t) = made t
attempt_of (refused e) = failed
attempt_of (ill_typed n) = Attempt.outside n

module _ {R F : Type 0} ⦃d : Float F⦄ (rng : Random R F) (round_int : F → ℤ) where
  -- an int as a float
  abbrev pub of_int : ℤ → F
  of_int (pos n) = lit n 0
  of_int (negsuc n) = neg (lit (suc n) 0)

  unfoldable pub clip : F → F → F → F
  clip x lo hi = max lo (min hi x)

  -- the values of the dict in order, each moved by a draw and clipped
  unfoldable pub perturb : F → (F × F) → Dict (F × F) → Dict F → R → Dict F × R
  unfolding clip
  perturb per_key bounds keys_bounds [] r = ([], r)
  perturb per_key bounds keys_bounds ((k, v) ∷ m) r =
      let (drawn, r') = rng.gauss per_key r in
      let (rest, r'') = perturb per_key bounds keys_bounds m r' in
      let (lo, hi) : F × F = elim (lookup k keys_bounds) [ none ↦ bounds | some b ↦ b ] in
      ((k, clip (add v drawn) lo hi) ∷ rest, r'')

  abbrev pub scale_each : F → Dict F → Dict ℤ
  scale_each factor [] = []
  scale_each factor ((k, v) ∷ m) = (k, round_int (mul v factor)) ∷ scale_each factor m

  unfoldable pub scaled_to : ℤ → F → Dict F → Dict ℤ
  unfolding add_to_last sum_ℤ
  scaled_to target s m =
      let scaled = scale_each (div (of_int target) s) m in
      add_to_last (target -ℤ sum_ℤ (values scaled)) scaled

  abbrev pub of_ints : Dict ℤ → Dict F
  of_ints [] = []
  of_ints ((k, v) ∷ m) = (k, of_int v) ∷ of_ints m

  -- the optional renormalisation to a sum
  unfoldable pub renormalise : Option ℤ → Dict F → Dict F
  unfolding scaled_to sum_values
  renormalise none m = m
  renormalise (some target) m =
      let s = sum_values nought m in
      if le s nought && le nought s then m else of_ints (scaled_to target s m)

  -- `replace(t, **{name: value})`
  unfoldable pub with_value : TuningConstants F → String → Value F → Attempt F
  with_value t name value = attempt_of (replace t ((name, value) ∷ []))

  abbrev pub or_default : Option F → F → F
  or_default none x = x
  or_default (some y) x = y

  -- `int(round(x))`: an OverflowError for an infinite x, a ValueError for NaN
  unfoldable pub rounded : Builtins F → F → (ℤ → Attempt F) → Attempt F
  rounded py x then_do =
      if py.is_infinite x
      then Attempt.overflow x
      else if le x x
      then then_do (round_int x)
      else failed

  -- the first error that `int(round(v * scale))` has on the values, or else the attempt
  unfoldable pub all_rounded : Builtins F → F → Dict F → Attempt F → Attempt F
  unfolding rounded
  all_rounded py scale [] attempt = attempt
  all_rounded py scale ((k, v) ∷ m) attempt =
      rounded py (mul v scale) (λ n. all_rounded py scale m attempt)

  -- the attempt, unless the renormalisation to a sum raises
  unfoldable pub unless_raised : Builtins F → Option ℤ → Dict F → Attempt F → Attempt F
  unfolding all_rounded sum_values
  unless_raised py none m attempt = attempt
  unless_raised py (some target) m attempt =
      let s = sum_values nought m in
      if le s nought && le nought s
      then attempt
      else all_rounded py (div (of_int target) s) m attempt

  -- `rng.choice` of the other values
  unfoldable pub pick : String → List (Value F) → TuningConstants F → R → Attempt F × R
  unfolding with_value
  pick name [] t r = (Attempt.index_error, r)
  pick name (x ∷ others) t r =
      let (new, r') = rng.choice (x ∷ others) r in (with_value t name new, r')

  -- the kinds, for a field with the value `cur`
  unfoldable pub apply_kind :
      Builtins F → String → Kind F → TuningConstants F → Value F → F → R → Attempt F × R
  unfolding clip perturb renormalise with_value pick rounded unless_raised
  apply_kind py name (abs_small lo hi) t (float cur) sigma_scale r =
      let (drawn, r') = rng.gauss (mul sigma_scale (lit 5 2)) r in
      (with_value t name (float (clip (add cur drawn) lo hi)), r')
  apply_kind py name (rel_large lo hi) t (float cur) sigma_scale r =
      let (drawn, r') = rng.gauss (mul sigma_scale (lit 5 2)) r in
      (with_value t name (float (clip (mul cur (add (lit 1 0) drawn)) lo hi)), r')
  apply_kind py name (int_window lo hi) t (int cur) sigma_scale r =
      let (drawn, r') = rng.gauss (mul sigma_scale (lit 5 0)) r in
      (rounded py (add (of_int cur) drawn) (λ n. with_value t name (int (clip_ℤ n lo hi))), r')
  apply_kind py name (int_threshold lo hi) t (int cur) sigma_scale r =
      let (drawn, r') = rng.gauss (mul sigma_scale (lit 3 0)) r in
      (rounded py (add (of_int cur) drawn) (λ n. with_value t name (int (clip_ℤ n lo hi))), r')
  apply_kind py name (dict_per_key per_key lo hi keys_bounds target) t (floats m) sigma_scale r =
      let bounds : F × F = (or_default lo (neg (lit 50 0)), or_default hi (lit 200 0)) in
      let (new, r') =
        perturb (mul sigma_scale (or_default per_key (lit 1 1))) bounds keys_bounds m r in
      (unless_raised py target new (with_value t name (floats (renormalise target new))), r')
  apply_kind py name (enum allowed) t cur sigma_scale r =
      let (drawn, r') = rng.random r in
      if any (λ x. py.same x cur) allowed
      then (if lt drawn sigma_scale
          then pick name (filter (λ x. not (py.same x cur)) allowed) t r'
          else (unchanged, r'))
      else (unchanged, r)
  -- a value of another type than the kind is for
  apply_kind py name kind t cur sigma_scale r = (Attempt.outside name, r)

  -- `_apply_one_mutation`
  unfoldable pub apply_one_mutation :
      Builtins F → Member F → TuningConstants F → F → R → Attempt F × R
  unfolding fields apply_kind
  apply_one_mutation py m t sigma_scale r = elim (lookup m.name (fields t)) [
    | none ↦ (Attempt.no_attribute m.name, r)
    | some cur ↦ apply_kind py m.name m.kind t cur sigma_scale r
  ]
