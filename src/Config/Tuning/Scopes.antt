-- ===== src/Config/Tuning/Scopes.antt =====
-- The constants in force: the globals `_applied_tuning` and `_tuning_context` of app/config/tuning.py.
use pyharmonics_gpt.Prelude.{
  ◌≡◌, refl, sym, ap, subst, Bool, true, false, Option, none, some, List, [], ◌∷◌,
}
use pyharmonics_gpt.Float.{Float}
use pyharmonics_gpt.Config.Tuning.{TuningConstants, tuning}

-- The innermost scope stands first in the context.
pub record TuningState (F : Type 0) : Type 0 where
  pub applied : Option (TuningConstants F)
  pub context : List (TuningConstants F)

-- What the body of a `with` statement does to the globals, to its end or to an exception.
pub data Body (F : Type 0) : Type 0 where
  done raises : Body F
  apply : TuningConstants F → Body F → Body F
  reset : Body F → Body F
  -- `with TuningScope(t): inside`, and then the rest
  scope : TuningConstants F → Body F → Body F → Body F

module _ {F : Type 0} where
  unfoldable pub apply_tuning : TuningConstants F → TuningState F → TuningState F
  apply_tuning t s = record s { applied = some t }

  unfoldable pub reset_tuning : TuningState F → TuningState F
  reset_tuning s = record s { applied = none }

  unfoldable pub enter : TuningConstants F → TuningState F → TuningState F
  enter t s = record s { context = t ∷ s.context }

  abbrev popped : TuningState F → List (TuningConstants F) → Option (TuningState F)
  popped s [] = none
  popped s (t ∷ context) = some (record s { context = context })

  -- `_tuning_context.pop()`; `none` is its IndexError
  unfoldable pub exit : TuningState F → Option (TuningState F)
  exit s = popped s s.context

  -- what follows the end of a scope, which an exception skips
  abbrev pub resume :
      Option (TuningState F)
      → Bool
      → (TuningState F → Option (TuningState F × Bool))
      → Option (TuningState F × Bool)
  resume none failed rest = none
  resume (some s) true rest = some (s, true)
  resume (some s) false rest = rest s

  -- The end of a `with` statement, whose inside gave the first value.
  unfoldable pub leave :
      Option (TuningState F × Bool)
      → (TuningState F → Option (TuningState F × Bool))
      → Option (TuningState F × Bool)
  unfolding exit
  leave none rest = none
  leave (some (s, failed)) rest = resume (exit s) failed rest

  -- The state after a body, and whether it ended by an exception.
  unfoldable pub run : Body F → TuningState F → Option (TuningState F × Bool)
  unfolding apply_tuning reset_tuning enter leave
  run done s = some (s, false)
  run raises s = some (s, true)
  run (apply t rest) s = run rest (apply_tuning t s)
  run (reset rest) s = run rest (reset_tuning s)
  run (scope t inside rest) s = leave (run inside (enter t s)) (λ s'. run rest s')

  -- a result, with this context
  abbrev Keeps : List (TuningConstants F) → Option (TuningState F × Bool) → Type 0
  Keeps context none = ⊥
  Keeps context (some (s, failed)) = s.context ≡ context

  leave-Keeps :
      (t : TuningConstants F) (context : List (TuningConstants F))
      (r : Option (TuningState F × Bool)) (rest : TuningState F → Option (TuningState F × Bool))
      → Keeps (t ∷ context) r
      → ((s : TuningState F) → Keeps s.context (rest s))
      → Keeps context (leave r rest)
  unfolding leave exit
  leave-Keeps t context none rest h keeps = elim h [ ]
  leave-Keeps t context (some (s, failed)) rest h keeps =
      subst (λ c. Keeps context (resume (popped s c) failed rest)) (sym h) (resumed failed)
    where
      resumed :
          (failed : Bool)
          → Keeps context (resume (some (record s { context = context })) failed rest)
      resumed true = refl
      resumed false = keeps (record s { context = context })

  run-Keeps : (b : Body F) (s : TuningState F) → Keeps s.context (run b s)
  unfolding run apply_tuning reset_tuning enter
  run-Keeps done s = refl
  run-Keeps raises s = refl
  run-Keeps (apply t rest) s = run-Keeps rest (apply_tuning t s)
  run-Keeps (reset rest) s = run-Keeps rest (reset_tuning s)
  run-Keeps (scope t inside rest) s =
      leave-Keeps t s.context (run inside (enter t s)) (λ s'. run rest s')
        (run-Keeps inside (enter t s)) (run-Keeps rest)

module _ {F : Type 0} ⦃d : Float F⦄ where
  unfoldable pub get_tuning : TuningState F → TuningConstants F
  get_tuning s = elim s.context [
    | t ∷ context ↦ t
    | [] ↦ elim s.applied [ some t ↦ t | none ↦ tuning ]
  ]

  -- a result, with `t` in force, and leaving the scope of `t` gives back this context
  abbrev pub InForce :
      TuningConstants F → List (TuningConstants F) → Option (TuningState F × Bool) → Type 0
  InForce t context none = ⊥
  InForce t context (some (s, failed)) =
      (get_tuning s ≡ t) × (exit s ≡ some (record s { context = context }))

  in_force :
      (t : TuningConstants F) (context : List (TuningConstants F))
      (r : Option (TuningState F × Bool))
      → Keeps (t ∷ context) r
      → InForce t context r
  unfolding get_tuning exit
  in_force t context none h = elim h [ ]
  in_force t context (some (s, failed)) h = (
    ap {B = TuningConstants F}
        (λ (c : List (TuningConstants F)). elim c [
          | t ∷ context ↦ t
          | [] ↦ elim s.applied [ some t ↦ t | none ↦ tuning ]
        ])
        h,
    ap {B = Option (TuningState F)} (popped s) h,
  )

  -- Whatever is applied and reset inside a scope, whatever scopes are entered there, and also after an
  -- exception, the constants of the scope are in force, and its end gives back the context from before.
  pub run-InForce :
      (t : TuningConstants F) (inside : Body F) (s : TuningState F)
      → InForce t s.context (run inside (enter t s))
  unfolding enter
  run-InForce t inside s =
      in_force t s.context (run inside (enter t s)) (run-Keeps inside (enter t s))
