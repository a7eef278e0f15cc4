-- ===== src/Services/SignalEngine/Verdict.antt =====
-- How a stage of app/services/signal_engine.py ends, with the laws of a stage that keeps its value.
use pyharmonics_gpt.Prelude.{◌≡◌, refl, Bool, true, false, Option, none, some}

-- An exception (a contract violation), the None of a rejection, or a value.
pub data Verdict (A : Type 0) : Type 0 where
  raised rejected : Verdict A
  kept : A → Verdict A

infixl 5 ◌>>=◌ ◌>>◌
unfoldable pub ◌>>=◌ : {A B : Type 0} → Verdict A → (A → Verdict B) → Verdict B
raised >>= f = raised
rejected >>= f = rejected
kept a >>= f = f a

unfoldable pub ◌>>◌ : {B : Type 0} → Verdict (Unit {0}) → Verdict B → Verdict B
unfolding ◌>>=◌
m >> k = m >>= λ _. k

-- `if test: return None`
unfoldable pub reject_if : Bool → Verdict (Unit {0})
reject_if true = rejected
reject_if false = kept tt

-- a condition of @require
unfoldable pub require : Bool → Verdict (Unit {0})
require true = kept tt
require false = raised

unfoldable pub called : {A : Type 0} → Option A → Verdict A
called none = raised
called (some a) = kept a

-- `if g is None: return None`
unfoldable pub not_none : {A : Type 0} → Option A → Verdict A
not_none none = rejected
not_none (some a) = kept a

pub kept-injective : {A : Type 0} (a b : A) → kept a ≡ kept b → a ≡ b
kept-injective a b e = cc

pub bind_kept :
    {A B : Type 0} (m : Verdict A) (f : A → Verdict B) (b : B)
    → (m >>= f) ≡ kept b
    → (a : A) × (m ≡ kept a) × (f a ≡ kept b)
unfolding ◌>>=◌
bind_kept raised f b e = cc
bind_kept rejected f b e = cc
bind_kept (kept a) f b e = (a, refl, e)

pub rejected_kept :
    {B : Type 0} (t : Bool) (k : Verdict B) (b : B)
    → (reject_if t >> k) ≡ kept b
    → (t ≡ false) × (k ≡ kept b)
unfolding ◌>>=◌ ◌>>◌ reject_if
rejected_kept true k b e = cc
rejected_kept false k b e = (refl, e)

pub required_kept :
    {B : Type 0} (t : Bool) (k : Verdict B) (b : B)
    → (require t >> k) ≡ kept b
    → (t ≡ true) × (k ≡ kept b)
unfolding ◌>>=◌ ◌>>◌ require
required_kept true k b e = (refl, e)
required_kept false k b e = cc

pub called_kept :
    {A B : Type 0} (m : Option A) (f : A → Verdict B) (b : B)
    → (called m >>= f) ≡ kept b
    → (a : A) × (m ≡ some a) × (f a ≡ kept b)
unfolding ◌>>=◌ called
called_kept none f b e = cc
called_kept (some a) f b e = (a, refl, e)

pub not_none_kept :
    {A B : Type 0} (m : Option A) (f : A → Verdict B) (b : B)
    → (not_none m >>= f) ≡ kept b
    → (a : A) × (m ≡ some a) × (f a ≡ kept b)
unfolding ◌>>=◌ not_none
not_none_kept none f b e = cc
not_none_kept (some a) f b e = (a, refl, e)
