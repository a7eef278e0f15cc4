-- ===== src/Config/Tuning/RoundTrip.antt =====
-- Writing the constants to a plain dict and reading them back.
use pyharmonics_gpt.Prelude.{
  ◌≡◌, refl, ◌∙◌, ap, Bool, true, false, not, ◌||◌, none, arith, List, [], ◌∷◌, String, str_eq, all,
  if◌then◌else◌,
}
use pyharmonics_gpt.Float.{Float}
use pyharmonics_gpt.Dict.{lookup}
use pyharmonics_gpt.Config.Tuning.{
  TuningConstants, is_member, lacks_member, required_extended_families, hard_checks, soft_checks,
  window_checks, int_fields, post_init, tuning,
}
use pyharmonics_gpt.Config.Tuning.Fields.{
  built, ◌>>=◌, verdict, checked, str_lt, insert_text, sorted, read, fields, plain, to_dict, coerce,
  overrides, overlay, replace, from_dict,
}

is_member-insert_text :
    (z x : String) (xs : List String)
    → is_member z (insert_text x xs) ≡ (str_eq x z || is_member z xs)
unfolding is_member insert_text
is_member-insert_text z x [] = refl
is_member-insert_text z x (y ∷ ys) = move (str_lt y x) (is_member-insert_text z x ys)
  where
    move :
        (b : Bool)
        → is_member z (insert_text x ys) ≡ (str_eq x z || is_member z ys)
        → is_member z (if b then y ∷ insert_text x ys else x ∷ y ∷ ys)
          ≡ (str_eq x z || is_member z (y ∷ ys))
    move true h = ground (arith, h)
    move false h = refl

is_member-sorted : (z : String) (xs : List String) → is_member z (sorted xs) ≡ is_member z xs
unfolding is_member sorted
is_member-sorted z [] = refl
is_member-sorted z (x ∷ xs) =
    is_member-insert_text z x (sorted xs) ∙ ap (λ b. str_eq x z || b) (is_member-sorted z xs)

all-sorted :
    (required xs : List String)
    → all (λ x. is_member x (sorted xs)) required ≡ all (λ x. is_member x xs) required
all-sorted [] xs = refl
all-sorted (x ∷ required) xs = ground (arith, is_member-sorted x xs, all-sorted required xs)

lacks_member-sorted :
    (required xs : List String) → lacks_member required (sorted xs) ≡ lacks_member required xs
unfolding lacks_member
lacks_member-sorted required xs = ap not (all-sorted required xs)

module _ {F : Type 0} ⦃d : Float F⦄ where
  abbrev pub with_sorted : TuningConstants F → TuningConstants F
  with_sorted t = record t { extended_patterns = sorted t.extended_patterns }

  post_init-with_sorted : (t : TuningConstants F) → post_init (with_sorted t) ≡ post_init t
  unfolding post_init hard_checks soft_checks window_checks int_fields
  post_init-with_sorted t = rw (lacks_member-sorted required_extended_families t.extended_patterns)

  overlay-to_dict :
      (t : TuningConstants F)
      → overlay tuning (overrides (fields tuning) (to_dict t)) ≡ built (with_sorted t)
  unfolding to_dict fields plain overrides coerce overlay read lookup
  overlay-to_dict t = refl

  -- Constants that `__post_init__` accepts come back from `from_dict` of their `to_dict` unchanged, but
  -- for the order in which the extended patterns, a set, are listed.
  pub from_dict-to_dict :
      (t : TuningConstants F) → post_init t ≡ none → from_dict (to_dict t) ≡ built (with_sorted t)
  unfolding from_dict replace checked
  from_dict-to_dict t h =
      ap (λ r. r >>= checked) (overlay-to_dict t)
      ∙ ap (verdict (with_sorted t)) (post_init-with_sorted t ∙ h)
