-- ===== src/Loop/Pareto/Front.antt =====
-- Offering points one by one keeps exactly the maximal ones, in the order of their arrival.
use pyharmonics_gpt.Prelude.{
  ◌≡◌, refl, sym, ap, ◌∙◌, Bool, true, false, not, ◌&&◌, ◌||◌, List, [], ◌∷◌, ◌++◌, String, str_eq,
  arith, any, filter, any-append, filter-append, filter-filter, filter-ext, any_mono, any-filter,
  any-ext, Bool-cases, inl, inr, append_assoc, append-nil,
}
use pyharmonics_gpt.Float.{Float, IsOrdered}
use pyharmonics_gpt.Loop.Pareto.{ParetoPoint, dominates, add, add_all}
use pyharmonics_gpt.Loop.Pareto.Dominance.{dominates_irrefl, dominates_trans, dominates_asymm}

module _ {F : Type 0} ⦃d : Float F⦄ where
  -- some point of the list dominates `q`
  abbrev pub beaten : List (ParetoPoint F) → ParetoPoint F → Bool
  beaten ps q = any (λ r. dominates r q) ps

  -- The specification: the points of the list that no point of the list dominates.
  abbrev pub maximal_points : List (ParetoPoint F) → List (ParetoPoint F)
  maximal_points ps = filter (λ q. not (beaten ps q)) ps

  abbrev pub has_sha : String → List (ParetoPoint F) → Bool
  has_sha s ps = any (λ q. str_eq q.params_sha s) ps

  -- no experiment of `ps` is one of `seen`, or stands twice in `ps`
  abbrev pub AreFresh : List (ParetoPoint F) → List (ParetoPoint F) → Type 0
  AreFresh seen [] = Unit
  AreFresh seen (p ∷ ps) = (has_sha p.params_sha seen ≡ false) × AreFresh (seen ++ p ∷ []) ps

  pub record Refines (seen front : List (ParetoPoint F)) : Type 0 where
    pub shape : front ≡ maximal_points seen
    pub cover : (z : ParetoPoint F) → beaten seen z ≡ beaten front z

module _ {F : Type 0} ⦃d : Float F⦄ (o : IsOrdered F) where
  -- who is beaten by a beaten point is beaten
  beaten_trans :
      (ps : List (ParetoPoint F)) (p z : ParetoPoint F)
      → beaten ps p ≡ true
      → dominates p z ≡ true
      → beaten ps z ≡ true
  beaten_trans ps p z h k =
      any_mono (λ q. dominates q p) (λ q. dominates q z) ps (λ q e. dominates_trans o q p z e k) h

  -- only a point that `p` does not dominate can beat `p`
  survivors-beaten :
      (fr : List (ParetoPoint F)) (p : ParetoPoint F)
      → beaten (filter (λ q. not (dominates p q)) fr) p ≡ beaten fr p
  survivors-beaten fr p =
      any-filter (λ q. dominates q p) (λ q. not (dominates p q)) fr
      ∙ any-ext (λ q. not (dominates p q) && dominates q p) (λ q. dominates q p) fr
          (λ q. ground (arith, dominates_asymm o p q))

  survivors-cover :
      (fr : List (ParetoPoint F)) (p z : ParetoPoint F)
      → dominates p z ≡ false
      → beaten (filter (λ q. not (dominates p q)) fr) z ≡ beaten fr z
  survivors-cover fr p z h =
      any-filter (λ q. dominates q z) (λ q. not (dominates p q)) fr
      ∙ any-ext (λ q. not (dominates p q) && dominates q z) (λ q. dominates q z) fr
          (λ q. ground (arith, dominates_trans o p q z))

  beaten-snoc :
      (ps : List (ParetoPoint F)) (p z : ParetoPoint F)
      → beaten (ps ++ p ∷ []) z ≡ (beaten ps z || dominates p z)
  beaten-snoc ps p z = ground (arith, any-append (λ r. dominates r z) ps (p ∷ []))

  maximal-snoc_beaten :
      (ps : List (ParetoPoint F)) (p : ParetoPoint F)
      → beaten ps p ≡ true
      → maximal_points (ps ++ p ∷ []) ≡ maximal_points ps
  maximal-snoc_beaten ps p h =
      filter-append (λ q. not (beaten (ps ++ p ∷ []) q)) ps (p ∷ [])
      ∙ (rw (beaten-snoc ps p p, h)
          (append-nil _
            ∙ filter-ext (λ q. not (beaten (ps ++ p ∷ []) q)) (λ q. not (beaten ps q)) ps
                (λ q. ground (arith, beaten-snoc ps p q, beaten_trans ps p q h))))

  maximal-snoc_new :
      (ps : List (ParetoPoint F)) (p : ParetoPoint F)
      → beaten ps p ≡ false
      → maximal_points (ps ++ p ∷ [])
        ≡ filter (λ q. not (dominates p q)) (maximal_points ps) ++ p ∷ []
  maximal-snoc_new ps p h =
      filter-append (λ q. not (beaten (ps ++ p ∷ []) q)) ps (p ∷ [])
      ∙ (rw (beaten-snoc ps p p, h, dominates_irrefl o p)
          (ap (λ l. l ++ p ∷ [])
            (filter-ext (λ q. not (beaten (ps ++ p ∷ []) q))
                (λ q. not (beaten ps q) && not (dominates p q)) ps
                (λ q. ground (arith, beaten-snoc ps p q))
              ∙ sym (filter-filter (λ q. not (dominates p q)) (λ q. not (beaten ps q)) ps))))

  unseen_front :
      (s : String) (seen front : List (ParetoPoint F))
      → Refines seen front
      → has_sha s seen ≡ false
      → has_sha s front ≡ false
  unseen_front s seen front r h = rw r.shape (
      any-filter (λ q. str_eq q.params_sha s) (λ q. not (beaten seen q)) seen
      ∙ ground (
        arith,
        any_mono (λ q. not (beaten seen q) && str_eq q.params_sha s) (λ q. str_eq q.params_sha s)
            seen (λ q. ground arith),
      ))

  beaten_rejected :
      (seen front : List (ParetoPoint F)) (p : ParetoPoint F)
      → Refines seen front
      → beaten front p ≡ true
      → Refines (seen ++ p ∷ []) front
  beaten_rejected seen front p r h =
      let old = r.cover p ∙ h in
      record {
        shape = r.shape ∙ sym (maximal-snoc_beaten seen p old);
        cover = λ z. ground (arith, beaten-snoc seen p z, r.cover z, beaten_trans seen p z old);
      }

  maximal_admitted :
      (seen front : List (ParetoPoint F)) (p : ParetoPoint F)
      → Refines seen front
      → beaten front p ≡ false
      → Refines (seen ++ p ∷ []) (filter (λ q. not (dominates p q)) front ++ p ∷ [])
  maximal_admitted seen front p r h = record {
    shape =
        ap (λ l. filter (λ q. not (dominates p q)) l ++ p ∷ []) r.shape
        ∙ sym (maximal-snoc_new seen p (r.cover p ∙ h));
    cover = λ z. ground (
      arith,
      beaten-snoc seen p z,
      beaten-snoc (filter (λ q. not (dominates p q)) front) p z,
      r.cover z,
      survivors-cover front p z,
    );
  }

  add-Refines :
      (seen front : List (ParetoPoint F)) (p : ParetoPoint F)
      → Refines seen front
      → has_sha p.params_sha seen ≡ false
      → Refines (seen ++ p ∷ []) (add front p).0
  unfolding add
  add-Refines seen front p r new = elim (Bool-cases (beaten front p)) [
    | inl h ↦
        rw (unseen_front p.params_sha seen front r new, survivors-beaten front p, h)
          (beaten_rejected seen front p r h)
    | inr h ↦
        rw (unseen_front p.params_sha seen front r new, survivors-beaten front p, h)
          (maximal_admitted seen front p r h)
  ]

  add_all-Refines :
      (seen front ps : List (ParetoPoint F))
      → Refines seen front
      → AreFresh seen ps
      → Refines (seen ++ ps) (add_all front ps)
  unfolding add_all
  add_all-Refines seen front [] r h = rw append-nil r
  add_all-Refines seen front (p ∷ ps) r h =
      rw (← append_assoc seen (p ∷ []) ps)
        (add_all-Refines (seen ++ p ∷ []) (add front p).0 ps (add-Refines seen front p r h.0) h.1)

  -- Offering any sequence of points with pairwise different `params_sha` to an empty front leaves
  -- exactly the points that no offered point dominates, in the order of their arrival.
  pub add_all-eq-maximal :
      (ps : List (ParetoPoint F)) → AreFresh [] ps → add_all [] ps ≡ maximal_points ps
  add_all-eq-maximal ps h =
      (add_all-Refines [] [] ps (record { shape = refl; cover = λ z. refl }) h).shape

  -- Whatever the front, one call of `add` reports a move exactly when the experiment is new and no
  -- member of the front dominates the point; a call that reports none leaves the front as it was.
  pub add_verdict :
      (front : List (ParetoPoint F)) (p : ParetoPoint F)
      → ((add front p).1 ≡ (not (has_sha p.params_sha front) && not (beaten front p)))
        × ((add front p).1 ≡ false → (add front p).0 ≡ front)
  unfolding add
  add_verdict front p = rw (survivors-beaten front p) (ground arith, ground arith)
