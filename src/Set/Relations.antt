-- ===== src/Set/Relations.antt =====
-- The comparisons of two sets in lib/set.c.
use obelix.Prelude.{
  ◌≡◌, ◌⊎◌, inl, inr, refl, sym, ap, ◌∙◌, Bool, true, false, not, ◌&&◌, ◌||◌, List, [], ◌∷◌, arith,
  Bool-cases,
}
use obelix.KeyType.{KeyType}
use obelix.Set.{Set, has, disjoint, subsetof}
use obelix.Set.Members.{elements, each, reduce-each, listed, IsProper, has-listed, has_congr}
use obelix.Set.Sifting.{not-not}

each-false {ℓ} : {K : Type ℓ} (ks : List K) (p : K → Bool) → each ks (λ k f. f && p k) false ≡ false
each-false [] p = refl
each-false (k ∷ ks) p = each-false ks p

clash : (a l b : Bool) → (a ≡ true → b ≡ true) → (l && not b) ≡ false → ((a || l) && not b) ≡ false
clash true l b h c = rw (h refl) refl
clash false l b h c = c

module _ {ℓ} {K : Type ℓ} ⦃t : KeyType K⦄ where
  decided :
      (p : K → Bool) (ks : List K)
      → ((a b : K) → t.same a b ≡ true → p a ≡ p b)
      → ((each ks (λ k f. f && p k) true ≡ true) × ((q : K) → (listed q ks && not (p q)) ≡ false))
        ⊎ ((each ks (λ k f. f && p k) true ≡ false)
            × ((q : K) × (listed q ks ≡ true) × (p q ≡ false)))
  decided p [] m = inl (refl, λ q. refl)
  decided p (k ∷ ks) m = elim (Bool-cases (p k)) [
    | inl holds ↦ elim (decided p ks m) [
      | inl (all, none_fails) ↦ inl (
        rw holds all,
        λ q. clash (t.same k q) (listed q ks) (p q) (λ e. sym (m k q e) ∙ holds) (none_fails q),
      )
      | inr (failed, (q, there, fails)) ↦ inr (rw holds failed, (q, ground (arith, there), fails))
    ]
    | inr fails ↦ inr (rw fails (each-false ks p), (k, rw (t.same_refl k) refl, fails))
  ]

  -- `set_disjoint` answers whether no element is in both sets; if it answers no, there is one.
  pub disjoint_lem :
      (s₁ s₂ : Set K)
      → IsProper s₁
      → IsProper s₂
      → ((disjoint s₁ s₂ ≡ true) × ((q : K) → (has s₁ q && has s₂ q) ≡ false))
        ⊎ ((disjoint s₁ s₂ ≡ false) × ((q : K) × (has s₁ q ≡ true) × (has s₂ q ≡ true)))
  unfolding disjoint
  disjoint_lem s₁ s₂ v w =
      let e = reduce-each s₁ (λ k f. f && not (has s₂ k)) true in
      elim (decided (λ k. not (has s₂ k)) (elements s₁)
        (λ a b same. ap not (has_congr s₂ a b w same))) [
          | inl (all, none_fails) ↦ inl (
            e ∙ all,
            λ q.
                ap (λ b. b && has s₂ q) (has-listed s₁ q v)
                ∙ ap (λ b. listed q (elements s₁) && b) (sym (not-not (has s₂ q)))
                ∙ none_fails q,
          )
          | inr (failed, (q, there, fails)) ↦
              inr (
                e ∙ failed,
                (q, has-listed s₁ q v ∙ there, sym (not-not (has s₂ q)) ∙ ap not fails),
              )
        ]

  -- `set_subsetof` answers whether every element of the one set is in the other; if it answers no,
  -- there is one that is not.
  pub subsetof_lem :
      (s₁ s₂ : Set K)
      → IsProper s₁
      → IsProper s₂
      → ((subsetof s₁ s₂ ≡ true) × ((q : K) → (has s₁ q && not (has s₂ q)) ≡ false))
        ⊎ ((subsetof s₁ s₂ ≡ false) × ((q : K) × (has s₁ q ≡ true) × (has s₂ q ≡ false)))
  unfolding subsetof
  subsetof_lem s₁ s₂ v w =
      let e = reduce-each s₁ (λ k f. f && has s₂ k) true in
      elim (decided (λ k. has s₂ k) (elements s₁) (λ a b same. has_congr s₂ a b w same)) [
        | inl (all, none_fails) ↦
            inl (e ∙ all, λ q. ap (λ b. b && not (has s₂ q)) (has-listed s₁ q v) ∙ none_fails q)
        | inr (failed, (q, there, fails)) ↦ inr (e ∙ failed, (q, has-listed s₁ q v ∙ there, fails))
      ]
