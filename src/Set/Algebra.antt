-- ===== src/Set/Algebra.antt =====
-- Union, intersection and difference in lib/set.c.
use obelix.Prelude.{
  ◌≡◌, refl, sym, ap, ◌∙◌, Bool, true, not, ◌&&◌, ◌||◌, List, [], ◌∷◌, if◌then◌else◌, arith, subst,
}
use obelix.KeyType.{KeyType, same_congr}
use obelix.Set.{Set, add, has, remover, reduce, create, clone, union, intersect, minus, copy_of}
use obelix.Set.Members.{
  elements, each, reduce-each, listed, IsProper, has-listed, has_congr, create-IsProper, add_lem,
  remover_lem,
}
use obelix.Set.Sifting.{
  or_shift, and_shift, and_cut, or_false, not-not, sifted, Adds, each-sifted, listed-sifted,
  listed-same,
}

module _ {ℓ} {K : Type ℓ} ⦃t : KeyType K⦄ where
  each-add :
      (copy : K → K) (ks : List K) (s : Set K)
      → ((k : K) → t.same (copy k) k ≡ true)
      → IsProper s
      → IsProper (each ks (λ k acc. add acc (copy k)) s)
        × ((q : K) → has (each ks (λ k acc. add acc (copy k)) s) q ≡ (listed q ks || has s q))
  each-add copy [] s c v = (v, λ q. refl)
  each-add copy (k ∷ ks) s c v =
      let (av, ae) = add_lem s (copy k) v in
      let (rv, re) = each-add copy ks (add s (copy k)) c av in
      (
        rv,
        λ q.
            re q
            ∙ ap (λ b. listed q ks || b) (ae q)
            ∙ rw (same_congr (copy k) k q (c k)) (or_shift (t.same k q) (listed q ks) (has s q)),
      )

  -- `set_union` adds the elements of the other set.
  pub union_lem :
      (copy : K → K) (s other : Set K)
      → ((k : K) → t.same (copy k) k ≡ true)
      → IsProper s
      → IsProper other
      → IsProper (union copy s other)
        × ((q : K) → has (union copy s other) q ≡ (has other q || has s q))
  unfolding union
  union_lem copy s other c v w =
      let e = reduce-each other (λ k acc. add acc (copy k)) s in
      let (rv, re) = each-add copy (elements other) s c v in
      (
        subst IsProper (sym e) rv,
        λ q. ap (λ r. has r q) e ∙ re q ∙ ap (λ b. b || has s q) (sym (has-listed other q w)),
      )

  each-remover :
      (ks : List K) (s : Set K)
      → IsProper s
      → IsProper (each ks remover s)
        × ((q : K) → has (each ks remover s) q ≡ (has s q && not (listed q ks)))
  each-remover [] s v = (v, λ q. ground arith)
  each-remover (k ∷ ks) s v =
      let (av, ae, _) = remover_lem s k v in
      let (rv, re) = each-remover ks (remover k s) av in
      (
        rv,
        λ q.
            re q
            ∙ ap (λ b. b && not (listed q ks)) (ae q)
            ∙ and_shift (t.same k q) (has s q) (listed q ks),
      )

  -- A copy made under the comparison `t` has an element just when the original, which may compare
  -- its elements otherwise, lists one that `t` takes for the same.
  pub copy_of_lem :
      (s : Set K) → IsProper (copy_of t s) × ((q : K) → has (copy_of t s) q ≡ listed q (elements s))
  unfolding copy_of union clone
  copy_of_lem s =
      let e = reduce-each s (λ k acc. add acc k) create in
      let none_yet = create-IsProper in
      let (rv, re) = each-add (λ k. k) (elements s) create t.same_refl none_yet.0 in
      (
        subst IsProper (sym e) rv,
        λ q.
            ap (λ r. has r q) e
            ∙ re q
            ∙ ap (λ b. listed q (elements s) || b) (none_yet.1 q)
            ∙ or_false (listed q (elements s)),
      )

module _ {ℓ} {K : Type ℓ} ⦃t : KeyType K⦄ (u : KeyType K)
    (finer : (a b : K) → u.same a b ≡ true → t.same a b ≡ true) where
  -- The elements that a test picks out go: the two loops of `set_intersect` and `set_minus`.
  purged : (K → Bool) → (K → K) → Set K → Set K
  purged p copy s =
      reduce (reduce s (λ k r. if p k then add ⦃t = u⦄ r (copy k) else r) create) remover s

  gone_lem :
      (p : K → Bool) (copy : K → K) (s : Set K) (k : K)
      → listed ⦃t = u⦄ k
          (elements (reduce s (λ k r. if p k then add ⦃t = u⦄ r (copy k) else r) create))
        ≡ listed ⦃t = u⦄ k (sifted p copy (elements s))
  gone_lem p copy s k =
      let step : K → Set K → Set K = λ k r. if p k then add ⦃t = u⦄ r (copy k) else r in
      let none_yet = create-IsProper ⦃t = u⦄ in
      let a =
        subst (λ r. Adds ⦃t = u⦄ create (sifted p copy (elements s)) r)
          (sym (reduce-each s step create))
          (each-sifted ⦃t = u⦄ p copy (elements s) create none_yet.0) in
      sym (has-listed ⦃t = u⦄ (reduce s step create) k a.valid)
      ∙ a.reads k
      ∙ ap (λ b. listed ⦃t = u⦄ k (sifted p copy (elements s)) || b) (none_yet.1 k)
      ∙ or_false (listed ⦃t = u⦄ k (sifted p copy (elements s)))

  purged_lem :
      (p : K → Bool) (copy : K → K) (s : Set K)
      → ((k : K) → t.same (copy k) k ≡ true)
      → ((a b : K) → t.same a b ≡ true → p a ≡ p b)
      → IsProper s
      → IsProper (purged p copy s) × ((q : K) → has (purged p copy s) q ≡ (has s q && not (p q)))
  unfolding purged
  purged_lem p copy s c m v =
      let gone = reduce s (λ k r. if p k then add ⦃t = u⦄ r (copy k) else r) create in
      let e = reduce-each gone remover s in
      let (rv, re) = each-remover (elements gone) s v in
      let goes : (q : K) → listed q (elements gone) ≡ (has s q && p q) = λ q.
        listed-same u finer (elements gone) (sifted p copy (elements s)) q (gone_lem p copy s)
        ∙ listed-sifted p copy (elements s) q c m
        ∙ ap (λ b. b && p q) (sym (has-listed s q v)) in
      (
        subst IsProper (sym e) rv,
        λ q.
            ap (λ r. has r q) e
            ∙ re q
            ∙ ap (λ b. has s q && not b) (goes q)
            ∙ and_cut (has s q) (p q),
      )

  -- `set_intersect` keeps the elements that the other set has too. The set that it collects what
  -- goes in may compare its elements more finely.
  pub intersect_lem :
      (s other : Set K)
      → IsProper s
      → IsProper other
      → IsProper (intersect u s other)
        × ((q : K) → has (intersect u s other) q ≡ (has s q && has other q))
  unfolding intersect purged
  intersect_lem s other v w =
      let (rv, re) =
        purged_lem (λ k. not (has other k)) (λ k. k) s t.same_refl
          (λ a b e. ap not (has_congr other a b w e)) v in
      (rv, λ q. re q ∙ ap (λ b. has s q && b) (not-not (has other q)))

  -- `set_minus` keeps the elements that the other set does not have.
  pub minus_lem :
      (copy : K → K) (s other : Set K)
      → ((k : K) → t.same (copy k) k ≡ true)
      → IsProper s
      → IsProper other
      → IsProper (minus u copy s other)
        × ((q : K) → has (minus u copy s other) q ≡ (has s q && not (has other q)))
  unfolding minus purged
  minus_lem copy s other c v w =
      purged_lem (λ k. has other k) copy s c (λ a b e. has_congr other a b w e) v
