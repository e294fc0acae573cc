-- ===== src/Set/Sifting.antt =====
-- The elements of a set that a test picks out: what the callbacks of lib/set.c collect.
use obelix.Prelude.{
  ◌≡◌, inl, inr, refl, sym, ap, ◌∙◌, Bool, true, false, not, ◌&&◌, ◌||◌, List, [], ◌∷◌,
  if◌then◌else◌, arith, Bool-cases, ◌⊎◌,
}
use obelix.KeyType.{KeyType, same_congr}
use obelix.Set.{Set, add, has}
use obelix.Set.Members.{each, listed, IsProper, listed_congr, add_lem}

pub or_shift : (a b c : Bool) → (b || (a || c)) ≡ ((a || b) || c)
or_shift a b c = ground arith

pub and_shift : (a b c : Bool) → ((b && not a) && not c) ≡ (b && not (a || c))
and_shift a b c = ground arith

pub and_cut : (a b : Bool) → (a && not (a && b)) ≡ (a && not b)
and_cut a b = ground arith

pub picked_lem : (a l b : Bool) → (a ≡ true → b ≡ true) → (a || (l && b)) ≡ ((a || l) && b)
picked_lem true l b h = sym (h refl)
picked_lem false l b h = refl

pub passed_lem : (a l b : Bool) → (a ≡ true → b ≡ false) → (l && b) ≡ ((a || l) && b)
passed_lem true true b h = refl
passed_lem true false b h = sym (h refl)
passed_lem false l b h = refl

pub or_false : (b : Bool) → (b || false) ≡ b
or_false true = refl
or_false false = refl

pub not-not : (b : Bool) → not (not b) ≡ b
not-not b = ground arith

pub bool_eq : (a b : Bool) → (a ≡ true → b ≡ true) → (b ≡ true → a ≡ true) → a ≡ b
bool_eq true b f g = sym (f refl)
bool_eq false true f g = g refl
bool_eq false false f g = refl

pub or_true : (a b : Bool) → (a || b) ≡ true → (a ≡ true) ⊎ (b ≡ true)
or_true true b h = inl refl
or_true false b h = inr h

module _ {ℓ} {K : Type ℓ} ⦃t : KeyType K⦄ where
  -- The copies of the elements that a test picks out.
  abbrev pub sifted : (K → Bool) → (K → K) → List K → List K
  sifted p copy [] = []
  sifted p copy (k ∷ ks) = if p k then copy k ∷ sifted p copy ks else sifted p copy ks

  -- `r` is `s` with the listed elements added.
  pub record Adds (s : Set K) (ks : List K) (r : Set K) : Type ℓ where
    pub valid : IsProper r
    pub reads : (q : K) → has r q ≡ (listed q ks || has s q)

  pub each-sifted :
      (p : K → Bool) (copy : K → K) (ks : List K) (s : Set K)
      → IsProper s
      → Adds s (sifted p copy ks) (each ks (λ k r. if p k then add r (copy k) else r) s)
  each-sifted p copy [] s v = record { valid = v; reads = λ q. refl }
  each-sifted p copy (k ∷ ks) s v = elim (Bool-cases (p k)) [
    | inl picked ↦
        let (av, ae) = add_lem s (copy k) v in
        let rest = each-sifted p copy ks (add s (copy k)) av in
        rw picked (record {
          valid = rest.valid;
          reads = λ q.
              rest.reads q
              ∙ ap (λ b. listed q (sifted p copy ks) || b) (ae q)
              ∙ or_shift (t.same (copy k) q) (listed q (sifted p copy ks)) (has s q);
        })
    | inr passed ↦ rw passed (each-sifted p copy ks s v)
  ]

  pub listed-sifted :
      (p : K → Bool) (copy : K → K) (ks : List K) (q : K)
      → ((k : K) → t.same (copy k) k ≡ true)
      → ((a b : K) → t.same a b ≡ true → p a ≡ p b)
      → listed q (sifted p copy ks) ≡ (listed q ks && p q)
  listed-sifted p copy [] q c m = refl
  listed-sifted p copy (k ∷ ks) q c m =
      let rest = listed-sifted p copy ks q c m in
      elim (Bool-cases (p k)) [
        | inl picked ↦
            rw (picked, same_congr (copy k) k q (c k), rest)
              (picked_lem (t.same k q) (listed q ks) (p q) (λ e. sym (m k q e) ∙ picked))
        | inr passed ↦
            rw (passed, rest)
              (passed_lem (t.same k q) (listed q ks) (p q) (λ e. sym (m k q e) ∙ passed))
      ]

module _ {ℓ} {K : Type ℓ} ⦃t : KeyType K⦄ (u : KeyType K)
    (finer : (a b : K) → u.same a b ≡ true → t.same a b ≡ true) where
  finer-listed : (ks : List K) (k : K) → listed ⦃t = u⦄ k ks ≡ true → listed k ks ≡ true
  finer-listed [] k h = h
  finer-listed (x ∷ ks) k h = elim (or_true (u.same x k) (listed ⦃t = u⦄ k ks) h) [
    | inl same ↦ rw (finer x k same) refl
    | inr later ↦ let rest = finer-listed ks k later in ground (arith, rest)
  ]

  -- A list with all the elements of another under the finer comparison has them under this one.
  listed-covers :
      (fs gs : List K) (q : K)
      → ((k : K) → listed ⦃t = u⦄ k fs ≡ true → listed ⦃t = u⦄ k gs ≡ true)
      → listed q fs ≡ true
      → listed q gs ≡ true
  listed-covers [] gs q c h = cc
  listed-covers (k ∷ fs) gs q c h = elim (or_true (t.same k q) (listed q fs) h) [
    | inl same ↦
        let here : listed ⦃t = u⦄ k (k ∷ fs) ≡ true = rw (u.same_refl k) refl in
        sym (listed_congr gs k q same) ∙ finer-listed gs k (c k here)
    | inr later ↦ listed-covers fs gs q (λ x l. c x (ground (arith, l))) later
  ]

  pub listed-same :
      (fs gs : List K) (q : K)
      → ((k : K) → listed ⦃t = u⦄ k fs ≡ listed ⦃t = u⦄ k gs)
      → listed q fs ≡ listed q gs
  listed-same fs gs q e =
      bool_eq (listed q fs) (listed q gs) (listed-covers fs gs q (λ k h. sym (e k) ∙ h))
        (listed-covers gs fs q (λ k h. e k ∙ h))
