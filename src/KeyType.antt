-- ===== src/KeyType.antt =====
-- The callbacks of `type_t` (include/core.h) that a hashed container asks of its keys. The client
-- supplies them, so they are parameters here.
use obelix.Prelude.{ℕ, ◌≡◌, Bool, true, arith}

pub record KeyType {ℓ} (K : Type ℓ) : Type ℓ where
  -- `cmp(k1, k2) == 0`
  pub same : K → K → Bool
  pub hash : K → ℕ
  pub same_refl : (a : K) → same a a ≡ true
  pub same_symm : (a b : K) → same a b ≡ same b a
  pub same_trans : (a b c : K) → same a b ≡ true → same b c ≡ true → same a c ≡ true
  pub hash-same : (a b : K) → same a b ≡ true → hash a ≡ hash b

module _ {ℓ} {K : Type ℓ} ⦃t : KeyType K⦄ where
  -- Keys that compare equal are equal to the same keys.
  pub same_congr : (a b c : K) → t.same a b ≡ true → t.same a c ≡ t.same b c
  same_congr a b c e = ground (arith, t.same_symm a b, t.same_trans a b c, t.same_trans b a c)

  pub same_congr_right : (a b c : K) → t.same b c ≡ true → t.same a b ≡ t.same a c
  same_congr_right a b c e = ground (arith, t.same_symm b c, t.same_trans a b c, t.same_trans a c b)
