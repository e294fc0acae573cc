-- ===== src/Dict/Iterator.antt =====
-- The iterator of lib/dict.c, forwards. Its two indices are kept one higher than in C, where both
-- start at -1.
use obelix.Prelude.{
  ℕ, zero, suc, ◌+◌, ◌-◌, ◌<◌, ◌≡◌, inl, inr, refl, Bool, true, false, Option, none, some, List, [],
  ◌∷◌, ◌++◌, ltb, ◌==◌, if◌then◌else◌, length, get_elem?, drop, drop-past, arith, Bool-cases,
  Option-cases, ap, ap₂, sym, ◌∙◌,
}
use obelix.Dict.{Entry, Bucket, Dict, bucket_at}
use obelix.Dict.Placement.{all_entries}

suc_left : (b j : ℕ) → suc (b + j) ≡ suc b + j
suc_left b j = omega arith

module _ {κ} {A : Type κ} where
  drop-nil : (n : ℕ) → drop {A = A} n [] ≡ []
  drop-nil zero = refl
  drop-nil (suc n) = refl

  drop-drop : (j b : ℕ) (xs : List A) → drop j (drop b xs) ≡ drop (b + j) xs
  drop-drop j zero xs = ap (λ k. drop k xs) (omega arith)
  drop-drop j (suc b) [] = drop-nil j ∙ sym (drop-nil (suc b + j))
  drop-drop j (suc b) (x ∷ xs) = drop-drop j b xs ∙ ap (λ k. drop k (x ∷ xs)) (suc_left b j)

  drop-get_elem? :
      (xs : List A) (n : ℕ)
      → n < length xs
      → (x : A) × (get_elem? xs n ≡ some x) × (drop n xs ≡ x ∷ drop (suc n) xs)
  drop-get_elem? [] n h = absurd (omega arith)
  drop-get_elem? (x ∷ xs) zero h = (x, refl, refl)
  drop-get_elem? (x ∷ xs) (suc n) h = drop-get_elem? xs n (omega arith)

pub record Iterator {ℓ} (K V : Type ℓ) : Type ℓ where
  pub dict : Dict K V
  pub bucket : ℕ
  pub entry : ℕ

module _ {ℓ} {K V : Type ℓ} where
  -- `di_create` and `di_head`
  unfoldable pub head : Dict K V → Iterator K V
  head d = record { dict = d; bucket = 0; entry = 0 }

  -- The loop of `_di_bucket_next` over the buckets from index `b` on, the first of them from entry
  -- `n` on.
  unfoldable pub scan_next : List (Bucket K V) → ℕ → ℕ → Option (ℕ × ℕ)
  scan_next [] b n = none
  scan_next (bk ∷ bs) b n =
      if ltb n (length bk.entries) then some (b, n) else scan_next bs (suc b) 0

  -- At -1 the first round of the loop only moves on to bucket 0.
  abbrev pub first_entry : Iterator K V → ℕ
  first_entry it = if it.bucket == 0 then 0 else it.entry

  unfoldable pub bucket_next : Iterator K V → Option (ℕ × ℕ)
  unfolding scan_next
  bucket_next it = scan_next (drop (it.bucket - 1) it.dict.buckets) (it.bucket - 1) (first_entry it)

  unfoldable pub has_next : Iterator K V → Bool
  unfolding bucket_next
  has_next it = elim (bucket_next it) [ none ↦ false | some p ↦ true ]

  abbrev pub next_at : Iterator K V → Option (ℕ × ℕ) → Option (Entry K V) × Iterator K V
  next_at it none = (none, it)
  next_at it (some (b, n)) = (
    get_elem? (bucket_at it.dict.buckets b).entries n,
    record it { bucket = suc b; entry = suc n },
  )

  unfoldable pub next : Iterator K V → Option (Entry K V) × Iterator K V
  unfolding bucket_next
  next it = next_at it (bucket_next it)

  -- A client's loop `while ((e = di_next(di)))`: what it is handed.
  abbrev pub handed : Option (Entry K V) → List (Entry K V) → List (Entry K V)
  handed none later = []
  handed (some e) later = e ∷ later

  unfoldable pub collect : ℕ → Iterator K V → List (Entry K V)
  unfolding next
  collect zero it = []
  collect (suc fuel) it = handed (next it).0 (collect fuel (next it).1)

  abbrev rest_of : List (Bucket K V) → ℕ → List (Entry K V)
  rest_of [] n = []
  rest_of (bk ∷ bs) n = drop n bk.entries ++ all_entries bs

  -- The entries that are still to come.
  abbrev rest : Iterator K V → List (Entry K V)
  rest it = rest_of (drop (it.bucket - 1) it.dict.buckets) (first_entry it)

  rest_of-zero : (bs : List (Bucket K V)) → rest_of bs 0 ≡ all_entries bs
  unfolding all_entries
  rest_of-zero [] = refl
  rest_of-zero (b ∷ bs) = refl

  scan_none : (bs : List (Bucket K V)) (b n : ℕ) → scan_next bs b n ≡ none → rest_of bs n ≡ []
  unfolding scan_next
  scan_none [] b n h = refl
  scan_none (bk ∷ bs) b n h = elim (Bool-cases (ltb n (length bk.entries))) [
    | inl more ↦ cc (rw more at h)
    | inr done ↦
        rw (drop-past bk.entries n (ground arith))
          (sym (rest_of-zero bs) ∙ scan_none bs (suc b) 0 (rw done at h))
  ]

  scan_some :
      (bs : List (Bucket K V)) (b n b' n' : ℕ)
      → scan_next bs b n ≡ some (b', n')
      → (j : ℕ) × (b' ≡ b + j)
        × (rest_of bs n ≡ rest_of (drop j bs) n')
        × (n' < length (bucket_at bs j).entries)
  unfolding scan_next
  scan_some [] b n b' n' h = cc
  scan_some (bk ∷ bs) b n b' n' h = elim (Bool-cases (ltb n (length bk.entries))) [
    | inl more ↦
        let e : some (b, n) ≡ some (b', n') = rw more at h in
        let same : (b ≡ b') × (n ≡ n') = (
          ap (λ o. elim o [ none ↦ 0 | some p ↦ p.0 ]) e,
          ap (λ o. elim o [ none ↦ 0 | some p ↦ p.1 ]) e,
        ) in
        (0, omega arith, ap (rest_of (bk ∷ bs)) same.1, ground arith)
    | inr done ↦
        let (j, e, r, l) = scan_some bs (suc b) 0 b' n' (rw done at h) in
        (
          suc j,
          omega arith,
          ap (λ es. es ++ all_entries bs) (drop-past bk.entries n (ground arith))
              ∙ sym (rest_of-zero bs)
              ∙ r,
          l,
        )
  ]

  rest_of-step :
      (bs : List (Bucket K V)) (n : ℕ)
      → n < length (bucket_at bs 0).entries
      → (e : Entry K V) × (get_elem? (bucket_at bs 0).entries n ≡ some e)
        × (rest_of bs n ≡ e ∷ rest_of bs (suc n))
  rest_of-step [] n h = absurd (omega arith)
  rest_of-step (b ∷ bs) n h =
      let (e, got, cut) = drop-get_elem? b.entries n h in
      (e, got, ap (λ es. es ++ all_entries bs) cut)

  bucket_at-drop : (bs : List (Bucket K V)) (j : ℕ) → bucket_at (drop j bs) 0 ≡ bucket_at bs j
  bucket_at-drop [] zero = refl
  bucket_at-drop [] (suc j) = refl
  bucket_at-drop (b ∷ bs) zero = refl
  bucket_at-drop (b ∷ bs) (suc j) = bucket_at-drop bs j

  next_last : (it : Iterator K V) → bucket_next it ≡ none → (rest it ≡ []) × (next it ≡ (none, it))
  unfolding bucket_next next
  next_last it h = (
    scan_none (drop (it.bucket - 1) it.dict.buckets) (it.bucket - 1) (first_entry it) h,
    ap (next_at it) h,
  )

  next_eq :
      (it : Iterator K V) (b n : ℕ) (e : Entry K V)
      → bucket_next it ≡ some (b, n)
      → get_elem? (bucket_at it.dict.buckets b).entries n ≡ some e
      → next it ≡ (some e, record it { bucket = suc b; entry = suc n })
  unfolding next
  next_eq it b n e h got =
      ap (next_at it) h ∙ ap (λ found. (found, record it { bucket = suc b; entry = suc n })) got

  rest_moved :
      (it : Iterator K V) (b n : ℕ)
      → rest (record it { bucket = suc b; entry = suc n })
        ≡ rest_of (drop b it.dict.buckets) (suc n)
  rest_moved it b n =
      let back : suc b - 1 ≡ b = omega arith in
      let within : (if suc b == 0 then 0 else suc n) ≡ suc n = ground arith in
      ap₂ (λ i j. rest_of (drop i it.dict.buckets) j) back within

  next_more :
      (it : Iterator K V) (b n : ℕ)
      → bucket_next it ≡ some (b, n)
      → (e : Entry K V) × ((next it).0 ≡ some e) × (rest it ≡ e ∷ rest (next it).1)
  unfolding bucket_next
  next_more it b n h =
      let from = it.bucket - 1 in
      let later = drop from it.dict.buckets in
      let (j, at, left, inside) = scan_some later from (first_entry it) b n h in
      let same : drop j later ≡ drop b it.dict.buckets =
        drop-drop j from it.dict.buckets ∙ ap (λ i. drop i it.dict.buckets) (sym at) in
      let there : bucket_at (drop b it.dict.buckets) 0 ≡ bucket_at later j =
        ap (λ bs. bucket_at bs 0) (sym same) ∙ bucket_at-drop later j in
      let (e, got, step) = rest_of-step (drop b it.dict.buckets) n (rw there inside) in
      let moved = next_eq it b n e h (
        ap (λ (bk : Bucket K V). get_elem? bk.entries n) (sym (bucket_at-drop it.dict.buckets b))
        ∙ got) in
      (
        e,
        ap (λ r. r.0) moved,
        left
            ∙ ap (λ bs. rest_of bs n) same
            ∙ step
            ∙ ap (λ l. e ∷ l) (sym (rest_moved it b n))
            ∙ ap (λ (r : Option (Entry K V) × Iterator K V). e ∷ rest r.1) (sym moved),
      )

  collect-rest :
      (fuel : ℕ) (it : Iterator K V) → length (rest it) < fuel → collect fuel it ≡ rest it
  unfolding collect
  collect-rest zero it h = absurd (omega arith)
  collect-rest (suc fuel) it h = elim (Option-cases (bucket_next it)) [
    | inl done ↦
        let (empty, stays) = next_last it done in
        ap (λ r. handed r.0 (collect fuel r.1)) stays ∙ sym empty
    | inr ((b, n), at) ↦
        let (e, got, step) = next_more it b n at in
        let shorter : length (rest (next it).1) < fuel = omega (arith, ap length step) in
        ap (λ o. handed o (collect fuel (next it).1)) got
        ∙ (ap (λ l. e ∷ l) (collect-rest fuel (next it).1 shorter) ∙ sym step)
  ]

  -- A client that creates an iterator and calls `di_next` until it answers NULL is handed all the
  -- entries of the dictionary, bucket by bucket, each once.
  pub collect-all_entries :
      (d : Dict K V) (fuel : ℕ)
      → length (all_entries d.buckets) < fuel
      → collect fuel (head d) ≡ all_entries d.buckets
  unfolding head
  collect-all_entries d fuel h =
      let fresh : rest (head d) ≡ all_entries d.buckets = rest_of-zero d.buckets in
      collect-rest fuel (head d) (rw fresh h) ∙ fresh
