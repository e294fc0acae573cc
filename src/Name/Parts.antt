-- ===== src/Name/Parts.antt =====
-- The head, the tail and the growth of a name in lib/name.c.
use obelix.Prelude.{
  ℕ, zero, suc, ◌+◌, ◌-◌, ◌≡◌, ◌<◌, refl, sym, ap, ◌∙◌, true, Option, List, [], ◌∷◌, ◌++◌, length,
  take, take-past, drop, length-drop, drop-past, append-nil, append_assoc, arith,
}
use obelix.Prelude.Int.{ℤ, pos, negsuc, ◌-ℤ◌}
use obelix.Array
use obelix.Array.{Array, slot}
use obelix.Array.Growth.{IsValid, IsClean, items}
use obelix.Array.Contents.{slot-take}
use obelix.Array.Access.{length-items, items-push}
use obelix.Array.Bulk.{push-IsValid}
use obelix.Array.Lifo.{get-slot}
use obelix.Array.Slice.{slice, slice_lem, create_lem, set_free_lem, slice-IsValid}
use obelix.Name
use obelix.Name.{Name, str_array_create}

module _ {ℓ} {A : Type ℓ} where
  drop-slot :
      (xs : List (Option A)) (i : ℕ) → i < length xs → drop i xs ≡ slot xs i ∷ drop (suc i) xs
  drop-slot [] i h = absurd (omega arith)
  drop-slot (x ∷ xs) zero h = refl
  drop-slot (x ∷ xs) (suc i) h = drop-slot xs i (omega arith)

  -- A name whose array is in order and holds `xs`.
  pub record Holds (xs : List (Option A)) (n : Name A) : Type ℓ where
    pub valid : IsValid n.name
    pub clean : IsClean n.name
    pub reads : items n.name ≡ xs

  append_from-Holds :
      (rounds ix : ℕ) (xs : List (Option A)) (n : Name A) (other : Array A)
      → Holds xs n
      → IsValid other
      → ix + rounds ≡ other.size
      → Holds (xs ++ drop ix (items other)) (Name.append_from rounds ix n other)
  unfolding Name.append_from Name.extend
  append_from-Holds zero ix xs n other h v e =
      let past = drop-past (items other) ix (omega (arith, length-items other v)) in
      record {
        valid = h.valid;
        clean = h.clean;
        reads = h.reads ∙ sym (append-nil xs) ∙ ap (λ l. xs ++ l) (sym past);
      }
  append_from-Holds (suc rounds) ix xs n other h v e =
      let x = (Array.get other (pos ix)).1 in
      let inside : ix < other.size = omega arith in
      let read : x ≡ slot (items other) ix =
        get-slot other ix inside ∙ sym (slot-take other.contents other.size ix inside) in
      let cut : drop ix (items other) ≡ x ∷ drop (suc ix) (items other) =
        drop-slot (items other) ix (omega (arith, length-items other v))
        ∙ ap (λ y. y ∷ drop (suc ix) (items other)) (sym read) in
      let (pv, pc) = push-IsValid n.name x h.valid h.clean in
      let grown : Holds (xs ++ x ∷ []) (Name.extend n x) = record {
        valid = pv;
        clean = pc;
        reads = (items-push n.name x h.valid h.clean).0 ∙ ap (λ l. l ++ x ∷ []) h.reads;
      } in
      let r =
        append_from-Holds rounds (suc ix) (xs ++ x ∷ []) (Name.extend n x) other grown v
          (omega arith) in
      record {
        valid = r.valid;
        clean = r.clean;
        reads =
            r.reads
            ∙ append_assoc xs (x ∷ []) (drop (suc ix) (items other))
            ∙ ap (λ l. xs ++ l) (sym cut);
      }

  fresh-Holds : (c : ℤ) → Holds [] (record { name = str_array_create {A = A} c })
  unfolding str_array_create
  fresh-Holds c =
      let (v, k, e, _) = create_lem {A = A} c in
      let (v', k', e', _) = set_free_lem (Array.create c) true v k in
      record { valid = v'; clean = k'; reads = e' ∙ e }

  append_array-Holds :
      (xs : List (Option A)) (n : Name A) (other : Array A)
      → Holds xs n
      → IsValid other
      → Holds (xs ++ items other) (Name.append_array n other)
  unfolding Name.append_array
  append_array-Holds xs n other h v = append_from-Holds other.size 0 xs n other h v (omega arith)

  -- `name_append` puts the components of another name behind.
  pub append-Holds :
      (n other : Name A)
      → IsValid n.name
      → IsClean n.name
      → IsValid other.name
      → Holds (items n.name ++ items other.name) (Name.append n other)
  unfolding Name.append
  append-Holds n other v c w =
      append_array-Holds (items n.name) n other.name (record { valid = v; clean = c; reads = refl })
        w

  tail-Holds : (n : Name A) → IsValid n.name → Holds (drop 1 (items n.name)) (Name.tail n)
  unfolding Name.tail
  tail-Holds n v =
      let part = slice n.name (pos 1) (negsuc 0) in
      let whole : items part ≡ drop 1 (items n.name) =
        slice_lem n.name 1 (negsuc 0) v
        ∙ take-past (drop 1 (items n.name)) (n.name.size - 1 - 0)
            (omega (arith, length-drop 1 (items n.name), length-items n.name v)) in
      let h =
        append_array-Holds [] (record { name = str_array_create (pos (Name.size n) -ℤ pos 1) }) part
          (fresh-Holds (pos (Name.size n) -ℤ pos 1)) (slice-IsValid n.name (pos 1) (negsuc 0)) in
      record { valid = h.valid; clean = h.clean; reads = h.reads ∙ whole }

  head-Holds :
      (n : Name A) → IsValid n.name → Holds (take (Name.size n - 1) (items n.name)) (Name.head n)
  unfolding Name.head
  head-Holds n v =
      let part = slice n.name (pos 0) (negsuc 1) in
      let shorter : n.name.size - 0 - 1 ≡ n.name.size - 1 = omega arith in
      let whole : items part ≡ take (n.name.size - 1) (items n.name) =
        slice_lem n.name 0 (negsuc 1) v ∙ ap (λ k. take k (items n.name)) shorter in
      let h =
        append_array-Holds [] (record { name = str_array_create (pos (Name.size n) -ℤ pos 1) }) part
          (fresh-Holds (pos (Name.size n) -ℤ pos 1)) (slice-IsValid n.name (pos 0) (negsuc 1)) in
      record { valid = h.valid; clean = h.clean; reads = h.reads ∙ whole }

  -- `name_head` has all the components but the last one, `name_tail` all but the first one; of an
  -- empty name both are empty.
  pub head-tail :
      (n : Name A)
      → IsValid n.name
      → Holds (take (Name.size n - 1) (items n.name)) (Name.head n)
        × Holds (drop 1 (items n.name)) (Name.tail n)
  head-tail n v = (head-Holds n v, tail-Holds n v)
