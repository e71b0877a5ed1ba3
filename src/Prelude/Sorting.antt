-- ===== src/Prelude/Sorting.antt =====
-- `sort.Slice` by a key, `sort.Strings` and `sort.Ints`: the ascending permutation of the input.
-- Go's sort is not stable; where the keys are distinct there is only one such permutation.
use Prim.Native.Nat.{ℕ, zero, suc}
use mathlib.Core.Logic.{∥∥₁_elim, inl, inr}
use mathlib.Core.Path.{◌≡◌, refl, ap, ◌∙◌}
use mathlib.Core.Logic.{◌≢◌}
use mathlib.Core.Bool.{Bool, true, false}
use mathlib.Core.List.{List, [], ◌∷◌, map, Perm, Permᴰ, Nodup, Nodup-cons, mem-cons_self}
use mathlib.Core.List.Perm
use mathlib.Core.Option.{some}
use native.Mathlib.Nat.{ℕ_set}
use native.Mathlib.Omega.{arith}
use event_stream_rainstorm.Prelude.Tests.{leb, if◌then◌else◌, Bool-cases}
use event_stream_rainstorm.Prelude.Lists.{All, length, get_elem?}

-- The `<=` that belongs to the `<` a sort is given.
pub record Order {ℓ} (K : Type ℓ) : Type ℓ where
  pub le? : K → K → Bool
  pub total : (a b : K) → le? a b ≡ false → le? b a ≡ true
  pub trans : (a b c : K) → le? a b ≡ true → le? b c ≡ true → le? a c ≡ true
  pub antisymm : (a b : K) → le? a b ≡ true → le? b a ≡ true → a ≡ b

pub leb_total : (a b : ℕ) → leb a b ≡ false → leb b a ≡ true
leb_total a b h = ground arith

pub leb_trans : (a b c : ℕ) → leb a b ≡ true → leb b c ≡ true → leb a c ≡ true
leb_trans a b c h k = ground arith

pub leb_antisymm : (a b : ℕ) → leb a b ≡ true → leb b a ≡ true → a ≡ b
leb_antisymm a b h k = ground arith

instance abbrev pub nat_order : Order ℕ
nat_order = record { le? = leb; total = leb_total; trans = leb_trans; antisymm = leb_antisymm }

module _ {ℓ κ} {A : Type ℓ} {K : Type κ} ⦃o : Order K⦄ (key : A → K) where
  unfoldable pub insert_by : A → List A → List A
  insert_by x [] = x ∷ []
  insert_by x (y ∷ ys) = if o.le? (key x) (key y) then x ∷ y ∷ ys else y ∷ insert_by x ys

  unfoldable pub sort_by : List A → List A
  unfolding insert_by
  sort_by [] = []
  sort_by (x ∷ xs) = insert_by x (sort_by xs)

  abbrev pub IsSortedBy : List A → Type (ℓ ⊔ κ)
  IsSortedBy [] = Unit
  IsSortedBy (x ∷ xs) = All (λ y. o.le? (key x) (key y) ≡ true) xs × IsSortedBy xs

module _ {ℓ κ} {A : Type ℓ} {K : Type κ} ⦃o : Order K⦄ (key : A → K) where
  insert_by-perm : (x : A) (xs : List A) → Perm (insert_by key x xs) (x ∷ xs)
  unfolding insert_by
  insert_by-perm x [] = Perm.refl _
  insert_by-perm x (y ∷ ys) = ground (
    arith,
    Perm.refl (x ∷ y ∷ ys),
    Perm.trans (Perm.cons y (insert_by-perm x ys)) (Perm.swap x y ys),
  )

  pub sort_by-perm : (xs : List A) → Perm (sort_by key xs) xs
  unfolding sort_by
  sort_by-perm [] = Perm.refl []
  sort_by-perm (x ∷ xs) =
      Perm.trans (insert_by-perm x (sort_by key xs)) (Perm.cons x (sort_by-perm xs))

  pub All-insert_by {μ} :
      (P : A → Type μ) (x : A) (xs : List A) → P x → All P xs → All P (insert_by key x xs)
  unfolding insert_by
  All-insert_by P x [] h k = (h, tt)
  All-insert_by P x (y ∷ ys) h k = ground (arith, All-insert_by P x ys h k.1)

  pub All-sort_by {μ} : (P : A → Type μ) (xs : List A) → All P xs → All P (sort_by key xs)
  unfolding sort_by
  All-sort_by P [] h = tt
  All-sort_by P (x ∷ xs) h = All-insert_by P x (sort_by key xs) h.0 (All-sort_by P xs h.1)

  length-insert_by : (x : A) (xs : List A) → length (insert_by key x xs) ≡ suc (length xs)
  unfolding insert_by
  length-insert_by x [] = refl
  length-insert_by x (y ∷ ys) = ground (arith, length-insert_by x ys)

  pub length-sort_by : (xs : List A) → length (sort_by key xs) ≡ length xs
  unfolding sort_by
  length-sort_by [] = refl
  length-sort_by (x ∷ xs) = omega (arith, length-insert_by x (sort_by key xs), length-sort_by xs)

  insert_by_at : (x : A) (xs : List A) → (b : ℕ) × (get_elem? (insert_by key x xs) b ≡ some x)
  unfolding insert_by
  insert_by_at x [] = (0, refl)
  insert_by_at x (y ∷ ys) = elim (Bool-cases (o.le? (key x) (key y))) [
    | inl e ↦ (0, rw e refl)
    | inr e ↦ let (b, p) = insert_by_at x ys in (suc b, rw e p)
  ]

  insert_by_keeps :
      (x : A) (xs : List A) (a : ℕ) {y : A}
      → get_elem? xs a ≡ some y
      → (b : ℕ) × (get_elem? (insert_by key x xs) b ≡ some y)
  unfolding insert_by
  insert_by_keeps x [] a h = cc
  insert_by_keeps x (z ∷ zs) zero h = elim (Bool-cases (o.le? (key x) (key z))) [
    | inl e ↦ (1, rw e h)
    | inr e ↦ (0, rw e h)
  ]
  insert_by_keeps x (z ∷ zs) (suc a) h = elim (Bool-cases (o.le? (key x) (key z))) [
    | inl e ↦ (suc (suc a), rw e h)
    | inr e ↦ let (b, p) = insert_by_keeps x zs a h in (suc b, rw e p)
  ]

  -- Sorting loses no element.
  pub sort_by_keeps :
      (xs : List A) (a : ℕ) {y : A}
      → get_elem? xs a ≡ some y
      → (b : ℕ) × (get_elem? (sort_by key xs) b ≡ some y)
  unfolding sort_by
  sort_by_keeps [] a h = cc
  sort_by_keeps (x ∷ xs) zero {y} h = let (b, p) = insert_by_at x (sort_by key xs) in (b, p ∙ h)
  sort_by_keeps (x ∷ xs) (suc a) h =
      let (b, p) = sort_by_keeps xs a h in insert_by_keeps x (sort_by key xs) b p

  All_le :
      (x y : A) (ys : List A)
      → o.le? (key x) (key y) ≡ true
      → All (λ z. o.le? (key y) (key z) ≡ true) ys
      → All (λ z. o.le? (key x) (key z) ≡ true) ys
  All_le x y [] h k = tt
  All_le x y (z ∷ zs) h k = (o.trans _ _ _ h k.0, All_le x y zs h k.1)

  insert_by-IsSortedBy :
      (x : A) (xs : List A) → IsSortedBy key xs → IsSortedBy key (insert_by key x xs)
  unfolding insert_by
  insert_by-IsSortedBy x [] s = (tt, tt)
  insert_by-IsSortedBy x (y ∷ ys) s = ground (
    arith,
    o.total (key x) (key y),
    insert_by-IsSortedBy x ys s.1,
    All_le x y ys,
    All-insert_by (λ z. o.le? (key y) (key z) ≡ true) x ys,
  )

  pub sort_by-IsSortedBy : (xs : List A) → IsSortedBy key (sort_by key xs)
  unfolding sort_by
  sort_by-IsSortedBy [] = tt
  sort_by-IsSortedBy (x ∷ xs) = insert_by-IsSortedBy x (sort_by key xs) (sort_by-IsSortedBy xs)

  insert_by-insert_by :
      (x y : A) (l : List A)
      → key x ≢ key y
      → insert_by key x (insert_by key y l) ≡ insert_by key y (insert_by key x l)
  unfolding insert_by
  insert_by-insert_by x y [] h =
      ground (arith, o.total (key x) (key y), o.total (key y) (key x), o.antisymm (key x) (key y))
  insert_by-insert_by x y (z ∷ l) h = ground (
    arith,
    insert_by-insert_by x y l h,
    o.total (key x) (key y),
    o.total (key y) (key x),
    o.antisymm (key x) (key y),
    o.total (key x) (key z),
    o.total (key y) (key z),
    o.trans (key x) (key y) (key z),
    o.trans (key y) (key x) (key z),
  )

  -- Without equal keys the order of the input does not show in the result.
  sort_by-eq_of_permᴰ :
      {xs ys : List A} → Nodup (map key xs) → Permᴰ xs ys → sort_by key xs ≡ sort_by key ys
  unfolding sort_by
  sort_by-eq_of_permᴰ n Permᴰ.nil = refl
  sort_by-eq_of_permᴰ n (Permᴰ.cons e p) =
      ground (arith, e, sort_by-eq_of_permᴰ (Nodup-cons.0 n).1 p)
  sort_by-eq_of_permᴰ n (Permᴰ.swap {a} {b} {l = l} e f) =
      rw (← e, ← f)
        (insert_by-insert_by a b (sort_by key l) (λ q. (Nodup-cons.0 n).0 (rw q mem-cons_self)))
  sort_by-eq_of_permᴰ n (Permᴰ.trans p q) =
      sort_by-eq_of_permᴰ n p ∙ sort_by-eq_of_permᴰ (Perm.nodup (Perm.map key ∣ p ∣₁) n) q

  pub sort_by-eq_of_perm :
      IsSet A → {xs ys : List A} → Nodup (map key xs) → Perm xs ys → sort_by key xs ≡ sort_by key ys
  sort_by-eq_of_perm s n p = ∥∥₁_elim p (hlevel s) (sort_by-eq_of_permᴰ n)

length-permᴰ {ℓ} : {A : Type ℓ} {xs ys : List A} → Permᴰ xs ys → length xs ≡ length ys
length-permᴰ Permᴰ.nil = refl
length-permᴰ (Permᴰ.cons e p) = ap suc (length-permᴰ p)
length-permᴰ (Permᴰ.swap e f) = refl
length-permᴰ (Permᴰ.trans p q) = length-permᴰ p ∙ length-permᴰ q

pub length-perm {ℓ} : {A : Type ℓ} {xs ys : List A} → Perm xs ys → length xs ≡ length ys
length-perm p = ∥∥₁_elim p (ℕ_set _ _) length-permᴰ
