-- ===== src/Prelude/DictPerm.antt =====
-- Lists and maps up to the order of their entries.
use mathlib.Core.Path.{◌≡◌, refl, sym, subst}
use mathlib.Core.Logic.{◌≢◌, ∥∥₁_elim}
use mathlib.Core.Logic.Or
use mathlib.Core.HLevel.{⊥_prop}
use mathlib.Core.Bool.{Bool, true, false}
use mathlib.Core.Logic.{inl, inr}
use mathlib.Core.List.{
  List, [], ◌∷◌, map, Perm, Permᴰ, Perm-prop, Mem, Nodup, Nodup-cons, mem-cons, not-mem-nil,
  Pairwise,
}
use mathlib.Core.List.Perm
use mathlib.Core.Option.{none}
use native.Mathlib.Omega.{arith}
use event_stream_rainstorm.Prelude.Tests.{Eq, ◌==◌, if◌then◌else◌, Bool-cases}
use event_stream_rainstorm.Prelude.Lists.{All}
use event_stream_rainstorm.Prelude.Dict.{Dict, get, put, remove, IsMap, put-IsMap, remove_absent}

module _ {ℓ κ} {A : Type ℓ} (P : A → Type κ) where
  pub All-permᴰ : {xs ys : List A} → Permᴰ xs ys → All P xs → All P ys
  All-permᴰ Permᴰ.nil h = tt
  All-permᴰ (Permᴰ.cons e p) h = (subst P e h.0, All-permᴰ p h.1)
  All-permᴰ (Permᴰ.swap e f) h = (subst P f h.1.0, (subst P e h.0, h.1.1))
  All-permᴰ (Permᴰ.trans p q) h = All-permᴰ q (All-permᴰ p h)

  All-prop : ((x : A) → IsProp (P x)) → (xs : List A) → IsProp (All P xs)
  All-prop h [] = hlevel
  All-prop h (x ∷ xs) = hlevel (h x, All-prop h xs)

  pub All-perm : ((x : A) → IsProp (P x)) → {xs ys : List A} → Perm xs ys → All P xs → All P ys
  All-perm h {ys} p k = ∥∥₁_elim p (All-prop h ys) (λ d. All-permᴰ d k)

module _ {ℓ} {A : Type ℓ} where
  abbrev cons_unless : Bool → A → List A → List A
  cons_unless b x l = if b then l else x ∷ l

  cons_unless-perm :
      (b : Bool) (x : A) (l l' : List A) → Perm l l' → Perm (cons_unless b x l) (cons_unless b x l')
  cons_unless-perm true x l l' p = p
  cons_unless-perm false x l l' p = Perm.cons x p

  cons_unless_swap :
      (b c : Bool) (x y : A) (l : List A)
      → Perm (cons_unless b x (cons_unless c y l)) (cons_unless c y (cons_unless b x l))
  cons_unless_swap true c x y l = Perm.refl _
  cons_unless_swap false true x y l = Perm.refl _
  cons_unless_swap false false x y l = Perm.swap y x l

module _ {ℓ κ} {K : Type ℓ} {V : Type κ} ⦃e : Eq K⦄ where
  -- A write is a removal and a new entry.
  put-perm : (k : K) (v : V) (d : Dict K V) → IsMap d → Perm (put k v d) ((k, v) ∷ remove k d)
  unfolding put remove
  put-perm k v [] m = Perm.refl _
  put-perm k v ((j, w) ∷ d) m = elim (Bool-cases (j == k)) [
    | inl h ↦
        let q : j ≡ k = (e.decides j k).0 h in
        rw (h, remove_absent k d (subst (λ i. get i d ≡ none) q m.0)) (Perm.refl _)
    | inr h ↦
        rw h (
          Perm.trans (Perm.cons (j, w) (put-perm k v d m.1)) (Perm.swap (k, v) (j, w) (remove k d)))
  ]

  remove-cons :
      (k : K) (a : K × V) (d : Dict K V) → remove k (a ∷ d) ≡ cons_unless (a.0 == k) a (remove k d)
  unfolding remove
  remove-cons k a d = refl

  remove-permᴰ : (k : K) {d d' : Dict K V} → Permᴰ d d' → Perm (remove k d) (remove k d')
  remove-permᴰ k Permᴰ.nil = Perm.refl _
  remove-permᴰ k (Permᴰ.cons {a} {l₁} {l₂} p q) = rw (← p) (
      simp remove-cons
        (cons_unless-perm (a.0 == k) a (remove k l₁) (remove k l₂) (remove-permᴰ k q)))
  remove-permᴰ k (Permᴰ.swap {a} {b} {l} p q) =
      rw (← p, ← q) (simp remove-cons (cons_unless_swap (a.0 == k) (b.0 == k) a b (remove k l)))
  remove-permᴰ k (Permᴰ.trans p q) = Perm.trans (remove-permᴰ k p) (remove-permᴰ k q)

  remove-perm : (k : K) {d d' : Dict K V} → Perm d d' → Perm (remove k d) (remove k d')
  remove-perm k p = ∥∥₁_elim p Perm-prop (remove-permᴰ k)

  pub put_respects-perm :
      (k : K) (v : V) (d d' : Dict K V)
      → IsMap d
      → IsMap d'
      → Perm d d'
      → Perm (put k v d) (put k v d')
  put_respects-perm k v d d' m m' p =
      Perm.trans (put-perm k v d m)
        (Perm.trans (Perm.cons (k, v) (remove-perm k p)) (Perm.symm (put-perm k v d' m')))

  remove_comm : (k j : K) (d : Dict K V) → remove k (remove j d) ≡ remove j (remove k d)
  unfolding remove
  remove_comm k j [] = refl
  remove_comm k j ((i, v) ∷ d) = ground (arith, remove_comm k j d)

  -- Writes at two keys, the later one first.
  put_put :
      (k j : K) (v w : V) (d : Dict K V)
      → IsMap d
      → k ≢ j
      → Perm (put k v (put j w d)) ((k, v) ∷ (j, w) ∷ remove k (remove j d))
  put_put k j v w d m h =
      let apart : (j == k) ≡ false = ground (arith, e.decides j k) in
      let split : Perm (remove k (put j w d)) ((j, w) ∷ remove k (remove j d)) =
        subst (λ b. Perm (remove k (put j w d)) (cons_unless b (j, w) (remove k (remove j d))))
          apart
          (subst (Perm (remove k (put j w d))) (remove-cons k (j, w) (remove j d))
            (remove-perm k (put-perm j w d m))) in
      Perm.trans (put-perm k v (put j w d) (put-IsMap j w d m)) (Perm.cons (k, v) split)

  pub put_put-perm :
      (k j : K) (v w : V) (d : Dict K V)
      → IsMap d
      → k ≢ j
      → Perm (put k v (put j w d)) (put j w (put k v d))
  put_put-perm k j v w d m h =
      let swapped : Perm ((k, v) ∷ (j, w) ∷ remove k (remove j d))
          ((j, w) ∷ (k, v) ∷ remove j (remove k d)) =
        rw (remove_comm k j d) (Perm.swap (j, w) (k, v) _) in
      Perm.trans (put_put k j v w d m h)
        (Perm.trans swapped (Perm.symm (put_put j k w v d m (λ q. h (sym q)))))

  absent-not_mem : (k : K) (d : Dict K V) → get k d ≡ none → Mem k (map (λ (o : K × V). o.0) d) → ⊥
  unfolding get
  absent-not_mem k [] g h = not-mem-nil h
  absent-not_mem k ((j, v) ∷ d) g h =
      Or.elim ⊥_prop (mem-cons.0 h) (λ q. ground (arith, e.decides j k))
        (λ q. absent-not_mem k d (ground arith) q)

  -- The keys of a map are distinct.
  pub IsMap-Nodup : (d : Dict K V) → IsMap d → Nodup (map (λ (o : K × V). o.0) d)
  IsMap-Nodup [] m = Pairwise.nil
  IsMap-Nodup ((k, v) ∷ d) m = Nodup-cons.1 (absent-not_mem k d m.0, IsMap-Nodup d m.1)
