-- ===== src/Ring/Successor.antt =====
-- Where `GetSuccessor` places a file: on the nodes that follow it clockwise on the ring.
use native.Mathlib.Decide.{dec_lt}
use native.Mathlib.Nat.{mod-eq_of_lt, mod-eq-sub-mod}
use event_stream_rainstorm.Prelude.{
  ℕ, zero, suc, ◌+◌, ◌-◌, ◌%◌, ◌^◌, ◌≤◌, ◌<◌, ◌≡◌, refl, sym, ap, ◌∙◌, ◌⊎◌, inl, inr, true, some,
  List, [], ◌∷◌, length, get_elem?, leb, Bool-cases, All, get_elem?-of_lt, lt-of_get_elem?, All-at,
  arith,
}
use event_stream_rainstorm.Prelude.Sorting.{nat_order, IsSortedBy}
use event_stream_rainstorm.Ring.{NodeInfo, start_from, walk, get_successor}

abbrev pub ids : NodeInfo → ℕ
ids n = n.node_id

-- The way from a file to a node, clockwise on a ring of 2 ^ 32 places.
abbrev pub distance : ℕ → NodeInfo → ℕ
distance file_id n = (n.node_id + 2 ^ 32 - file_id) % 2 ^ 32

walk_at :
    (nodes rs : List NodeInfo) (index k : ℕ) (n : NodeInfo)
    → get_elem? nodes (index % length nodes) ≡ some n
    → ((j : ℕ) → j < k → get_elem? rs j ≡ get_elem? nodes ((index + 1 + j) % length nodes))
    → (j : ℕ) → j < suc k
    → get_elem? (n ∷ rs) j ≡ get_elem? nodes ((index + j) % length nodes)
walk_at nodes rs index k n e at zero l = let p : index + 0 ≡ index = omega arith in rw p (sym e)
walk_at nodes rs index k n e at (suc j) l =
    let p : index + suc j ≡ index + 1 + j = omega arith in rw p (at j (omega arith))

walk-suc :
    (nodes rs : List NodeInfo) (index k : ℕ) (n : NodeInfo)
    → get_elem? nodes (index % length nodes) ≡ some n
    → walk nodes (index + 1) k ≡ some rs
    → walk nodes index (suc k) ≡ some (n ∷ rs)
unfolding walk
walk-suc nodes rs index k n e w = ground arith

walk_lem :
    (nodes : List NodeInfo) (index k : ℕ)
    → 0 < length nodes
    → (rs : List NodeInfo) × (walk nodes index k ≡ some rs)
      × (length rs ≡ k)
      × ((j : ℕ) → j < k → get_elem? rs j ≡ get_elem? nodes ((index + j) % length nodes))
unfolding walk
walk_lem nodes index zero h = ([], refl, refl, λ j l. absurd (omega arith))
walk_lem nodes index (suc k) h =
    let (n, e) = get_elem?-of_lt nodes (index % length nodes) (grind arith) in
    let (rs, w, l, at) = walk_lem nodes (index + 1) k h in
    (n ∷ rs, walk-suc nodes rs index k n e w, ap suc l, walk_at nodes rs index k n e at)

abbrev IsBelow : ℕ → List NodeInfo → ℕ → Type 0
IsBelow file_id nodes s =
    (i : ℕ) (x : NodeInfo) → i < s → get_elem? nodes i ≡ some x → x.node_id < file_id

IsBelow-cons :
    (file_id : ℕ) (n : NodeInfo) (ns : List NodeInfo) (s : ℕ)
    → n.node_id < file_id
    → IsBelow file_id ns s
    → IsBelow file_id (n ∷ ns) (suc s)
IsBelow-cons file_id n ns s h below zero x l e = ground arith
IsBelow-cons file_id n ns s h below (suc i) x l e = below i x (omega arith) e

start_cases :
    (file_id : ℕ) (nodes : List NodeInfo) (k : ℕ)
    → ((start_from file_id nodes k ≡ 0) × IsBelow file_id nodes (length nodes))
      ⊎ ((s : ℕ) × (start_from file_id nodes k ≡ k + s)
          × IsBelow file_id nodes s
          × (z : NodeInfo) × (get_elem? nodes s ≡ some z)
          × (file_id ≤ z.node_id))
unfolding start_from
start_cases file_id [] k = inl (refl, λ i x l e. absurd (omega arith))
start_cases file_id (n ∷ ns) k = elim (Bool-cases (leb file_id n.node_id)) [
  | inl e ↦ inr (0, rw e (omega arith), (λ i x l q. absurd (omega arith)), n, refl, ground arith)
  | inr e ↦ elim (start_cases file_id ns (k + 1)) [
    | inl (p, below) ↦
        inl (rw (e, p) refl, IsBelow-cons file_id n ns (length ns) (ground arith) below)
    | inr (s, p, below, z, q, le) ↦
        inr (
          suc s,
          rw (e, p) (omega arith),
          IsBelow-cons file_id n ns s (ground arith) below,
          z,
          q,
          le,
        )
  ]
]

sorted_at :
    (nodes : List NodeInfo) (i j : ℕ) {x y : NodeInfo}
    → IsSortedBy ids nodes
    → i ≤ j
    → get_elem? nodes i ≡ some x
    → get_elem? nodes j ≡ some y
    → x.node_id ≤ y.node_id
sorted_at [] i j s h p q = cc
sorted_at (n ∷ ns) zero zero s h p q = ground arith
sorted_at (n ∷ ns) zero (suc j) {x} {y} s h p q =
    let b = All-at (λ z. leb n.node_id z.node_id ≡ true) ns j s.0 q in ground (arith, b)
sorted_at (n ∷ ns) (suc i) zero s h p q = absurd (omega arith)
sorted_at (n ∷ ns) (suc i) (suc j) s h p q = sorted_at ns i j s.1 (omega arith) p q

wrap :
    (t i n : ℕ)
    → t < n
    → i < n
    → ((t + i < n) × ((t + i) % n ≡ t + i)) ⊎ ((n ≤ t + i) × ((t + i) % n + n ≡ t + i))
wrap t i n h k = elim (dec_lt (t + i) n) [
  | yes below ↦ inl (below, mod-eq_of_lt below)
  | no past ↦
      let e : (t + i) % n ≡ (t + i - n) % n = mod-eq-sub-mod (omega arith) in
      let r : (t + i - n) % n ≡ t + i - n = mod-eq_of_lt (omega arith) in
      inr (omega arith, omega (arith, e, r))
]

-- From `t`, every place of the ring is reached.
reach : (t a n : ℕ) → t < n → a < n → (j : ℕ) × (j < n) × ((t + j) % n ≡ a)
reach t a n h k = elim (dec_lt a t) [
  | yes before ↦
      let e : (t + (a + n - t)) % n ≡ (t + (a + n - t) - n) % n = mod-eq-sub-mod (omega arith) in
      let r : t + (a + n - t) - n ≡ a = omega arith in
      (a + n - t, omega arith, e ∙ ap (λ m. m % n) r ∙ mod-eq_of_lt k)
  | no after ↦
      let r : t + (a - t) ≡ a = omega arith in
      (a - t, omega arith, ap (λ m. m % n) r ∙ mod-eq_of_lt k)
]

start_lt :
    (file_id : ℕ) (nodes : List NodeInfo)
    → 0 < length nodes
    → start_from file_id nodes 0 < length nodes
start_lt file_id nodes h = elim (start_cases file_id nodes 0) [
  | inl (e, below) ↦ omega arith
  | inr (t, e, below, z, w, le) ↦ omega (arith, lt-of_get_elem? nodes t w)
]

-- On a sorted ring the nodes from the start on, round the ring, are ever farther away.
distance_mono :
    (file_id : ℕ) (nodes : List NodeInfo) (i j : ℕ) {x y : NodeInfo}
    → file_id < 2 ^ 32
    → All (λ n. n.node_id < 2 ^ 32) nodes
    → IsSortedBy ids nodes
    → i ≤ j
    → j < length nodes
    → get_elem? nodes ((start_from file_id nodes 0 + i) % length nodes) ≡ some x
    → get_elem? nodes ((start_from file_id nodes 0 + j) % length nodes) ≡ some y
    → distance file_id x ≤ distance file_id y
distance_mono file_id nodes i j {x} {y} f small s h l p q =
    let bx = All-at (λ n. n.node_id < 2 ^ 32) nodes _ small p in
    let by' = All-at (λ n. n.node_id < 2 ^ 32) nodes _ small q in
    elim (start_cases file_id nodes 0) [
      | inl (e, below) ↦
          let le = sorted_at nodes _ _ s (grind (arith, e)) p q in
          let lx = below _ x (grind (arith, e)) p in
          let ly = below _ y (grind (arith, e)) q in omega arith
      | inr (t, e, below, z, w, le) ↦
          let lt = lt-of_get_elem? nodes t w in
          elim (wrap (start_from file_id nodes 0) i (length nodes) (omega arith) (omega arith)) [
            | inl (i_before, a) ↦
                let lx = sorted_at nodes t _ s (omega arith) w p in
                elim (wrap (start_from file_id nodes 0) j (length nodes) (omega arith)
                  (omega arith)) [
                    | inl (j_before, b) ↦
                        let xy = sorted_at nodes _ _ s (omega arith) p q in omega arith
                    | inr (j_past, b) ↦ let ly = below _ y (omega arith) q in omega arith
                  ]
            | inr (i_past, a) ↦
                let lx = below _ x (omega arith) p in
                elim (wrap (start_from file_id nodes 0) j (length nodes) (omega arith)
                  (omega arith)) [
                    | inl (j_before, b) ↦ absurd (omega arith)
                    | inr (j_past, b) ↦
                        let ly = below _ y (omega arith) q in
                        let xy = sorted_at nodes _ _ s (omega arith) p q in omega arith
                  ]
          ]
    ]

-- On a ring that is sorted by id and has at least `num` nodes, `num` nodes of it are returned, in
-- the order of their clockwise distance from the file; and any node of the ring is one of them, or at
-- least as far as each of them.
pub get_successor-nearest :
    (file_id : ℕ) (nodes : List NodeInfo) (num : ℕ)
    → file_id < 2 ^ 32
    → All (λ n. n.node_id < 2 ^ 32) nodes
    → IsSortedBy ids nodes
    → 0 < length nodes
    → num ≤ length nodes
    → (rs : List NodeInfo) × (get_successor file_id nodes num ≡ some rs)
      × (length rs ≡ num)
      × ((i : ℕ) (x : NodeInfo) → get_elem? rs i ≡ some x → (a : ℕ) × (get_elem? nodes a ≡ some x))
      × ((i j : ℕ) (x y : NodeInfo)
          → i ≤ j
          → get_elem? rs i ≡ some x
          → get_elem? rs j ≡ some y
          → distance file_id x ≤ distance file_id y)
      × ((a i : ℕ) (x y : NodeInfo)
          → get_elem? nodes a ≡ some y
          → get_elem? rs i ≡ some x
          → ((j : ℕ) × (get_elem? rs j ≡ some y)) ⊎ (distance file_id x ≤ distance file_id y))
unfolding get_successor
get_successor-nearest file_id nodes num f small s h few =
    let (rs, w, l, at) = walk_lem nodes (start_from file_id nodes 0) num h in
    (
      rs,
      w,
      l,
      (λ i x p. let i_lt = lt-of_get_elem? rs i p in (_, sym (at i (omega arith)) ∙ p)),
      (λ i j x y le p q.
          let i_lt = lt-of_get_elem? rs i p in
          let j_lt = lt-of_get_elem? rs j q in
          distance_mono file_id nodes i j f small s le (omega arith) (sym (at i (omega arith)) ∙ p)
            (sym (at j (omega arith)) ∙ q)),
      (λ a i x y q p.
          let a_lt = lt-of_get_elem? nodes a q in
          let i_lt = lt-of_get_elem? rs i p in
          let (j, j_lt, e) =
            reach (start_from file_id nodes 0) a (length nodes) (start_lt file_id nodes h) a_lt in
          let there = ap (get_elem? nodes) e ∙ q in
          elim (dec_lt j num) [
            | yes near ↦ inl (j, at j near ∙ there)
            | no far ↦ inr (
                distance_mono file_id nodes i j f small s (omega arith) j_lt
                  (sym (at i (omega arith)) ∙ p) there)
          ]),
    )
