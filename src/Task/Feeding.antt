-- ===== src/Task/Feeding.antt =====
-- What a step of `PushTuple` gives to the operator: tuples that are new, each of which is marked.
use mathlib.Core.List.{append_assoc, append-nil, map-append}
use event_stream_rainstorm.Prelude.{
  ℕ, ◌≡◌, refl, sym, ap, ◌∙◌, ◌≢◌, ◌⊎◌, inl, inr, Bool, true, false, ◌||◌, List, [], ◌∷◌, ◌++◌, map,
  All, All-append, All-imp, nat_eq, ==_refl, ◌==◌, if◌then◌else◌, Bool-cases, arith,
}
use event_stream_rainstorm.Prelude.Dict.{get, get-put}
use event_stream_rainstorm.Prelude.Text.{Text, text_eq}
use event_stream_rainstorm.Task.{
  StreamTuple, RainStormTask, Worker, World, flag, success, processed, input_line, logged, accepted,
  push_one,
}

-- No id stands twice.
abbrev pub IsDistinct : List StreamTuple → Type 0
IsDistinct [] = Unit
IsDistinct (t ∷ ts) = All (λ (u : StreamTuple). t.message_id ≢ u.message_id) ts × IsDistinct ts

IsDistinct-append :
    (xs ys : List StreamTuple)
    → IsDistinct xs
    → IsDistinct ys
    → All (λ x. All (λ (y : StreamTuple). x.message_id ≢ y.message_id) ys) xs
    → IsDistinct (xs ++ ys)
IsDistinct-append [] ys dx dy h = dy
IsDistinct-append (x ∷ xs) ys dx dy h =
    (All-append _ xs ys dx.0 h.0, IsDistinct-append xs ys dx.1 dy h.1)

-- A tuple of the list has the id.
unfoldable pub has_id : Text → List StreamTuple → Bool
has_id id [] = false
has_id id (t ∷ ts) = if t.message_id == id then true else has_id id ts

pub has_id-append :
    (id : Text) (xs ys : List StreamTuple) → has_id id (xs ++ ys) ≡ (has_id id xs || has_id id ys)
unfolding has_id
has_id-append id [] ys = refl
has_id-append id (x ∷ xs) ys = ground (arith, has_id-append id xs ys)

bool_absurd : (b : Bool) → b ≡ true → b ≡ false → ⊥
bool_absurd b e f = ground arith

pub or_false : (b : Bool) → (b || false) ≡ b
or_false true = refl
or_false false = refl

or_assoc : (a b c : Bool) → ((a || b) || c) ≡ (a || (b || c))
or_assoc true b c = refl
or_assoc false b c = refl

pub or_left : (b c : Bool) → b ≡ true → (b || c) ≡ true
or_left b c e = rw (e)

-- `s` is fed to the operator between `a` and `b`: it is written, tuple by tuple, each for the first
-- time, and is marked.
pub record Fed (a b : RainStormTask) (s : List StreamTuple) : Type 0 where
  pub written : b.stdin ≡ a.stdin ++ map (λ (t : StreamTuple). input_line t.value) s
  pub distinct : IsDistinct s
  pub fresh : All (λ (t : StreamTuple). processed t.message_id a ≡ false) s
  pub marked : All (λ (t : StreamTuple). processed t.message_id b ≡ true) s
  pub marks : (id : Text) → processed id b ≡ (processed id a || has_id id s)

pub processed-accepted :
    (t : StreamTuple) (w : Worker) (id : Text)
    → processed id (accepted t w).task ≡ (if t.message_id == id then true else processed id w.task)
unfolding processed
processed-accepted t w id = simp get-put (ground arith)

-- Either nothing is written and nothing is marked, or the tuple is accepted, which was not marked.
pub push_one_cases :
    (world : World) (i : ℕ) (t : StreamTuple) (w : Worker)
    → (((push_one world i t w).1.task.stdin ≡ w.task.stdin)
        × ((push_one world i t w).1.task.processed_ids ≡ w.task.processed_ids))
      ⊎ ((processed t.message_id w.task ≡ false)
          × (push_one world i t w ≡ (success, accepted t (logged t w))))
unfolding push_one
push_one_cases world i t w = ground arith

pub Fed-refl :
    (a b : RainStormTask) → b.stdin ≡ a.stdin → b.processed_ids ≡ a.processed_ids → Fed a b []
unfolding processed has_id
Fed-refl a b e p = record {
  written = e ∙ sym (append-nil _);
  distinct = tt;
  fresh = tt;
  marked = tt;
  marks = λ id. ap (λ d. flag (get id d)) p ∙ sym (or_false _);
}

pub Fed-trans :
    (a b c : RainStormTask) (xs ys : List StreamTuple)
    → Fed a b xs
    → Fed b c ys
    → Fed a c (xs ++ ys)
Fed-trans a b c xs ys f g = record {
  written =
      g.written
      ∙ ap (λ l. l ++ map (λ (t : StreamTuple). input_line t.value) ys) f.written
      ∙ append_assoc a.stdin _ _
      ∙ ap (λ l. a.stdin ++ l) (sym (map-append _ xs ys));
  distinct = IsDistinct-append xs ys f.distinct g.distinct (
      All-imp _ _
        (λ x m.
          All-imp _ _ (λ y n. λ e. bool_absurd _ m (ap (λ i. processed i b) e ∙ n)) ys g.fresh)
        xs f.marked);
  fresh = All-append _ xs ys f.fresh (
      All-imp _ _
        (λ y n. elim (Bool-cases (processed y.message_id a)) [
          | inl e ↦ elim (bool_absurd _ (f.marks _ ∙ or_left _ _ e) n) [ ]
          | inr e ↦ e
        ])
        ys g.fresh);
  marked = All-append _ xs ys (All-imp _ _ (λ x m. g.marks _ ∙ or_left _ _ m) xs f.marked) g.marked;
  marks = λ id.
      g.marks id
      ∙ ap (λ m. m || has_id id ys) (f.marks id)
      ∙ or_assoc (processed id a) _ _
      ∙ ap (λ m. processed id a || m) (sym (has_id-append id xs ys));
}

pub accepted-marks :
    (t : StreamTuple) (w : Worker) (id : Text)
    → processed id (accepted t (logged t w)).task ≡ (processed id w.task || has_id id (t ∷ []))
unfolding has_id
accepted-marks t w id = processed-accepted t w id ∙ ground arith

pub accepted-Fed :
    (t : StreamTuple) (w : Worker)
    → processed t.message_id w.task ≡ false
    → Fed w.task (accepted t (logged t w)).task (t ∷ [])
unfolding has_id
accepted-Fed t w f = record {
  written = refl;
  distinct = (tt, tt);
  fresh = (f, tt);
  marked = (processed-accepted t w _ ∙ rw (==_refl t.message_id), tt);
  marks = accepted-marks t w;
}
