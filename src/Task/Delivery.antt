-- ===== src/Task/Delivery.antt =====
-- `PushTuple` under retries, lost replies and failing writes: what reaches the operator.
use mathlib.Core.List.{append_assoc, append-nil}
use mathlib.Core.List.Memᴰ.{Memᴰ, head, append_left, append_right}
use event_stream_rainstorm.Prelude.{
  ℕ, ◌+◌, ◌≡◌, refl, sym, ap, subst, ◌∙◌, ◌⊎◌, inl, inr, List, [], ◌∷◌, ◌++◌, All, All-append,
  All-imp, nat_eq, arith,
}
use event_stream_rainstorm.Prelude.Text.{Text, text_eq}
use event_stream_rainstorm.Task.{
  StreamTuple, Worker, World, Reply, success, failure, Error, log_content, push_one, push_tuples,
  pushes,
}
use event_stream_rainstorm.Task.Feeding.{Fed, push_one_cases, Fed-refl, Fed-trans, accepted-Fed}

pub Reply-cases : (r : Reply) → (r ≡ success) ⊎ ((e : Error) × (r ≡ failure e))
Reply-cases success = inl refl
Reply-cases (failure e) = inr (e, refl)

-- Every tuple of the list is in the other.
abbrev pub IsWithin : List StreamTuple → List StreamTuple → Type 0
IsWithin s ts = All (λ t. Memᴰ t ts) s

IsWithin-left : (s xs ys : List StreamTuple) → IsWithin s xs → IsWithin s (xs ++ ys)
IsWithin-left s xs ys h = All-imp _ _ (λ t m. append_left ys m) s h

IsWithin-right : (s xs ys : List StreamTuple) → IsWithin s ys → IsWithin s (xs ++ ys)
IsWithin-right s xs ys h = All-imp _ _ (λ t m. append_right xs m) s h

-- The lines of tuples in the dedup log.
unfoldable pub log_of : List StreamTuple → Text
log_of [] = []
log_of (t ∷ ts) = log_content t.message_id t.value ++ log_of ts

pub log_of-append : (xs ys : List StreamTuple) → log_of (xs ++ ys) ≡ log_of xs ++ log_of ys
unfolding log_of
log_of-append [] ys = refl
log_of-append (t ∷ xs) ys =
    ap (λ l. log_content t.message_id t.value ++ l) (log_of-append xs ys)
    ∙ sym (append_assoc (log_content t.message_id t.value) _ _)

-- What a part of a run feeds to the operator and what it writes to the log, out of what it was sent.
pub record Feeds (w w' : Worker) (sent : List StreamTuple) : Type 0 where
  pub tuples : List StreamTuple
  pub lines : List StreamTuple
  pub fed : Fed w.task w'.task tuples
  pub log_grows : w'.log ≡ w.log ++ log_of lines
  pub log_first : IsWithin tuples lines
  pub was_sent : IsWithin lines sent

Feeds-refl : (w : Worker) (sent : List StreamTuple) → Feeds w w sent
unfolding log_of
Feeds-refl w sent = record {
  tuples = [];
  lines = [];
  fed = Fed-refl _ _ refl refl;
  log_grows = sym (append-nil _);
  log_first = tt;
  was_sent = tt;
}

Feeds-trans :
    (a b c : Worker) (xs ys : List StreamTuple) → Feeds a b xs → Feeds b c ys → Feeds a c (xs ++ ys)
Feeds-trans a b c xs ys f g = record {
  tuples = f.tuples ++ g.tuples;
  lines = f.lines ++ g.lines;
  fed = Fed-trans _ _ _ f.tuples g.tuples f.fed g.fed;
  log_grows =
      g.log_grows
      ∙ ap (λ l. l ++ log_of g.lines) f.log_grows
      ∙ append_assoc a.log _ _
      ∙ ap (λ l. a.log ++ l) (sym (log_of-append f.lines g.lines));
  log_first =
      All-append _ f.tuples g.tuples (IsWithin-left f.tuples f.lines g.lines f.log_first)
        (IsWithin-right g.tuples f.lines g.lines g.log_first);
  was_sent =
      All-append _ f.lines g.lines (IsWithin-left f.lines xs ys f.was_sent)
        (IsWithin-right g.lines xs ys g.was_sent);
}

Feeds-left : (a b : Worker) (xs ys : List StreamTuple) → Feeds a b xs → Feeds a b (xs ++ ys)
Feeds-left a b xs ys f = record {
  tuples = f.tuples;
  lines = f.lines;
  fed = f.fed;
  log_grows = f.log_grows;
  log_first = f.log_first;
  was_sent = IsWithin-left f.lines xs ys f.was_sent;
}

push_one_log_cases :
    (world : World) (i : ℕ) (t : StreamTuple) (w : Worker)
    → ((push_one world i t w).1.log ≡ w.log)
      ⊎ ((push_one world i t w).1.log ≡ w.log ++ log_content t.message_id t.value)
unfolding push_one
push_one_log_cases world i t w = ground arith

push_one-Feeds :
    (world : World) (i : ℕ) (t : StreamTuple) (w : Worker)
    → Feeds w (push_one world i t w).1 (t ∷ [])
unfolding log_of
push_one-Feeds world i t w = elim (push_one_cases world i t w) [
  | inl (e, p) ↦ elim (push_one_log_cases world i t w) [
    | inl l ↦ record {
      tuples = [];
      lines = [];
      fed = Fed-refl _ _ e p;
      log_grows = l ∙ sym (append-nil _);
      log_first = tt;
      was_sent = tt;
    }
    | inr l ↦ record {
      tuples = [];
      lines = t ∷ [];
      fed = Fed-refl _ _ e p;
      log_grows = l ∙ ap (λ x. w.log ++ x) (sym (append-nil _));
      log_first = tt;
      was_sent = (head refl, tt);
    }
  ]
  | inr (f, e) ↦
      subst (λ p. Feeds w p.1 (t ∷ [])) (sym e)
        (record {
          tuples = t ∷ [];
          lines = t ∷ [];
          fed = accepted-Fed t w f;
          log_grows = ap (λ x. w.log ++ x) (sym (append-nil _));
          log_first = (head refl, tt);
          was_sent = (head refl, tt);
        })
]

pub push_tuples-next :
    (world : World) (i : ℕ) (t : StreamTuple) (ts : List StreamTuple) (w : Worker)
    → (push_one world i t w).0 ≡ success
    → push_tuples world i (t ∷ ts) w ≡ push_tuples world (i + 1) ts (push_one world i t w).1
unfolding push_tuples
push_tuples-next world i t ts w e = ground arith

pub push_tuples-stop :
    (world : World) (i : ℕ) (t : StreamTuple) (ts : List StreamTuple) (w : Worker) (x : Error)
    → (push_one world i t w).0 ≡ failure x
    → push_tuples world i (t ∷ ts) w ≡ (failure x, (push_one world i t w).1)
unfolding push_tuples
push_tuples-stop world i t ts w x e = ground arith

pub push_tuples-Feeds :
    (world : World) (i : ℕ) (ts : List StreamTuple) (w : Worker)
    → Feeds w (push_tuples world i ts w).1 ts
unfolding push_tuples
push_tuples-Feeds world i [] w = Feeds-refl w []
push_tuples-Feeds world i (t ∷ ts) w =
    let first = push_one-Feeds world i t w in
    let w' = (push_one world i t w).1 in
    elim (Reply-cases (push_one world i t w).0) [
      | inl e ↦
          subst (λ p. Feeds w p.1 (t ∷ ts)) (sym (push_tuples-next world i t ts w e))
            (Feeds-trans w w' (push_tuples world (i + 1) ts w').1 (t ∷ []) ts first
              (push_tuples-Feeds world (i + 1) ts w'))
      | inr (x, e) ↦
          subst (λ p. Feeds w p.1 (t ∷ ts)) (sym (push_tuples-stop world i t ts w x e))
            (Feeds-left w w' (t ∷ []) ts first)
    ]

-- All tuples sent in the calls.
unfoldable pub sent : List (World × List StreamTuple) → List StreamTuple
sent [] = []
sent ((world, ts) ∷ calls) = ts ++ sent calls

-- Over any calls, with any failures, the operator gets a sequence of tuples of distinct ids, none
-- marked before; the ids that are marked in the end are those marked before and those of this
-- sequence. The dedup log grows by lines of tuples that were sent, those of the sequence among them.
pub pushes-exactly_once :
    (calls : List (World × List StreamTuple)) (w : Worker) → Feeds w (pushes calls w) (sent calls)
unfolding pushes sent
pushes-exactly_once [] w = Feeds-refl w []
pushes-exactly_once ((world, ts) ∷ calls) w =
    let w' = (push_tuples world 0 ts w).1 in
    Feeds-trans w w' (pushes calls w') ts (sent calls) (push_tuples-Feeds world 0 ts w)
      (pushes-exactly_once calls w')
