-- ===== src/Membership/Timeout.antt =====
-- `TimeOutCheck`: which members it moves on, deletes and reports.
use event_stream_rainstorm.Prelude.{
  ℕ, ◌≡◌, refl, sym, ◌∙◌, inl, inr, Bool, true, false, Option, none, some, List, [], ◌∷◌,
  Option-cases, nat_eq, ==_refl, ◌==◌, if◌then◌else◌, arith,
}
use event_stream_rainstorm.Prelude.Dict.{
  Dict, IsMap, get, remove, map_values, get-remove, get-map_values, remove-IsMap,
}
use event_stream_rainstorm.Prelude.Text.{Text, text_eq, text_beq_iff}
use event_stream_rainstorm.Member.{Member}
use event_stream_rainstorm.Membership.{
  MemberList, Protocol, Suspicion, to_delete, age, delete_ids, remove_all, time_out_check,
}

-- A member list is keyed by the ids of its members.
abbrev pub IsKeyed : Dict Text Member → Type 0
IsKeyed d = (k : Text) (m : Member) → get k d ≡ some m → m.id ≡ k

IsKeyed-tail :
    (j : Text) (m : Member) (d : Dict Text Member)
    → IsMap ((j, m) ∷ d)
    → IsKeyed ((j, m) ∷ d)
    → IsKeyed d
IsKeyed-tail j m d u keyed k n g =
    keyed k n (unfold get in ground (arith, g, u.0, text_beq_iff j k))

abbrev contains : Text → List Text → Bool
contains k [] = false
contains k (j ∷ js) = if j == k then true else contains k js

get-remove_all :
    (ks : List Text) (k : Text) (d : Dict Text Member)
    → get k (remove_all ks d) ≡ (if contains k ks then none else get k d)
unfolding remove_all
get-remove_all [] k d = refl
get-remove_all (j ∷ js) k d = ground (arith, get-remove_all js k (remove j d), get-remove j k d)

abbrev deleted : Protocol → Suspicion → ℕ → Option Member → Bool
deleted protocol suspicion now none = false
deleted protocol suspicion now (some m) = to_delete protocol suspicion now m

contains-delete_ids :
    (protocol : Protocol) (suspicion : Suspicion) (now : ℕ) (d : Dict Text Member) (k : Text)
    → IsMap d
    → IsKeyed d
    → contains k (delete_ids protocol suspicion now d) ≡ deleted protocol suspicion now (get k d)
unfolding delete_ids get
contains-delete_ids protocol suspicion now [] k u keyed = refl
contains-delete_ids protocol suspicion now ((j, m) ∷ d) k u keyed =
    let head : m.id ≡ j = keyed j m (unfold get in rw (==_refl j) refl) in
    let rest = contains-delete_ids protocol suspicion now d k u.1 (IsKeyed-tail j m d u keyed) in
    ground (arith, head, rest, text_beq_iff j k, text_beq_iff m.id k, u.0)

-- After a check, a member that had failed and whose time had run out is gone; every other is there
-- as its own timeouts left it, and nobody else is.
abbrev checked : Protocol → Suspicion → ℕ → Option Member → Option Member
checked protocol suspicion now none = none
checked protocol suspicion now (some m) =
    if to_delete protocol suspicion now m then none else some (age protocol suspicion now m).1

pub get-time_out_check :
    (ml : MemberList) (protocol : Protocol) (suspicion : Suspicion) (now : ℕ) (k : Text)
    → IsMap ml.memberlist
    → IsKeyed ml.memberlist
    → get k (time_out_check ml protocol suspicion now).1.memberlist
      ≡ checked protocol suspicion now (get k ml.memberlist)
unfolding time_out_check
get-time_out_check ml protocol suspicion now k u keyed =
    get-remove_all (delete_ids protocol suspicion now ml.memberlist) k _
    ∙ rw (contains-delete_ids protocol suspicion now ml.memberlist k u keyed) (
        ground (
          arith,
          get-map_values {K = Text} (λ k (m : Member). (age protocol suspicion now m).1) k
              ml.memberlist,
        ))

pub map_values-IsMap :
    (f : Text → Member → Member) (d : Dict Text Member) → IsMap d → IsMap (map_values f d)
unfolding map_values
map_values-IsMap f [] u = tt
map_values-IsMap f ((k, m) ∷ d) u = (rw (get-map_values f k d, u.0) refl, map_values-IsMap f d u.1)

remove_all-IsMap : (ks : List Text) (d : Dict Text Member) → IsMap d → IsMap (remove_all ks d)
unfolding remove_all
remove_all-IsMap [] d u = u
remove_all-IsMap (k ∷ ks) d u = remove_all-IsMap ks (remove k d) (remove-IsMap k d u)

pub time_out_check-IsMap :
    (ml : MemberList) (protocol : Protocol) (suspicion : Suspicion) (now : ℕ)
    → IsMap ml.memberlist
    → IsMap (time_out_check ml protocol suspicion now).1.memberlist
unfolding time_out_check
time_out_check-IsMap ml protocol suspicion now u =
    remove_all-IsMap (delete_ids protocol suspicion now ml.memberlist) _
      (map_values-IsMap (λ k m. (age protocol suspicion now m).1) ml.memberlist u)

pub age_id :
    (protocol : Protocol) (suspicion : Suspicion) (now : ℕ) (m : Member)
    → (age protocol suspicion now m).1.id ≡ m.id
unfolding age
age_id protocol suspicion now m = ground arith

pub time_out_check-IsKeyed :
    (ml : MemberList) (protocol : Protocol) (suspicion : Suspicion) (now : ℕ)
    → IsMap ml.memberlist
    → IsKeyed ml.memberlist
    → IsKeyed (time_out_check ml protocol suspicion now).1.memberlist
time_out_check-IsKeyed ml protocol suspicion now u keyed k n g =
    let e = sym (get-time_out_check ml protocol suspicion now k u keyed) ∙ g in
    elim (Option-cases (get k ml.memberlist)) [
      | inl p ↦ ground (arith, e, p)
      | inr (m, p) ↦ ground (arith, e, p, keyed k m p, age_id protocol suspicion now m)
    ]
