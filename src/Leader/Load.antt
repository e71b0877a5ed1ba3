-- ===== src/Leader/Load.antt =====
-- `getLeastLoadedWorker`.
use mathlib.Core.List.Memᴰ.{Memᴰ, head, tail}
use event_stream_rainstorm.Prelude.{
  ℕ, ◌≤◌, ◌<◌, ◌≡◌, refl, sym, subst, true, false, List, [], ◌∷◌, All, All-imp, ltb, inl, inr,
  Bool-cases, arith,
}
use event_stream_rainstorm.Prelude.Text.{Text, text_eq}
use event_stream_rainstorm.Leader.{Leader, values, vm_load, find_min, get_least_loaded_worker}

find_min-le :
    (load : Text → ℕ) (m : ℕ) (best : Text) (addrs : List Text)
    → load best ≡ m
    → load (find_min load m best addrs) ≤ m
unfolding find_min
find_min-le load m best [] e = omega arith
find_min-le load m best (a ∷ addrs) e = elim (Bool-cases (ltb (load a) m)) [
  | inl h ↦ rw h (ground (arith, find_min-le load (load a) a addrs refl))
  | inr h ↦ rw h (find_min-le load m best addrs e)
]

find_min-smaller :
    (load : Text → ℕ) (m : ℕ) (best a : Text) (addrs : List Text)
    → ltb (load a) m ≡ true
    → find_min load m best (a ∷ addrs) ≡ find_min load (load a) a addrs
unfolding find_min
find_min-smaller load m best a addrs h = rw h refl

find_min-not_smaller :
    (load : Text → ℕ) (m : ℕ) (best a : Text) (addrs : List Text)
    → ltb (load a) m ≡ false
    → find_min load m best (a ∷ addrs) ≡ find_min load m best addrs
unfolding find_min
find_min-not_smaller load m best a addrs h = rw h refl

-- No address of the list has a smaller load than `r`.
abbrev pub IsLeast : (Text → ℕ) → List Text → Text → Type 0
IsLeast load addrs r = All (λ a. load r ≤ load a) addrs

find_min-IsLeast :
    (load : Text → ℕ) (m : ℕ) (best : Text) (addrs : List Text)
    → load best ≡ m
    → IsLeast load addrs (find_min load m best addrs)
find_min-IsLeast load m best [] e = tt
find_min-IsLeast load m best (a ∷ addrs) e = elim (Bool-cases (ltb (load a) m)) [
  | inl h ↦
      subst (IsLeast load (a ∷ addrs)) (sym (find_min-smaller load m best a addrs h))
        (find_min-le load (load a) a addrs refl, find_min-IsLeast load (load a) a addrs refl)
  | inr h ↦
      let le = find_min-le load m best addrs e in
      subst (IsLeast load (a ∷ addrs)) (sym (find_min-not_smaller load m best a addrs h))
        (ground arith, find_min-IsLeast load m best addrs e)
]

find_min-mem :
    (load : Text → ℕ) (m : ℕ) (best : Text) (addrs all : List Text)
    → Memᴰ best all
    → All (λ a. Memᴰ a all) addrs
    → Memᴰ (find_min load m best addrs) all
unfolding find_min
find_min-mem load m best [] all b h = b
find_min-mem load m best (a ∷ addrs) all b h = elim (Bool-cases (ltb (load a) m)) [
  | inl e ↦ rw e (find_min-mem load (load a) a addrs all h.0 h.1)
  | inr e ↦ rw e (find_min-mem load m best addrs all b h.1)
]

all_mem : (ts : List Text) → All (λ a. Memᴰ a ts) ts
all_mem [] = tt
all_mem (a ∷ ts) = (head refl, All-imp _ _ (λ b m. tail m) ts (all_mem ts))

-- The number of tasks on a machine.
abbrev pub tasks_on : Leader → Text → ℕ
tasks_on leader addr = vm_load addr (values leader.global_task_map)

least_step :
    (addr : Text) (addrs : List Text) (leader : Leader)
    → tasks_on leader addr < 999999
    → get_least_loaded_worker (addr ∷ addrs) leader
      ≡ find_min (tasks_on leader) (tasks_on leader addr) addr addrs
unfolding get_least_loaded_worker
least_step addr addrs leader h =
    find_min-smaller (tasks_on leader) 999999 addr addr addrs (ground arith)

-- The worker that scaling up chooses is alive, and no live worker hosts fewer tasks, when the first
-- live worker hosts fewer than 999999.
pub get_least_loaded_worker-IsLeast :
    (addr : Text) (addrs : List Text) (leader : Leader)
    → tasks_on leader addr < 999999
    → Memᴰ (get_least_loaded_worker (addr ∷ addrs) leader) (addr ∷ addrs)
      × IsLeast (tasks_on leader) (addr ∷ addrs) (get_least_loaded_worker (addr ∷ addrs) leader)
get_least_loaded_worker-IsLeast addr addrs leader h =
    let load = tasks_on leader in
    subst (λ r. Memᴰ r (addr ∷ addrs) × IsLeast load (addr ∷ addrs) r)
      (sym (least_step addr addrs leader h))
      (
        find_min-mem load (load addr) addr addrs (addr ∷ addrs) (head refl)
            (all_mem (addr ∷ addrs)).1,
        (
          find_min-le load (load addr) addr addrs refl,
          find_min-IsLeast load (load addr) addr addrs refl,
        ),
      )
