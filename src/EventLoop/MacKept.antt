-- ===== src/EventLoop/MacKept.antt =====
-- The registrations of the other descriptors, when the entry of one changes, on macOS
-- (include/coro_epoll/event_loop.hpp).
use cpp_coroutine_epoll.Common.{
  ℕ, ◌≡◌, ◌≢◌, inl, inr, subst, ◌∙◌, Bool, none, some, sym, List, [], arith, find, put, erase,
  find-put, find-erase, ◌⊎◌,
}
use cpp_coroutine_epoll.EventLoop.State.{FdState}
use cpp_coroutine_epoll.EventLoop.Kqueue.{
  Filter, filter_read, filter_write, Kqueue, MacLoop, delete_both,
}
use cpp_coroutine_epoll.EventLoop.MacLoop.{update_both}
use cpp_coroutine_epoll.EventLoop.Filters.{
  Matches, Unregistered, update_both-elsewhere, delete_both-elsewhere,
}

-- What `put` and `erase` leave of a lookup.
pub put_cases :
    (fd j : ℕ) (st s : FdState) (states : List (ℕ × FdState))
    → find j (put fd st states) ≡ some s
    → ((fd ≡ j) × (st ≡ s)) ⊎ ((fd ≢ j) × (find j states ≡ some s))
put_cases fd j st s states found = ground (arith, find-put fd j st states)

pub erase_cases :
    (fd j : ℕ) (s : FdState) (states : List (ℕ × FdState))
    → find j (erase fd states) ≡ some s
    → (fd ≢ j) × (find j states ≡ some s)
erase_cases fd j s states found = ground (arith, find-erase fd j states)

put_absent :
    (fd j : ℕ) (st : FdState) (states : List (ℕ × FdState))
    → find j (put fd st states) ≡ none
    → (fd ≢ j) × (find j states ≡ none)
put_absent fd j st states absent = ground (arith, find-put fd j st states)

erase_absent :
    (fd j : ℕ) (states : List (ℕ × FdState))
    → find j (erase fd states) ≡ none
    → (fd ≡ j) ⊎ ((fd ≢ j) × (find j states ≡ none))
erase_absent fd j states absent = ground (arith, find-erase fd j states)

pub nothing_found : (j : ℕ) (s : FdState) → find j [] ≡ some s → ⊥
unfolding find
nothing_found j s found = cc

module _ (kqueue : Kqueue) where
  -- Every entry of the table matches the registrations of its descriptor, and a descriptor without an
  -- entry, other than the read end of the pipe, has none.
  abbrev pub AllMatch : MacLoop kqueue → Type 0
  AllMatch l =
      ((j : ℕ) (s : FdState)
        → find j l.states ≡ some s
        → Matches kqueue l.kernel j s s.edge_trigger)
      × ((j : ℕ) → j ≢ l.wakeup_read_fd → find j l.states ≡ none → Unregistered kqueue l.kernel j)

  -- An entry elsewhere is as it was.
  pub Matches-elsewhere :
      (j : ℕ) (s : FdState) (k k' : kqueue.Kernel)
      → ((g : Filter) → kqueue.filters k' j g ≡ kqueue.filters k j g)
      → Matches kqueue k j s s.edge_trigger
      → Matches kqueue k' j s s.edge_trigger
  Matches-elsewhere j s k k' same (reading, writing) =
      (same filter_read ∙ reading, same filter_write ∙ writing)

  Unregistered-elsewhere :
      (j : ℕ) (k k' : kqueue.Kernel)
      → ((g : Filter) → kqueue.filters k' j g ≡ kqueue.filters k j g)
      → Unregistered kqueue k j
      → Unregistered kqueue k' j
  Unregistered-elsewhere j k k' same (reading, writing) =
      (same filter_read ∙ reading, same filter_write ∙ writing)

  -- The entries of `states` but that of `fd` are those of `l`, and registered in `k'` as there.
  pub record Kept (fd : ℕ) (k' : kqueue.Kernel) (states : List (ℕ × FdState)) (l : MacLoop kqueue)
      : Type 0 where
    pub old : (j : ℕ) → fd ≢ j → find j states ≡ find j l.states
    pub same : (j : ℕ) (g : Filter) → fd ≢ j → kqueue.filters k' j g ≡ kqueue.filters l.kernel j g

  pub put-AllMatch :
      (fd : ℕ) (st : FdState) (k' : kqueue.Kernel) (states : List (ℕ × FdState))
      (l : MacLoop kqueue)
      → AllMatch l
      → Kept fd k' states l
      → Matches kqueue k' fd st st.edge_trigger
      → AllMatch (record l { kernel = k'; states = put fd st states })
  put-AllMatch fd st k' states l inv kept here = (
    λ j s found. elim (put_cases fd j st s states found) [
      | inl (same, is) ↦
          subst (λ i. Matches kqueue k' i s s.edge_trigger) same
            (subst (λ x. Matches kqueue k' fd x x.edge_trigger) is here)
      | inr (apart, there) ↦
          Matches-elsewhere j s l.kernel k' (λ g. kept.same j g apart)
            (inv.0 j s (sym (kept.old j apart) ∙ there))
    ],
    λ j other absent.
        let (apart, before) = put_absent fd j st states absent in
        Unregistered-elsewhere j l.kernel k' (λ g. kept.same j g apart)
          (inv.1 j other (sym (kept.old j apart) ∙ before)),
  )

  pub erase-AllMatch :
      (fd : ℕ) (k' : kqueue.Kernel) (states : List (ℕ × FdState)) (l : MacLoop kqueue)
      → AllMatch l
      → Kept fd k' states l
      → Unregistered kqueue k' fd
      → AllMatch (record l { kernel = k'; states = erase fd states })
  erase-AllMatch fd k' states l inv kept gone = (
    λ j s found.
        let (apart, there) = erase_cases fd j s states found in
        Matches-elsewhere j s l.kernel k' (λ g. kept.same j g apart)
          (inv.0 j s (sym (kept.old j apart) ∙ there)),
    λ j other absent. elim (erase_absent fd j states absent) [
      | inl same ↦ subst (Unregistered kqueue k') same gone
      | inr (apart, before) ↦
          Unregistered-elsewhere j l.kernel k' (λ g. kept.same j g apart)
            (inv.1 j other (sym (kept.old j apart) ∙ before))
    ],
  )

  pub put_old :
      (fd : ℕ) (st : FdState) (l : MacLoop kqueue) (j : ℕ)
      → fd ≢ j
      → find j (put fd st l.states) ≡ find j l.states
  put_old fd st l j apart = ground (arith, find-put fd j st l.states)

  pub update-Kept :
      (fd : ℕ) (st : FdState) (et : Bool) (l : MacLoop kqueue)
      → Kept fd (update_both kqueue fd st et l.kernel).1 (put fd st l.states) l
  update-Kept fd st et l = record {
    old = put_old fd st l;
    same = λ j g apart. update_both-elsewhere kqueue fd st et l.kernel j g apart;
  }

  pub delete-Kept :
      (fd : ℕ) (states : List (ℕ × FdState)) (l : MacLoop kqueue)
      → ((j : ℕ) → fd ≢ j → find j states ≡ find j l.states)
      → Kept fd (delete_both kqueue fd l.kernel) states l
  delete-Kept fd states l old = record {
    old = old;
    same = λ j g apart. delete_both-elsewhere kqueue fd l.kernel j g apart;
  }
