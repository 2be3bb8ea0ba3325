-- ===== src/SpaceWatcher/Counts.antt =====
-- The watches that are counted and the watches that there are.
use spacedisplay.Common.{
  ℕ, ◌+◌, ◌≡◌, refl, subst, some_inj, inl, inr, Bool, true, false, none, some, List, [], ◌∷◌,
  length, ltb, ◌==◌, Bool-cases, Option-cases, List-cases, arith, Str,
}
use spacedisplay.SpaceWatcher.{pop_event, add_event, count_dir, uncount_dir}
use spacedisplay.SpaceWatcher.Linux.{
  LinuxSpaceWatcher, AddWatch, watch, no_space, failed, InotifyEvent, find_wd, set_wd, erase_wd,
  add_dir, process_inotify_event, read_events, create, action_of,
}

length-set_wd-none :
    (wd : ℕ) (path : Str) (wds : List (ℕ × Str))
    → find_wd wd wds ≡ none
    → length (set_wd wd path wds) ≡ length wds + 1
unfolding find_wd set_wd
length-set_wd-none wd path [] e = refl
length-set_wd-none wd path ((k, p) ∷ wds) e = ground (arith, length-set_wd-none wd path wds)

length-set_wd-some :
    (wd : ℕ) (path old : Str) (wds : List (ℕ × Str))
    → find_wd wd wds ≡ some old
    → length (set_wd wd path wds) ≡ length wds
unfolding find_wd set_wd
length-set_wd-some wd path old [] e = cc
length-set_wd-some wd path old ((k, p) ∷ wds) e = ground (arith, length-set_wd-some wd path old wds)

length-erase_wd :
    (wd : ℕ) (path : Str) (wds : List (ℕ × Str))
    → find_wd wd wds ≡ some path
    → length (erase_wd wd wds) + 1 ≡ length wds
unfolding find_wd erase_wd
length-erase_wd wd path [] e = cc
length-erase_wd wd path ((k, p) ∷ wds) e = ground (arith, length-erase_wd wd path wds)

abbrev pub IsCounted : LinuxSpaceWatcher → Type 0
IsCounted w = w.base.watched_dir_count ≡ length w.inotify_wds

add_dir-IsCounted :
    (answer : AddWatch) (path : Str) (w : LinuxSpaceWatcher)
    → IsCounted w
    → IsCounted (add_dir answer path w).0
unfolding add_dir count_dir
add_dir-IsCounted no_space path w c = c
add_dir-IsCounted failed path w c = c
add_dir-IsCounted (watch wd) path w c = elim (Option-cases (find_wd wd w.inotify_wds)) [
  | inl e ↦
      rw (e, add_dir, count_dir) (omega (arith, c, length-set_wd-none wd path w.inotify_wds e))
  | inr (old, e) ↦
      rw (e, add_dir) (omega (arith, c, length-set_wd-some wd path old w.inotify_wds e))
]

process_inotify_event-IsCounted :
    (e : InotifyEvent) (w : LinuxSpaceWatcher) → IsCounted w → IsCounted (process_inotify_event e w)
unfolding process_inotify_event uncount_dir add_event
process_inotify_event-IsCounted e w c = elim (Bool-cases e.mask.ignored) [
  | inl gone ↦ elim (Option-cases (find_wd e.wd w.inotify_wds)) [
    | inl unknown ↦ rw (process_inotify_event, gone, unknown) c
    | inr (path, known) ↦
        let shorter = length-erase_wd e.wd path w.inotify_wds known in
        let there : ltb 0 w.base.watched_dir_count ≡ true = ground (arith, shorter) in
        rw (process_inotify_event, gone, known, uncount_dir, there) (omega (arith, c, shorter))
  ]
  | inr here ↦ elim (Bool-cases (e.len == 0)) [
    | inl unnamed ↦ rw (process_inotify_event, here, unnamed) c
    | inr named ↦ elim (Option-cases (action_of e.mask)) [
      | inl other ↦ rw (process_inotify_event, here, named, other) c
      | inr (action, acts) ↦ elim (Option-cases (find_wd e.wd w.inotify_wds)) [
        | inl unknown ↦ rw (process_inotify_event, here, named, acts, unknown) c
        | inr (dir, known) ↦ rw (process_inotify_event, here, named, acts, known) c
      ]
    ]
  ]
]

read_events-IsCounted :
    (es : List InotifyEvent) (w : LinuxSpaceWatcher) → IsCounted w → IsCounted (read_events es w)
unfolding read_events
read_events-IsCounted [] w c = c
read_events-IsCounted (e ∷ es) w c =
    read_events-IsCounted es (process_inotify_event e w) (process_inotify_event-IsCounted e w c)

create-IsCounted :
    (opened : Bool) (answer : AddWatch) (path : Str) (w : LinuxSpaceWatcher)
    → create opened answer path ≡ some w
    → IsCounted w
unfolding create add_dir count_dir
create-IsCounted true (watch wd) path w e = subst IsCounted (some_inj e) refl
create-IsCounted true no_space path w e = cc
create-IsCounted true failed path w e = cc
create-IsCounted false answer path w e = cc

-- What the calls that the program makes leave of a watcher that was created, in any order. Nothing
-- calls `rmDir`.
pub data Reached : LinuxSpaceWatcher → Type 0 where
  created :
      {w : LinuxSpaceWatcher} (opened : Bool) (answer : AddWatch) (path : Str)
      → create opened answer path ≡ some w
      → Reached w
  added_dir :
      {w : LinuxSpaceWatcher} (answer : AddWatch) (path : Str)
      → Reached w
      → Reached (add_dir answer path w).0
  was_read :
      {w : LinuxSpaceWatcher} (events : List InotifyEvent)
      → Reached w
      → Reached (read_events events w)
  popped : {w : LinuxSpaceWatcher} → Reached w → Reached (record w { base = (pop_event w.base).0 })

-- However a watcher came about, it counts exactly the directories that it has a descriptor of.
pub Reached-IsCounted :
    (w : LinuxSpaceWatcher) → Reached w → w.base.watched_dir_count ≡ length w.inotify_wds
unfolding pop_event
Reached-IsCounted w (created opened answer path e) = create-IsCounted opened answer path w e
Reached-IsCounted _ (added_dir {w = w} answer path r) =
    add_dir-IsCounted answer path w (Reached-IsCounted w r)
Reached-IsCounted _ (was_read {w = w} events r) =
    read_events-IsCounted events w (Reached-IsCounted w r)
Reached-IsCounted _ (popped {w = w} r) = elim (List-cases w.base.event_queue) [
  | inl e ↦ rw (pop_event, e) (Reached-IsCounted w r)
  | inr (event, events, e) ↦ rw (pop_event, e) (Reached-IsCounted w r)
]
