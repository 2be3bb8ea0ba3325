-- ===== src/SpaceWatcher/Paths.antt =====
-- The paths of the events that the Linux watcher reports.
use spacedisplay.Common.{
  ℕ, ◌≡◌, ◌≢◌, refl, false, some, [], ◌∷◌, ◌++◌, ◌==◌, arith, Str, All, back, back-append,
}
use spacedisplay.SpaceWatcher.{FileAction, add_event}
use spacedisplay.SpaceWatcher.Linux.{
  LinuxSpaceWatcher, InotifyEvent, find_wd, process_inotify_event, action_of, file_event,
  up_to_slash, without_slash, slash,
}

-- A name of an entry: not empty, and with no slash.
abbrev pub IsName : Str → Type 0
IsName s = (s ≢ []) × All (λ c. c ≢ slash) s

up_to_slash-plain : (s : Str) → All (λ c. c ≢ slash) s → up_to_slash s ≡ []
unfolding up_to_slash
up_to_slash-plain [] h = refl
up_to_slash-plain (c ∷ s) (hc, hs) = rw (up_to_slash, up_to_slash-plain s hs) (ground arith)

up_to_slash-append :
    (d s : Str) → back 0 d ≡ slash → All (λ c. c ≢ slash) s → up_to_slash (d ++ s) ≡ d
unfolding up_to_slash
up_to_slash-append [] s e h = cc
up_to_slash-append (c ∷ []) s e h = rw (up_to_slash, up_to_slash-plain s h) (ground arith)
up_to_slash-append (c ∷ b ∷ d) s e h = rw (up_to_slash, up_to_slash-append (b ∷ d) s e h) refl

back-plain : (c : ℕ) (s : Str) → c ≢ slash → All (λ c. c ≢ slash) s → back c s ≢ slash
back-plain c [] n h = n
back-plain c (b ∷ s) n (hb, hs) = back-plain b s hb hs

without_slash-name : (d s : Str) → IsName s → without_slash (d ++ s) ≡ d ++ s
without_slash-name d [] (n, h) = absurd (n refl)
without_slash-name d (c ∷ s) (n, (hc, hs)) =
    let plain : (back 0 (d ++ c ∷ s) == slash) ≡ false =
      rw (back-append 0 d c s) (ground (arith, back-plain c s hc hs)) in
    rw plain refl

-- What an event on a directory of which a descriptor is known, that names an entry, leaves: the
-- directory, which is watched by its path with a slash at the end, is the parent of the event.
pub process_inotify_event-parent :
    (e : InotifyEvent) (w : LinuxSpaceWatcher) (dir : Str) (action : FileAction)
    → e.mask.ignored ≡ false
    → (e.len == 0) ≡ false
    → action_of e.mask ≡ some action
    → find_wd e.wd w.inotify_wds ≡ some dir
    → back 0 dir ≡ slash
    → IsName e.name
    → process_inotify_event e w ≡ record w {
      base =
          add_event (record { action = action; filepath = dir ++ e.name; parentpath = dir }) w.base;
    }
unfolding process_inotify_event file_event
process_inotify_event-parent e w dir action here named acts known ends name =
    rw
      (
        process_inotify_event,
        here,
        named,
        acts,
        known,
        file_event,
        without_slash-name dir e.name name,
        up_to_slash-append dir e.name ends (name.1),
      )
      refl
