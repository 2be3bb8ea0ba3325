-- ===== src/SpaceWatcher/Records.antt =====
-- The buffer that the Windows watcher reads, as the system fills it, and what becomes of it.
use spacedisplay.Common.{
  ℕ, zero, suc, ◌+◌, ◌*◌, ◌/◌, ◌%◌, ◌≡◌, false, refl, ap, ◌∙◌, none, some, List, [], ◌∷◌, ◌++◌,
  ◌==◌, length, drop, drop-append, take, take-append, arith,
}
use mathlib.Core.List.{append_assoc}
use spacedisplay.SpaceWatcher.{FileAction, added, removed, modified, old_name, new_name, add_event}
use spacedisplay.SpaceWatcher.Windows.{
  WinSpaceWatcher, Conversions, dword, notified_action, notified_event, read_records,
}

-- A `FILE_NOTIFY_INFORMATION`.
pub record Notification : Type 0 where
  pub action : FileAction
  pub name : List ℕ

abbrev pub action_code : FileAction → ℕ
action_code added = 1
action_code removed = 2
action_code modified = 3
action_code old_name = 4
action_code new_name = 5

-- To an even number of units.
abbrev pub padding : List ℕ → List ℕ
padding [] = []
padding (a ∷ []) = 0 ∷ []
padding (a ∷ b ∷ s) = padding s

-- The first field counts bytes, and so does the length of the name.
abbrev pub record_units : ℕ → ℕ → List ℕ → List ℕ
record_units next code name =
    next % 65536
      ∷ next / 65536
      ∷ code % 65536
      ∷ code / 65536
      ∷ (2 * length name) % 65536
      ∷ 2 * length name / 65536
      ∷ name
    ++ padding name

-- The bytes of a record.
abbrev pub record_size : Notification → ℕ
record_size n = 2 * length (record_units 0 0 n.name)

-- Records that are followed by others.
unfoldable pub linked : List Notification → List ℕ
linked [] = []
linked (n ∷ ns) = record_units (record_size n) (action_code n.action) n.name ++ linked ns

abbrev pub last_units : Notification → List ℕ
last_units n = record_units 0 (action_code n.action) n.name

padding-even : (s : List ℕ) → length (s ++ padding s) % 2 ≡ 0
padding-even [] = refl
padding-even (a ∷ []) = refl
padding-even (a ∷ b ∷ s) = omega (arith, padding-even s)

record_units-even : (next code : ℕ) (name : List ℕ) → length (record_units next code name) % 2 ≡ 0
record_units-even next code name = omega (arith, padding-even name)

two_units : (n : ℕ) → n % 65536 + n / 65536 * 65536 ≡ n
two_units n = omega arith

notified_action-code : (a : FileAction) → notified_action (action_code a) ≡ some a
unfolding notified_action
notified_action-code added = refl
notified_action-code removed = refl
notified_action-code modified = refl
notified_action-code old_name = refl
notified_action-code new_name = refl

-- The name of a record, as the loop cuts it out.
name_units :
    (next code : ℕ) (name rest : List ℕ)
    → take
        (dword 2 (record_units next code name ++ rest) / 2)
        (drop 6 (record_units next code name ++ rest))
      ≡ name
name_units next code name rest =
    let half : dword 2 (record_units next code name ++ rest) / 2 ≡ length name =
      rw (two_units (2 * length name)) (omega arith) in
    rw (half, append_assoc name (padding name) rest) (take-append name (padding name ++ rest))

-- The watcher with one more event, or with the events of several notifications.
abbrev pub noted : Conversions → Notification → WinSpaceWatcher → WinSpaceWatcher
noted c n w = record w { base = add_event (notified_event c w.watched_path n.action n.name) w.base }

unfoldable pub all_noted : Conversions → List Notification → WinSpaceWatcher → WinSpaceWatcher
all_noted c [] w = w
all_noted c (n ∷ ns) w = all_noted c ns (noted c n w)

module _ (c : Conversions) (fuel : ℕ) (n : Notification) (rest : List ℕ) (w : WinSpaceWatcher) where
  read_records-last : read_records c (suc fuel) (last_units n ++ rest) w ≡ some (noted c n w)
  unfolding read_records
  read_records-last =
      let code = action_code n.action in
      rw
        (read_records, two_units code, notified_action-code n.action, name_units 0 code n.name rest)
        refl

  read_records-linked :
      read_records c
        (suc fuel)
        (record_units (record_size n) (action_code n.action) n.name ++ rest)
        w
      ≡ read_records c fuel rest (noted c n w)
  unfolding read_records
  read_records-linked =
      let code = action_code n.action in
      let size = record_size n in
      let units = record_units size code n.name in
      let even = record_units-even size code n.name in
      let same : length units ≡ length (record_units 0 0 n.name) = refl in
      let next : dword 0 (units ++ rest) / 4 ≡ length units / 2 =
        rw (two_units size) (omega arith) in
      let more : (length units / 2 == 0) ≡ false = ground arith in
      let behind : 2 * (length units / 2) ≡ length units = omega (arith, even) in
      rw
        (
          read_records,
          two_units code,
          notified_action-code n.action,
          name_units size code n.name rest,
          next,
          more,
          behind,
          drop-append units rest,
        )
        refl

-- From a buffer that the system fills with records of any notifications, each with the offset to
-- the next and the last with none, the loop of `readEvents` queues one event for each notification,
-- in their order, and it takes as many rounds as there are notifications. What lies behind the last
-- record does not matter.
pub read_records-linked-last :
    (c : Conversions) (ns : List Notification) (n : Notification) (rest : List ℕ)
    (w : WinSpaceWatcher)
    → read_records c (suc (length ns)) (linked ns ++ (last_units n ++ rest)) w
      ≡ some (noted c n (all_noted c ns w))
unfolding linked all_noted
read_records-linked-last c [] n rest w = read_records-last c 0 n rest w
read_records-linked-last c (m ∷ ns) n rest w =
    let units = record_units (record_size m) (action_code m.action) m.name in
    let behind = last_units n ++ rest in
    ap (λ (b : List ℕ). read_records c (suc (suc (length ns))) b w)
      (append_assoc units (linked ns) behind)
    ∙ read_records-linked c (suc (length ns)) m (linked ns ++ behind) w
    ∙ read_records-linked-last c ns n rest (noted c m w)

-- When a record of the buffer has an action that the switch does not know, the loop of `readEvents`
-- never ends: `continue` does not go on to the next record.
pub read_records-unknown :
    (c : Conversions) (fuel : ℕ) (ns : List Notification) (buffer : List ℕ) (w : WinSpaceWatcher)
    → notified_action (dword 1 buffer) ≡ none
    → read_records c fuel (linked ns ++ buffer) w ≡ none
unfolding linked read_records
read_records-unknown c zero ns buffer w e = refl
read_records-unknown c (suc fuel) [] buffer w e =
    rw (read_records, e) (read_records-unknown c fuel [] buffer w e)
read_records-unknown c (suc fuel) (m ∷ ns) buffer w e =
    let units = record_units (record_size m) (action_code m.action) m.name in
    ap (λ (b : List ℕ). read_records c (suc fuel) b w) (append_assoc units (linked ns) buffer)
    ∙ read_records-linked c fuel m (linked ns ++ buffer) w
    ∙ read_records-unknown c fuel ns buffer (noted c m w) e
