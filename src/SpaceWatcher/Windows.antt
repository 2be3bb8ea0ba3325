-- ===== src/SpaceWatcher/Windows.antt =====
-- The class `WinSpaceWatcher` of lib/private/WinSpaceWatcher.h and WinSpaceWatcher.cpp. What the
-- system answers and its conversions of strings and paths are arguments.
use spacedisplay.Common.{
  ℕ, zero, suc, ◌+◌, ◌*◌, ◌/◌, Bool, true, false, Option, none, some, List, [], ◌∷◌, ◌++◌, ◌==◌,
  ltb, if◌then◌else◌, get_or, drop, take, back, pop_back, push_back, Str,
}
use spacedisplay.SpaceWatcher.{
  FileAction, added, removed, modified, old_name, new_name, FileEvent, SpaceWatcher, new_watcher,
  add_event,
}

-- `watched_dir` tells whether the handle is valid.
pub record WinSpaceWatcher : Type 0 where
  pub base : SpaceWatcher
  pub watched_dir : Bool
  pub watched_path : Str

-- `wstr2str` and `toLongPath` of `PlatformUtils`, which call the system.
pub record Conversions : Type 0 where
  pub wstr2str : List ℕ → Str
  pub to_long_path : Str → Str

abbrev pub backslash : ℕ
backslash = 0x5c

-- `create` with `beginWatch`, which throws when the directory cannot be opened.
unfoldable pub win_watch : Bool → Str → Option WinSpaceWatcher
win_watch opened path =
    if opened
    then some (record {
      base = new_watcher;
      watched_dir = true;
      watched_path = if back 0 path == backslash then path else push_back path backslash;
    })
    else none

-- The buffer as its 16-bit units, from a record on: each `DWORD` is two of them, the low one first.
abbrev pub dword : ℕ → List ℕ → ℕ
dword i buffer = get_or buffer (2 * i) 0 + get_or buffer (2 * i + 1) 0 * 65536

-- The switch over `FILE_ACTION_ADDED` to `FILE_ACTION_RENAMED_NEW_NAME`.
unfoldable pub notified_action : ℕ → Option FileAction
notified_action n =
    if n == 1
    then some added
    else if n == 2
    then some removed
    else if n == 3
    then some modified
    else if n == 4
    then some old_name
    else if n == 5
    then some new_name
    else none

-- A string of wide characters ends at the first zero.
unfoldable pub until_zero : List ℕ → List ℕ
until_zero [] = []
until_zero (c ∷ s) = if c == 0 then [] else c ∷ until_zero s

-- `substr(0, find_last_of('\\') + 1)`, and the empty string when there is no backslash.
unfoldable pub up_to_backslash : Str → Str
up_to_backslash [] = []
up_to_backslash (c ∷ s) = elim (up_to_backslash s) [
  | [] ↦ if c == backslash then c ∷ [] else []
  | d ∷ t ↦ c ∷ d ∷ t
]

abbrev pub is_still_there : FileAction → Bool
is_still_there modified = false
is_still_there removed = false
is_still_there _ = true

-- The event for the wide characters of a name.
unfoldable pub notified_event : Conversions → Str → FileAction → List ℕ → FileEvent
unfolding until_zero up_to_backslash
notified_event c watched action name =
    let short = watched ++ c.wstr2str (until_zero name) in
    let long = if is_still_there action then c.to_long_path short else short in
    let path = if back 0 long == backslash then pop_back long else long in
    record { action = action; filepath = path; parentpath = c.to_long_path (up_to_backslash path) }

-- The loop over the records, with the buffer from `currentDword` on. `none` when the fuel runs out:
-- `continue` leads to the same record again.
unfoldable pub read_records : Conversions → ℕ → List ℕ → WinSpaceWatcher → Option WinSpaceWatcher
unfolding notified_action notified_event add_event
read_records c zero buffer w = none
read_records c (suc fuel) buffer w = elim (notified_action (dword 1 buffer)) [
  | none ↦ read_records c fuel buffer w
  | some action ↦
      let name = take (dword 2 buffer / 2) (drop 6 buffer) in
      let w' = record w { base = add_event (notified_event c w.watched_path action name) w.base } in
      let next = dword 0 buffer / 4 in
      let rest = read_records c fuel (drop (2 * next) buffer) w' in
      if next == 0 then some w' else rest
]

-- `readEvents`, with what `ReadDirectoryChangesW` answers: nothing when it fails, or the number of
-- bytes and the buffer.
unfoldable pub win_read_events :
    Conversions → ℕ → Option (ℕ × List ℕ) → WinSpaceWatcher → Option WinSpaceWatcher
unfolding read_records
win_read_events c fuel answer w = elim w.watched_dir [
  | false ↦ some w
  | true ↦ elim answer [
    | none ↦ some w
    | some (bytes, buffer) ↦ elim (bytes == 0) [
      | true ↦ some w
      | false ↦ elim (ltb 3 (bytes / 4 + 1)) [
        | true ↦ read_records c fuel buffer w
        | false ↦ some w
      ]
    ]
  ]
]
