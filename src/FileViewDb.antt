-- ===== src/FileViewDb.antt =====
-- The class `FileViewDB` of app-gui/include/fileviewdb.h and app-gui/src/fileviewdb.cpp: what part of
-- the database is shown, and its views.
use spacedisplay.Common.{ℕ, ◌*◌, ◌/◌, Bool, true, false, Option, none, some, if◌then◌else◌}
use spacedisplay.Common.Int.{ℤ, pos, ◌+ℤ◌, ◌-ℤ◌}
use spacedisplay.FilePath.{
  Host, FilePath, parent, child, equal, different, compare_to, make_relative_to,
}
use spacedisplay.FileEntry.{Ptr, Store}
use spacedisplay.FileDb.{FileDb, get_space, process_entry}
use spacedisplay.View.{Rect}
use spacedisplay.View.Tree.{View, fields_of, allocate_view, get_hovered_view, get_closest_view}
use spacedisplay.View.Rebuild.{ViewOptions, create_view, update_view}

pub record FileViewDb : Type 0 where
  pub root_file : Option View
  pub view_path : Option FilePath
  pub view_rect : Rect
  pub view_depth : ℕ
  pub text_height : ℕ

-- The callback of `update`. `min_size_of` is the share of a total size that 49 pixels of a
-- rectangle have, which the source computes with floats.
unfoldable pub view_entry :
    (ℤ → Rect → ℤ) → FileViewDb → ℤ → ℤ → Ptr → Store → Option View × ℕ → Option View × ℕ
unfolding create_view update_view
view_entry min_size_of v unknown free e h (root, counter) =
    let entry = h e in
    let is_root = elim entry.parent as (λ p. Bool) [ none ↦ true | some p ↦ false ] in
    let total = (if is_root then free +ℤ unknown else pos 0) +ℤ entry.size in
    let options : ViewOptions = record {
      nest_level = v.view_depth;
      min_size = min_size_of total v.view_rect;
      unknown_space = if is_root then unknown else pos 0;
      free_space = if is_root then free else pos 0;
    } in
    elim root [
      | some r ↦ let (r', n) = update_view h e options r counter in (some r', n)
      | none ↦ let (r', n) = create_view h e options counter in (some r', n)
    ]

-- What is laid out when the callback was called.
unfoldable pub lay_out : FileViewDb → Option FileViewDb
unfolding allocate_view
lay_out v = elim v.root_file [
  | none ↦ some v
  | some r ↦
      elim (allocate_view r (fields_of r).draw_area v.view_rect (pos ((v.text_height * 3) / 2))) [
        | none ↦ none
        | some r' ↦ some (record v { root_file = some r' })
      ]
]

-- `update`, with the counter of views. `none` when `allocate_view` gives none.
unfoldable pub update :
    Host
    → (ℤ → Rect → ℤ)
    → FileDb
    → Bool
    → Bool
    → FileViewDb
    → ℕ
    → Option (FileDb × FileViewDb × ℕ × Bool)
unfolding get_space process_entry view_entry lay_out
update host min_size_of db include_unknown include_available v counter = elim v.view_path [
  | none ↦ some (db, v, counter, false)
  | some path ↦
      let (used, free, total) = get_space db in
      let unknown = if include_unknown then total -ℤ free -ℤ used else pos 0 in
      let available = if include_available then free else pos 0 in
      let (db', (root, n), found) =
        process_entry host path (view_entry min_size_of v unknown available) db
          (v.root_file, counter) in
      if found
      then elim (lay_out (record v { root_file = root })) [
        | none ↦ none
        | some v' ↦ some (db', v', n, true)
      ]
      else some (db', record v { root_file = root }, n, false)
]

unfoldable pub on_theme_changed : FileViewDb → FileViewDb
on_theme_changed v = record v { root_file = none }

unfoldable pub set_view_area : Rect → FileViewDb → FileViewDb
set_view_area rect v = record v { view_rect = rect }

unfoldable pub set_view_path : FilePath → FileViewDb → FileViewDb
set_view_path path v = record v { view_path = some path }

unfoldable pub set_view_depth : ℕ → FileViewDb → FileViewDb
set_view_depth depth v = record v { view_depth = depth }

unfoldable pub set_text_height : ℕ → FileViewDb → FileViewDb
set_text_height height v = record v { text_height = height }

unfoldable pub get_files_size : FileViewDb → ℤ
get_files_size v = elim v.root_file [ none ↦ pos 0 | some r ↦ (fields_of r).size ]

unfoldable pub hovered : FileViewDb → ℤ → ℤ → Option View
unfolding get_hovered_view
hovered v mouse_x mouse_y = elim v.root_file [
  | none ↦ none
  | some r ↦ get_hovered_view r mouse_x mouse_y
]

-- `getClosestView`, where the view's path and the path are compared.
unfoldable pub closest : Host → FilePath → FilePath → View → ℕ → Option View
unfolding compare_to make_relative_to get_closest_view
closest host view_path path root max_depth = elim (compare_to view_path path) [
  | different ↦ none
  | child ↦ none
  | equal ↦ some root
  | parent ↦
      let (relative, done) = make_relative_to path view_path in
      if done then some (get_closest_view host root relative.parts max_depth) else none
]
