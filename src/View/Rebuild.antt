-- ===== src/View/Rebuild.antt =====
-- `reconstruct_from`: a view is made of an entry, and what children it has are used again.
use spacedisplay.Common.{ℕ, zero, suc, ◌+◌, Bool, true, false, ◌||◌, [], leb, if◌then◌else◌}
use spacedisplay.Common.Int.{ℤ, pos, ltb_ℤ}
use spacedisplay.FileEntry.{Ptr, Store, for_each}
use spacedisplay.View.{Rect}
use spacedisplay.View.Tree.{
  EntryType, directory, file, available_space, unknown_space, Fields, View, view, Views, nil, cons,
  fields_of,
}

pub record ViewOptions : Type 0 where
  pub nest_level : ℕ
  pub min_size : ℤ
  pub unknown_space : ℤ
  pub free_space : ℤ

abbrev pub max_child_count : ℕ
max_child_count = 100

abbrev pub no_rect : Rect
no_rect = record { x = pos 0; y = pos 0; w = pos 0; h = pos 0 }

-- `FileEntryView()`, where `counter` is `idCounter`.
abbrev pub new_view : ℕ → View
new_view counter =
    view
      (record { draw_area = no_rect; size = pos 0; id = counter + 1; name = []; entry_type = file })
      nil

-- `init_from`.
unfoldable pub init_from : Store → Ptr → ℕ → Fields
init_from h e counter =
    let entry = h e in
    record {
      draw_area = no_rect;
      size = entry.size;
      id = counter + 1;
      name = entry.name;
      entry_type = if entry.is_dir then directory else file;
    }

unfoldable pub push_view : Views → View → Views
push_view nil v = cons v nil
push_view (cons w ws) v = cons w (push_view ws v)

unfoldable pub view_count : Views → ℕ
view_count nil = 0
view_count (cons v vs) = suc (view_count vs)

-- What the callback changes: the children that are done, those of before that are left to be used
-- again, the spaces that are to be shown, and the counter of views.
pub record Rebuild : Type 0 where
  pub made : Views
  pub left : Views
  pub unknown_space : ℤ
  pub free_space : ℤ
  pub counter : ℕ

-- The view at the next place: an old one, or a new one.
unfoldable pub next_view : Rebuild → View × Rebuild
next_view s = elim s.left [
  | nil ↦ (new_view s.counter, record s { counter = s.counter + 1 })
  | cons v vs ↦ (v, record s { left = vs })
]

-- A view of a space; it keeps the rectangle of the view that is used again.
unfoldable pub put_space : EntryType → ℤ → Rebuild → Rebuild
unfolding next_view push_view
put_space entry_type size s =
    let (v, t) = next_view s in
    let f = fields_of v in
    record t {
      made =
          push_view t.made
            (view (record f { entry_type = entry_type; size = size; name = [] }) nil);
    }

-- The spaces that are larger than a child come before it.
unfoldable pub put_spaces : ℤ → Rebuild → Rebuild
unfolding put_space
put_spaces child_size s =
    let t =
      if ltb_ℤ child_size s.unknown_space
      then record (put_space unknown_space s.unknown_space s) { unknown_space = pos 0 }
      else s in
    if ltb_ℤ child_size t.free_space
    then record (put_space available_space t.free_space t) { free_space = pos 0 }
    else t

-- The callback, where `rebuild` makes a view of a child over the view at the next place.
unfoldable pub put_child : (Ptr → View → ℕ → View × ℕ) → Store → ℤ → Ptr → Rebuild → Rebuild × Bool
unfolding put_spaces view_count
put_child rebuild h min_size e s =
    let child = h e in
    let t = put_spaces child.size s in
    let (v, u) = next_view t in
    let (w, counter) = rebuild e v u.counter in
    if leb max_child_count (view_count s.made) || ltb_ℤ child.size min_size
    then (s, false)
    else (record u { made = push_view u.made w; counter = counter }, true)

-- `reconstruct_from`.
unfoldable pub reconstruct_from : ℕ → Store → ℤ → ℤ → ℤ → Ptr → View → ℕ → View × ℕ
unfolding init_from for_each put_child
reconstruct_from zero h min_size unknown free e (view f vs) counter =
    (view (init_from h e counter) nil, counter + 1)
reconstruct_from (suc nest_level) h min_size unknown free e (view f vs) counter =
    let start : Rebuild = record {
      made = nil;
      left = vs;
      unknown_space = unknown;
      free_space = free;
      counter = counter + 1;
    } in
    let (s, any) =
      for_each (put_child (reconstruct_from nest_level h min_size (pos 0) (pos 0)) h min_size) e h
        start in
    (view (init_from h e counter) s.made, s.counter)

-- `createView` and `updateView`.
unfoldable pub create_view : Store → Ptr → ViewOptions → ℕ → View × ℕ
unfolding reconstruct_from
create_view h e options counter =
    reconstruct_from options.nest_level h options.min_size options.unknown_space options.free_space
      e (new_view counter) (counter + 1)

unfoldable pub update_view : Store → Ptr → ViewOptions → View → ℕ → View × ℕ
unfolding reconstruct_from
update_view h e options v counter =
    reconstruct_from options.nest_level h options.min_size options.unknown_space options.free_space
      e v counter
