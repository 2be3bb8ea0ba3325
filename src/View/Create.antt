-- ===== src/View/Create.antt =====
-- A view that is made anew.
use spacedisplay.Common.{
  ℕ, zero, suc, ◌+◌, ◌≡◌, refl, sym, subst, inl, inr, ◌||◌, some, leb, arith, Bool-cases,
  if◌then◌else◌,
}
use spacedisplay.Common.Int.{ℤ, pos, ◌≤ℤ◌, ltb_ℤ}
use spacedisplay.FileEntry.{Ptr, Store}
use spacedisplay.FileDb.Counts.{for_each-keeps}
use spacedisplay.View.{Rect}
use spacedisplay.View.Tree.{
  EntryType, available_space, unknown_space, View, view, Views, nil, cons, fields_of, children_of,
  allocate_view,
}
use spacedisplay.View.Rebuild.{
  ViewOptions, new_view, init_from, push_view, view_count, max_child_count, Rebuild, next_view,
  put_space, put_spaces, put_child, reconstruct_from, create_view,
}
use spacedisplay.View.Layout.{AreNew, IsLaidOut, allocate_view-IsLaidOut}

-- No entry has a negative size.
abbrev pub AreSized : Store → Type 0
AreSized h = (e : Ptr) → pos 0 ≤ℤ (h e).size

abbrev pub IsNew : View → Type 0
IsNew v =
    ((fields_of v).draw_area.w ≡ pos 0) × (pos 0 ≤ℤ (fields_of v).size) × AreNew (children_of v)

push_view-AreNew : (vs : Views) (v : View) → AreNew vs → IsNew v → AreNew (push_view vs v)
unfolding push_view
push_view-AreNew nil (view f ws) n (w, s, m) = ((w, s), m, tt)
push_view-AreNew (cons (view g us) vs) v (h, k, n) m = (h, k, push_view-AreNew vs v n m)

-- Nothing is used again.
record IsFresh (s : Rebuild) : Type 0 where
  made : AreNew s.made
  left : s.left ≡ nil
  unknown : pos 0 ≤ℤ s.unknown_space
  free : pos 0 ≤ℤ s.free_space

put_space-IsFresh :
    (entry_type : EntryType) (size : ℤ) (s : Rebuild)
    → pos 0 ≤ℤ size
    → IsFresh s
    → IsFresh (put_space entry_type size s)
unfolding put_space next_view
put_space-IsFresh entry_type size s h v =
    subst (λ (x : Rebuild). IsFresh (put_space entry_type size x))
      (λ i. record s { left = sym v.left i })
      (record {
        made = push_view-AreNew s.made _ v.made (refl, h, tt);
        left = refl;
        unknown = v.unknown;
        free = v.free;
      })

unknown-IsFresh :
    (size : ℤ) (s : Rebuild)
    → IsFresh s
    → IsFresh (
        if ltb_ℤ size s.unknown_space
        then record (put_space unknown_space s.unknown_space s) { unknown_space = pos 0 }
        else s)
unknown-IsFresh size s v = elim (Bool-cases (ltb_ℤ size s.unknown_space)) [
  | inr e ↦ rw e v
  | inl e ↦
      let w = put_space-IsFresh unknown_space s.unknown_space s v.unknown v in
      rw e (record { made = w.made; left = w.left; unknown = omega arith; free = w.free })
]

free-IsFresh :
    (size : ℤ) (s : Rebuild)
    → IsFresh s
    → IsFresh (
        if ltb_ℤ size s.free_space
        then record (put_space available_space s.free_space s) { free_space = pos 0 }
        else s)
free-IsFresh size s v = elim (Bool-cases (ltb_ℤ size s.free_space)) [
  | inr e ↦ rw e v
  | inl e ↦
      let w = put_space-IsFresh available_space s.free_space s v.free v in
      rw e (record { made = w.made; left = w.left; unknown = w.unknown; free = omega arith })
]

put_spaces-IsFresh : (size : ℤ) (s : Rebuild) → IsFresh s → IsFresh (put_spaces size s)
unfolding put_spaces
put_spaces-IsFresh size s v = free-IsFresh size _ (unknown-IsFresh size s v)

-- A child is put behind the others.
put_made-IsFresh :
    (rebuild : Ptr → View → ℕ → View × ℕ) (e : Ptr) (t : Rebuild)
    → ((v : View) (n : ℕ) → children_of v ≡ nil → IsNew (rebuild e v n).0)
    → IsFresh t
    → IsFresh (record (next_view t).1 {
      made = push_view (next_view t).1.made (rebuild e (next_view t).0 (next_view t).1.counter).0;
      counter = (rebuild e (next_view t).0 (next_view t).1.counter).1;
    })
unfolding next_view
put_made-IsFresh rebuild e t new v =
    subst
      (λ (x : Rebuild). IsFresh (record (next_view x).1 {
        made = push_view (next_view x).1.made (rebuild e (next_view x).0 (next_view x).1.counter).0;
        counter = (rebuild e (next_view x).0 (next_view x).1.counter).1;
      }))
      (λ i. record t { left = sym v.left i })
      (record {
        made = push_view-AreNew t.made _ v.made (new (new_view t.counter) (t.counter + 1) refl);
        left = refl;
        unknown = v.unknown;
        free = v.free;
      })

put_child-IsFresh :
    (rebuild : Ptr → View → ℕ → View × ℕ) (h : Store) (min_size : ℤ) (e : Ptr) (s : Rebuild)
    → ((e : Ptr) (v : View) (n : ℕ) → children_of v ≡ nil → IsNew (rebuild e v n).0)
    → IsFresh s
    → IsFresh (put_child rebuild h min_size e s).0
unfolding put_child
put_child-IsFresh rebuild h min_size e s new v =
    elim (Bool-cases (leb max_child_count (view_count s.made) || ltb_ℤ (h e).size min_size)) [
      | inl stop ↦ rw (put_child, stop) v
      | inr go ↦
          let t = put_spaces (h e).size s in
          rw (put_child, go)
            (put_made-IsFresh rebuild e t (new e) (put_spaces-IsFresh (h e).size s v))
    ]

reconstruct_from-IsNew :
    (nest_level : ℕ) (h : Store) (min_size unknown free : ℤ) (e : Ptr) (v : View) (counter : ℕ)
    → AreSized h
    → pos 0 ≤ℤ unknown
    → pos 0 ≤ℤ free
    → children_of v ≡ nil
    → IsNew (reconstruct_from nest_level h min_size unknown free e v counter).0
unfolding reconstruct_from init_from
reconstruct_from-IsNew zero h min_size unknown free e (view f vs) counter sized hu hf n =
    (refl, sized e, tt)
reconstruct_from-IsNew (suc nest_level) h min_size unknown free e (view f vs) counter sized hu hf
      n =
    let start : Rebuild = record {
      made = nil;
      left = vs;
      unknown_space = unknown;
      free_space = free;
      counter = counter + 1;
    } in
    let fresh : IsFresh start = record { made = tt; left = n; unknown = hu; free = hf } in
    let rebuild = reconstruct_from nest_level h min_size (pos 0) (pos 0) in
    let new = λ (e : Ptr) (v : View) (n : ℕ).
      reconstruct_from-IsNew nest_level h min_size (pos 0) (pos 0) e v n sized (omega arith)
        (omega arith) in
    let all =
      for_each-keeps IsFresh (put_child rebuild h min_size)
        (λ e s. put_child-IsFresh rebuild h min_size e s new) e h start fresh in
    (refl, sized e, all.made)

-- A view that `createView` makes of an entry is laid out by `allocate_view`, when no entry and no
-- space has a negative size: it returns, and at every depth the children lie below the title of
-- their parent and do not overlap, but for those that are hidden.
pub create_view-IsLaidOut :
    (h : Store) (e : Ptr) (options : ViewOptions) (counter : ℕ) (area rect : Rect) (t : ℤ)
    → AreSized h
    → pos 0 ≤ℤ options.unknown_space
    → pos 0 ≤ℤ options.free_space
    → (u : View) × (allocate_view (create_view h e options counter).0 area rect t ≡ some u)
      × IsLaidOut t u
unfolding create_view
create_view-IsLaidOut h e options counter area rect t sized hu hf =
    let (w, s, new) =
      reconstruct_from-IsNew options.nest_level h options.min_size options.unknown_space
        options.free_space e (new_view counter) (counter + 1) sized hu hf refl in
    allocate_view-IsLaidOut (create_view h e options counter).0 area rect t new
