-- ===== src/View/Closest.antt =====
-- From a view to its path, and back to the view.
use spacedisplay.Common.{
  ℕ, zero, suc, ◌≤◌, ◌≡◌, ◌≢◌, refl, ap, sym, subst, ◌∙◌, inl, inr, Bool, false, Option, none, some,
  List, [], ◌∷◌, ◌++◌, ◌==◌, length, map, if◌then◌else◌, back, back-append, append_cons_ne,
  length-append, pop_back-push_back, push_back, Str, Bool-cases, arith,
}
use mathlib.Core.List.{append_assoc, append-nil, append_cancel_left}
use spacedisplay.FilePath.{
  Host, separator, ok, FilePath, push_part, crc_or_default, is_dir, add_dir, add_file,
  CompareResult, parent, child, different, equal, compare_to, make_relative_to,
}
use spacedisplay.FilePath.Results.{ok_inj, err_ne_ok, Result-cases}
use spacedisplay.FilePath.Validity.{NoSlash, NoSlash-back, IsValid}
use spacedisplay.FilePath.Methods.{add_dir_lem, add_file_lem}
use spacedisplay.FilePath.Compare.{
  Related, flip, compare_to-Related, compare_to-flip, make_relative_to_lem,
}
use spacedisplay.View.Tree.{
  View, EntryType, directory, file, available_space, unknown_space, fields_of, children_of,
  find_view, without_separator, get_closest_view, add_view, get_path,
}
use spacedisplay.FileViewDb.{closest}

-- A name of an entry.
abbrev pub IsName : Host → Str → Type 0
IsName host name = (name ≢ []) × NoSlash host name

-- The part of a path that stands for a view.
abbrev pub part_of : Host → EntryType → Str → Str
part_of host directory name = push_back name (separator host)
part_of host _ name = name

-- Each view is the first among its siblings that is big enough and has its name.
abbrev pub IsTrail : Host → View → List View → Type 0
IsTrail host v [] = Unit {0}
IsTrail host v (u ∷ t) =
    (find_view (fields_of u).name (children_of v) ≡ some u)
    × IsName host (fields_of u).name
    × IsTrail host u t

abbrev parts_of : Host → List View → List Str
parts_of host t = map (λ u. part_of host (fields_of u).entry_type (fields_of u).name) t

without_separator-part :
    (host : Host) (ty : EntryType) (name : Str)
    → IsName host name
    → without_separator host (part_of host ty name) ≡ name
without_separator-part host directory name h =
    rw (back-append 0 name (separator host) [], pop_back-push_back name (separator host))
      (ground arith)
without_separator-part host _ [] h = absurd (h.0 refl)
without_separator-part host _ (c ∷ s) h = ground (arith, NoSlash-back host c s h.1.1 h.1.0)

get_closest_view-trail :
    (host : Host) (t : List View) (v : View) (max_depth : ℕ)
    → IsTrail host v t
    → length t ≤ max_depth
    → get_closest_view host v (parts_of host t) max_depth ≡ back v t
unfolding get_closest_view
get_closest_view-trail host [] v max_depth h l = refl
get_closest_view-trail host (u ∷ t) v zero h l = absurd (omega arith)
get_closest_view-trail host (u ∷ t) v (suc max_depth) (found, name, h) l =
    let part = part_of host (fields_of u).entry_type (fields_of u).name in
    let known : find_view (without_separator host part) (children_of v) ≡ some u =
      ap (λ (n : Str). find_view n (children_of v))
        (without_separator-part host (fields_of u).entry_type (fields_of u).name name)
      ∙ found in
    ap
      (λ (o : Option View). elim o [
        | none ↦ v
        | some w ↦ get_closest_view host w (parts_of host t) max_depth
      ])
      known
    ∙ get_closest_view-trail host t u max_depth h (omega arith)

-- A path that was made by pushing a part.
push_part-parts :
    (p q : FilePath) (part : Str) (crc : ℕ)
    → ok (push_part p part crc) ≡ ok q
    → q.parts ≡ push_back p.parts part
unfolding push_part
push_part-parts p q part crc e = ap (λ (r : FilePath). r.parts) (sym (ok_inj e))

add_dir-parts :
    (host : Host) (name : Str) (p q : FilePath)
    → IsValid host p
    → IsName host name
    → add_dir host p name 0 ≡ ok q
    → IsValid host q × (q.parts ≡ push_back p.parts (push_back name (separator host)))
unfolding add_dir
add_dir-parts host [] p q v h e = absurd (h.0 refl)
add_dir-parts host (c ∷ s) p q v h e = elim (Bool-cases (is_dir host p)) [
  | inr d ↦ absurd (err_ne_ok (rw (d, add_dir) at e))
  | inl d ↦
      let plain : (back c s == separator host) ≡ false =
        ground (arith, NoSlash-back host c s h.1.1 h.1.0) in
      let (q', e', extended) = add_dir_lem host p c s 0 v h.1 (inl refl) d in
      (
        subst (IsValid host) (ok_inj (sym e' ∙ e)) extended.valid,
        push_part-parts p q _ (crc_or_default host (c ∷ s) 0) (rw (d, plain, add_dir) at e),
      )
]

add_file-parts :
    (host : Host) (name : Str) (p q : FilePath)
    → IsValid host p
    → IsName host name
    → add_file host p name 0 ≡ ok q
    → IsValid host q × (q.parts ≡ push_back p.parts name)
unfolding add_file
add_file-parts host [] p q v h e = absurd (h.0 refl)
add_file-parts host (c ∷ s) p q v h e = elim (Bool-cases (is_dir host p)) [
  | inr d ↦ absurd (err_ne_ok (rw (d, add_file) at e))
  | inl d ↦
      let (q', e', extended) = add_file_lem host p c s 0 v h.1 (inl refl) d in
      (
        subst (IsValid host) (ok_inj (sym e' ∙ e)) extended.valid,
        push_part-parts p q _ (crc_or_default host (c ∷ s) 0) (rw (d, add_file) at e),
      )
]

add_view-parts :
    (host : Host) (ty : EntryType) (name : Str) (p q : FilePath)
    → IsValid host p
    → IsName host name
    → add_view host ty name p ≡ ok q
    → IsValid host q × (q.parts ≡ push_back p.parts (part_of host ty name))
unfolding add_view
add_view-parts host directory name p q v h e = add_dir-parts host name p q v h e
add_view-parts host file name p q v h e = add_file-parts host name p q v h e
add_view-parts host available_space name p q v h e = add_file-parts host name p q v h e
add_view-parts host unknown_space name p q v h e = add_file-parts host name p q v h e

get_path-parts :
    (host : Host) (t : List View) (v : View) (p q : FilePath)
    → IsValid host p
    → IsTrail host v t
    → get_path host t p ≡ ok q
    → IsValid host q × (q.parts ≡ p.parts ++ parts_of host t)
unfolding get_path
get_path-parts host [] v p q valid h e =
    let same : p ≡ q = ok_inj e in
    (
      subst (IsValid host) same valid,
      rw (append-nil p.parts) (ap (λ (r : FilePath). r.parts) (sym same)),
    )
get_path-parts host (u ∷ t) v p q valid (found, name, h) e =
    elim (Result-cases (add_view host (fields_of u).entry_type (fields_of u).name p)) [
      | inl f ↦ absurd (err_ne_ok (rw (f, get_path) at e))
      | inr (r, f) ↦
          let (r_valid, r_parts) =
            add_view-parts host (fields_of u).entry_type (fields_of u).name p r valid name f in
          let (q_valid, q_parts) = get_path-parts host t u r q r_valid h (rw (f, get_path) at e) in
          (
            q_valid,
            q_parts
                ∙ rw r_parts (
                    append_assoc p.parts
                      (part_of host (fields_of u).entry_type (fields_of u).name ∷ [])
                      (parts_of host t)),
          )
    ]

-- A path is the parent of another whose parts go on behind its own.
compare_to-append :
    (host : Host) (p q : FilePath) (z : Str) (zs : List Str)
    → IsValid host p
    → IsValid host q
    → q.parts ≡ p.parts ++ z ∷ zs
    → compare_to p q ≡ parent
compare_to-append host p q z zs vp vq e =
    go (compare_to p q) refl (compare_to-Related host p q vp vq)
  where
    go :
        (c : CompareResult)
        → compare_to p q ≡ c
        → Related c p.parts q.parts
        → compare_to p q ≡ parent
    go parent f r = f
    go child f (y, ys, r) = absurd (
        omega (
          arith,
          ap length r,
          ap length e,
          length-append q.parts (y ∷ ys),
          length-append p.parts (z ∷ zs),
        ))
    go equal f r = absurd (append_cons_ne p.parts z zs (r ∙ e))
    go different f r = absurd (r.0 (z ∷ zs) e)

-- From a view to its path and back: `FileViewDB::getClosestView` for the path that `getPath` makes
-- finds the view itself, when it lies within the depth and each view on the way to it is the first
-- one of its name, among its siblings, that is more than ten pixels wide and high.
pub get_path-closest :
    (host : Host) (shown path : FilePath) (root : View) (u : View) (t : List View) (max_depth : ℕ)
    → IsValid host shown
    → IsTrail host root (u ∷ t)
    → get_path host (u ∷ t) shown ≡ ok path
    → length (u ∷ t) ≤ max_depth
    → closest host shown path root max_depth ≡ some (back u t)
unfolding closest
get_path-closest host shown path root u t max_depth valid trail e l =
    let (path_valid, path_parts) = get_path-parts host (u ∷ t) root shown path valid trail e in
    let is_parent =
      compare_to-append host shown path _ (parts_of host t) valid path_valid path_parts in
    let is_child : compare_to path shown ≡ child =
      compare_to-flip host shown path valid path_valid ∙ ap flip is_parent in
    elim (make_relative_to_lem host path shown path_valid valid) [
      | inr (other, made) ↦ absurd (other is_child)
      | inl (same, r, made, ne, r_parts) ↦
          let relative : r.parts ≡ parts_of host (u ∷ t) =
            append_cancel_left shown.parts r.parts (parts_of host (u ∷ t))
              (sym r_parts ∙ path_parts) in
          ap
            (λ (c : CompareResult). elim c [
              | different ↦ none
              | child ↦ none
              | equal ↦ some root
              | parent ↦
                  if (make_relative_to path shown).1
                  then some
                      (get_closest_view host root (make_relative_to path shown).0.parts max_depth)
                  else none
            ])
            is_parent
          ∙ ap
              (λ (m : FilePath × Bool).
                if m.1 then some (get_closest_view host root m.0.parts max_depth) else none)
              made
          ∙ ap (λ (parts : List Str). some (get_closest_view host root parts max_depth)) relative
          ∙ ap (λ (v : View). some v) (get_closest_view-trail host (u ∷ t) root max_depth trail l)
    ]
