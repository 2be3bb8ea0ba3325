-- ===== src/FileDb/Start.antt =====
-- The database as it is constructed.
use mathlib.Core.List.{append-nil, reverse-reverse}
use spacedisplay.Common.{
  ℕ, ◌≡◌, refl, sym, ap, ◌∙◌, ◌≢◌, inl, inr, true, some, [], ◌∷◌, ◌++◌, reverse, arith, ◌==◌,
  Bool-cases, Str, str_eq, str_eq_iff,
}
use spacedisplay.Common.Int.{pos}
use spacedisplay.FilePath.{
  Host, separator, inverted_separator, replace, pop_double_slashes, push_slash, from_root,
  normalize, add_slash, get_path, concat, ok, crc_or_default,
}
use spacedisplay.FileEntry.{Ptr, FileEntry, Store, update}
use spacedisplay.FileEntry.Bins.{number}
use spacedisplay.FileDb.{FileDb, new_entry, new_db, find_entry}
use spacedisplay.FileDb.Counts.{IsCounted, pointers}
use spacedisplay.FileDb.Frame.{name_at}

cons_ne_nil : {c : ℕ} {s : Str} → (c ∷ s) ≢ []
cons_ne_nil e = cc

push_slash-ne-nil : (sep : ℕ) (s : Str) → push_slash sep s ≢ []
unfolding push_slash
push_slash-ne-nil sep [] e = absurd cc
push_slash-ne-nil sep (c ∷ s) e = elim (Bool-cases (c == sep)) [
  | inl t ↦ absurd (cons_ne_nil (rw t at e))
  | inr t ↦ absurd (cons_ne_nil (rw t at e))
]

normalize-ne-nil : (host : Host) (s : Str) → normalize host s add_slash ≢ []
unfolding normalize
normalize-ne-nil host s e =
    push_slash-ne-nil (separator host) up
      (sym (reverse-reverse (push_slash (separator host) up)) ∙ ap reverse e)
  where
    up : Str
    up =
        pop_double_slashes (separator host)
          (reverse (replace (inverted_separator host) (separator host) s))

new_entry-ok :
    (host : Host) (name : Str)
    → name ≢ []
    → (e : FileEntry) × (new_entry host name true (pos 0) ≡ ok e) × (e.name ≡ name)
unfolding new_entry
new_entry-ok host [] n = absurd (n refl)
new_entry-ok host (c ∷ s) n = (_, refl, refl)

update-named :
    (h : Store) (root : Ptr) (e : FileEntry)
    → e.name ≢ []
    → ((q : Ptr) → name_at h q ≢ [])
    → (q : Ptr) → name_at (update h root e) q ≢ []
update-named h root e n named q m = elim (Bool-cases (q == root)) [
  | inl t ↦ n (rw (t, name_at) at m)
  | inr t ↦ named q (rw (t, name_at) at m)
]

-- The database that is constructed for a path that is not empty counts right, when no other entry
-- in the heap is without a name, and finds its root by the root's path.
pub new_db-IsCounted :
    (host : Host) (c : ℕ) (s : Str) (root : Ptr) (h : Store)
    → ((q : Ptr) → name_at h q ≢ [])
    → (db : FileDb) × (new_db host (c ∷ s) root h ≡ ok db)
      × IsCounted db
      × (find_entry host db db.root_path ≡ some root)
unfolding new_db from_root get_path concat find_entry number pointers
new_db-IsCounted host c s root h named =
    let (e, f, n) =
      new_entry-ok host (r ++ []) (λ m. normalize-ne-nil host (c ∷ s) (sym (append-nil r) ∙ m)) in
    (
      db e,
      returned e f,
      record {
        files = refl;
        dirs = refl;
        named =
            update-named h root e (λ m. normalize-ne-nil host (c ∷ s) (sym (n ∙ append-nil r) ∙ m))
              named;
      },
      rw (found e (sym (n ∙ append-nil r))) refl,
    )
  where
    r : Str
    r = normalize host (c ∷ s) add_slash

    db : FileEntry → FileDb
    db e = record {
      total_space = pos 0;
      available_space = pos 0;
      used_space = pos 0;
      file_count = pos 0;
      dir_count = pos 1;
      has_changes = true;
      root_file = root;
      root_path = record { parts = r ∷ []; path_crcs = crc_or_default host r 0 ∷ [] };
      entries_map = [];
      store = update h root e;
    }

    found : (e : FileEntry) → r ≡ e.name → str_eq r (name_at (update h root e) root) ≡ true
    found e m = (str_eq_iff r (name_at (update h root e) root)).1 (m ∙ ground arith)

    returned :
        (e : FileEntry)
        → new_entry host (r ++ []) true (pos 0) ≡ ok e
        → new_db host (c ∷ s) root h ≡ ok (db e)
    returned e f = rw (f, new_db) refl
