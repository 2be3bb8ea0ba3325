-- ===== src/FileEntry.antt =====
-- The class `FileEntry` of lib/include/fileentry.h and lib/src/fileentry.cpp. Entries live in a
-- store, where a pointer is a number: entries share their parents and are changed in place.
-- Sizes are `int64_t`, and are taken not to overflow.
pub mod Bins
pub mod Tree
pub mod Operations
pub mod AddChild
pub mod Sweep
pub mod Delete
pub mod Marks
use mathlib.Core.Option
use spacedisplay.Common.{
  ℕ, zero, suc, ◌+◌, bit_xor, ◌≡◌, Bool, true, false, ◌&&◌, not, Option, none, some, List, [], ◌∷◌,
  ◌++◌, ◌==◌, if◌then◌else◌, Str,
}
use spacedisplay.Common.Int.{ℤ, pos, ◌+ℤ◌, ◌-ℤ◌, ◌==ℤ◌, ltb_ℤ}

abbrev pub Ptr : Type 0
Ptr = ℕ

-- A bin of a `std::set<EntryBin>`: the entries of one size. `chain` is `firstEntry` with the
-- entries that follow it by `nextEntry`, a link that only bins use.
pub record EntryBin : Type 0 where
  pub size : ℤ
  pub chain : List Ptr

pub record FileEntry : Type 0 where
  pub parent : Option Ptr
  pub children : List EntryBin
  pub pending_delete : Bool
  pub is_dir : Bool
  pub name_crc : ℕ
  pub path_crc : ℕ
  pub size : ℤ
  pub name : Str

abbrev pub Store : Type 0
Store = Ptr → FileEntry

-- The store with one entry written.
abbrev pub update : Store → Ptr → FileEntry → Store
update h p e q = if q == p then e else h q

-- `children.find(EntryBin(size))` and then either a push to the front of the chain that was found,
-- or `children.insert` of a bin of its own. The set is in decreasing order of size.
unfoldable pub insert_child : ℤ → Ptr → List EntryBin → List EntryBin
insert_child s c [] = record { size = s; chain = c ∷ [] } ∷ []
insert_child s c (b ∷ bs) =
    if b.size ==ℤ s
    then record b { chain = c ∷ b.chain } ∷ bs
    else if ltb_ℤ b.size s
    then record { size = s; chain = c ∷ [] } ∷ b ∷ bs
    else b ∷ insert_child s c bs

-- `_addChild`: the child learns its parent and the checksum of its path.
unfoldable pub attach : Ptr → Ptr → Store → Store
unfolding insert_child
attach this c h =
    let e = h c in
    let t = h this in
    let h' =
      update h c (record e { parent = some this; path_crc = bit_xor t.path_crc e.name_crc }) in
    let t' = h' this in update h' this (record t' { children = insert_child e.size c t'.children })

-- An entry taken out of a chain; `none` when the chain has no such entry.
unfoldable pub unlink : Ptr → List Ptr → Option (List Ptr)
unlink c [] = none
unlink c (x ∷ xs) = if x == c then some xs else Option.map (◌∷◌ x) (unlink c xs)

abbrev pub without_empty : EntryBin → List EntryBin → List Ptr → List EntryBin
without_empty b bs [] = bs
without_empty b bs (x ∷ xs) = record b { chain = x ∷ xs } ∷ bs

-- The bin of the given size is found and the child taken out of its chain; a bin that is left
-- empty is erased. `none` when there is no such bin or the child is not in it.
unfoldable pub detach : Ptr → ℤ → List EntryBin → Option (List EntryBin)
unfolding unlink
detach c s [] = none
detach c s (b ∷ bs) =
    if b.size ==ℤ s
    then Option.map (without_empty b bs) (unlink c b.chain)
    else Option.map (◌∷◌ b) (detach c s bs)

-- `onChildSizeChanged` of the entry that a parent pointer leads to, for a change that is not zero.
-- The fuel bounds how far the call goes up.
unfoldable pub on_child_size_changed : ℕ → Option Ptr → Ptr → ℤ → Store → Store
unfolding attach detach
on_child_size_changed fuel none c change h = h
on_child_size_changed zero (some this) c change h = h
on_child_size_changed (suc fuel) (some this) c change h =
    let t = h this in
    let e = h c in
    elim (detach c (e.size -ℤ change) t.children) [
      | none ↦ h
      | some bins ↦
          let h1 = attach this c (update h this (record t { children = bins })) in
          let t1 = h1 this in
          on_child_size_changed fuel t1.parent this change
            (update h1 this (record t1 { size = t1.size +ℤ change }))
    ]

-- The test of the change at the head of `onChildSizeChanged`, and the test of the parent in front
-- of each of its calls.
unfoldable pub notify_parent : ℕ → Ptr → ℤ → Store → Store
unfolding on_child_size_changed
notify_parent fuel c change h =
    let e = h c in if change ==ℤ pos 0 then h else on_child_size_changed fuel e.parent c change h

-- `addChild`.
unfoldable pub add_child : ℕ → Ptr → Ptr → Store → Store
unfolding notify_parent attach
add_child fuel this c h =
    let e = h c in
    let h1 = attach this c h in
    let t = h1 this in
    notify_parent fuel this e.size (update h1 this (record t { size = t.size +ℤ e.size }))

-- `setSize`.
unfoldable pub set_size : ℕ → Ptr → ℤ → Store → Store
unfolding notify_parent
set_size fuel c new_size h =
    let e = h c in
    notify_parent fuel c (new_size -ℤ e.size) (update h c (record e { size = new_size }))

-- The entries in the order in which a loop over bins and chains meets them.
unfoldable pub chains : List EntryBin → List Ptr
chains [] = []
chains (b ∷ bs) = b.chain ++ chains bs

-- `forEach`: the callback changes a state and says whether to go on. The result tells whether
-- there were children.
unfoldable pub visit {ℓ} : {S : Type ℓ} → (Ptr → S → S × Bool) → List Ptr → S → S
visit func [] s = s
visit func (c ∷ cs) s =
    let (s', go_on) = func c s in let rest = visit func cs s' in if go_on then rest else s'

unfoldable pub for_each {ℓ} : {S : Type ℓ} → (Ptr → S → S × Bool) → Ptr → Store → S → S × Bool
unfolding chains visit
for_each func this h s = elim (h this).children [
  | [] ↦ (s, false)
  | b ∷ bs ↦ (visit func (chains (b ∷ bs)) s, true)
]

-- `markChildrenPendingDelete`: the store, and how many files and directories are marked.
unfoldable pub mark_all : List Ptr → Store → ℕ → ℕ → Store × ℕ × ℕ
mark_all [] h files dirs = (h, files, dirs)
mark_all (c ∷ cs) h files dirs =
    let e = h c in
    mark_all cs (update h c (record e { pending_delete = true }))
      (if e.is_dir then files else files + 1) (if e.is_dir then dirs + 1 else dirs)

unfoldable pub mark_children_pending_delete : Ptr → Store → Store × ℕ × ℕ
unfolding mark_all chains
mark_children_pending_delete this h = mark_all (chains (h this).children) h 0 0

-- `unmarkPendingDelete`.
unfoldable pub unmark_pending_delete : Ptr → Store → Store
unmark_pending_delete c h = let e = h c in update h c (record e { pending_delete = false })

-- The loops of `removePendingDelete`: what stays in a chain, and what is moved out. The head of a
-- chain is looked at behind the others.
unfoldable pub sweep_rest : Store → List Ptr → List Ptr × List Ptr
sweep_rest h [] = ([], [])
sweep_rest h (x ∷ xs) =
    let (kept, deleted) = sweep_rest h xs in
    if (h x).pending_delete then (kept, x ∷ deleted) else (x ∷ kept, deleted)

unfoldable pub sweep_chain : Store → List Ptr → List Ptr × List Ptr
unfolding sweep_rest
sweep_chain h [] = ([], [])
sweep_chain h (x ∷ xs) =
    let (kept, deleted) = sweep_rest h xs in
    if (h x).pending_delete then (kept, deleted ++ x ∷ []) else (x ∷ kept, deleted)

unfoldable pub sweep : Store → List EntryBin → List EntryBin × List Ptr
unfolding sweep_chain
sweep h [] = ([], [])
sweep h (b ∷ bs) =
    let (kept, deleted) = sweep_chain h b.chain in
    let (bins, more) = sweep h bs in (without_empty b bins kept, deleted ++ more)

unfoldable pub total : (Ptr → ℤ) → List Ptr → ℤ
total size [] = pos 0
total size (c ∷ cs) = size c +ℤ total size cs

-- `removePendingDelete`, with the vector of the entries that are moved out.
unfoldable pub remove_pending_delete : ℕ → Ptr → Store → Store × List Ptr
unfolding sweep total notify_parent
remove_pending_delete fuel this h =
    let t = h this in
    let (bins, deleted) = sweep h t.children in
    let changed = total (λ c. (h c).size) deleted in
    let h1 = update h this (record t { children = bins }) in
    if ltb_ℤ (pos 0) changed
    then (
      notify_parent fuel this (pos 0 -ℤ changed)
          (update h1 this (record t { children = bins; size = t.size -ℤ changed })),
      deleted,
    )
    else (h1, deleted)
