-- ===== src/Tree/Removed.antt =====
-- fs.c: `fs_delete_file` takes one file out of the tree, or changes nothing.
use native_smart_card_os.Fs.{
  FsDescriptor, FsError, FsResult-cases, err, err_not_found, fs_invalid_index, fs_is_df, fs_type_mf,
  ok,
}
use native_smart_card_os.Store.{Store, fs_store_free_desc, fs_store_max_files, fs_store_read_desc}
use native_smart_card_os.Store.Persist.{free_desc-IsStored}
use native_smart_card_os.Store.RoundTrip.{IsStore}
use native_smart_card_os.Store.Slots.{fs_store_free_desc-ok, read_desc-free_desc}
use native_smart_card_os.Tree.Create.{delete_slot, deselect, fs_delete_file}
use native_smart_card_os.Tree.Find.{child_count_loop, fs_child_count, fs_find_child, fs_root_index}
use native_smart_card_os.Tree.Invariant.{IsTree, removed-IsTree}
use native_smart_card_os.Tree.Lookup.{IsChild, fs_find_child-ok, read_desc_bound}
use native_smart_card_os.Tree.Select.{FsSelection}
use native_smart_card_os.Common.{
  ==→eq, Bool-cases, arith, if◌then◌else◌, inl, inr, suc, sym, true, zero, ℕ, ◌+◌, ◌<◌, ◌==◌, ◌≡◌,
  ◌≢◌, ◌≤◌, ◌⊎◌,
}

child_count_loop_lem :
    (n i : ℕ) (s : Store) (parent count : ℕ)
    → count + n < 65536
    → count ≤ child_count_loop n i s parent count
unfolding child_count_loop
child_count_loop_lem zero i s parent count h = omega arith
child_count_loop_lem (suc n) i s parent count h = ground (
  arith,
  child_count_loop_lem n (i + 1) s parent count,
  child_count_loop_lem n (i + 1) s parent (count + 1),
)

-- A count of zero finds no child in the slots it visits.
child_count_loop_zero :
    (n i : ℕ) (s : Store) (parent j : ℕ) (d : FsDescriptor)
    → n < 65535
    → child_count_loop n i s parent 0 ≡ 0
    → i ≤ j
    → j < i + n
    → fs_store_read_desc s j ≡ ok d
    → d.parent ≢ parent
unfolding child_count_loop
child_count_loop_zero zero i s parent j d small h lo hi r p = omega arith
child_count_loop_zero (suc n) i s parent j d small h lo hi r p = elim (Bool-cases (i == j)) [
  | inl same ↦ ground (arith, ==→eq i j same, child_count_loop_lem n (i + 1) s parent 1)
  | inr other ↦ elim (FsResult-cases (fs_store_read_desc s i)) [
    | inr (e, q) ↦
        child_count_loop_zero n (i + 1) s parent j d (omega arith) (ground arith) (ground arith)
          (omega arith) r p
    | inl (c, q) ↦ elim (Bool-cases (c.parent == parent)) [
      | inl child ↦ absurd (ground (arith, child_count_loop_lem n (i + 1) s parent 1))
      | inr stranger ↦
          child_count_loop_zero n (i + 1) s parent j d (omega arith) (ground arith) (ground arith)
            (omega arith) r p
    ]
  ]
]

-- A folder whose children count as none has no readable child.
child_count_lem :
    (s : Store) (parent j : ℕ) (d : FsDescriptor)
    → IsStore s
    → fs_child_count s parent ≡ 0
    → fs_store_read_desc s j ≡ ok d
    → d.parent ≢ parent
unfolding fs_child_count
child_count_lem s parent j d h zero_count r =
    let (on, lt) = read_desc_bound s j r in
    child_count_loop_zero (fs_store_max_files s) 0 s parent j d (ground (arith, h.few_files))
      zero_count (omega arith) (ground arith) r

-- What holds of a file that passes every check of a deletion.
record IsDeletable (s : Store) (sel : FsSelection) (file_id index : ℕ) : Type 0 where
  child : IsChild s index sel.cur_df file_id
  not_root : (d : FsDescriptor) → fs_store_read_desc s index ≡ ok d → d.ftype ≢ fs_type_mf
  is_empty :
      (d : FsDescriptor)
      → fs_store_read_desc s index ≡ ok d
      → fs_is_df d ≡ true
      → fs_child_count s index ≡ 0

delete_slot-ok :
    (s : Store) (sel : FsSelection) (file_id index : ℕ)
    → delete_slot s sel file_id ≡ ok index
    → IsDeletable s sel file_id index
unfolding delete_slot
delete_slot-ok s sel file_id index h = elim (FsResult-cases (fs_find_child s sel.cur_df file_id)) [
  | inr (e, r) ↦ absurd (ground arith)
  | inl (j, r) ↦ elim (FsResult-cases (fs_store_read_desc s j)) [
    | inr (e, q) ↦ absurd (ground arith)
    | inl (d, q) ↦ record {
      child = ground (arith, fs_find_child-ok s sel.cur_df file_id j r);
      not_root = ground arith;
      is_empty = ground arith;
    }
  ]
]

-- Nothing stands in a file that may be deleted.
deletable_empty :
    (s : Store) (sel : FsSelection) (file_id index : ℕ)
    → IsTree s
    → IsDeletable s sel file_id index
    → (j : ℕ) (e : FsDescriptor) → fs_store_read_desc s j ≡ ok e
    → e.parent ≢ index
deletable_empty s sel file_id index h go j e r p =
    let (d, q, in_df, named) = go.child in
    let (on, lt) = read_desc_bound s index q in
    elim (h.homed j e r) [
      | inl orphan ↦ omega (arith, h.stored.wellformed.few_files)
      | inr (f, u, folder) ↦ absurd (
          child_count_lem s index j e h.stored.wellformed (go.is_empty f (rw (sym p) u) folder) r p)
    ]

-- One slot is free, and the others hold what they held.
abbrev pub Removes : Store → Store → ℕ → Type 0
Removes s s' slot =
    (j : ℕ)
    → fs_store_read_desc s' j ≡ (if j == slot then err err_not_found else fs_store_read_desc s j)

-- A selection that is left after a deletion does not point at the slot.
deselect_lem :
    (sel : FsSelection) (index : ℕ)
    → index ≢ fs_root_index
    → index ≢ fs_invalid_index
    → ((deselect sel index).cur_df ≢ index) × ((deselect sel index).cur_ef ≢ index)
unfolding deselect
deselect_lem sel index a b = ground arith

-- What a deletion does: the slot held a child of the current DF with that identifier, which was not
-- the root and in which no file stood. The slot is free, the others are unchanged, the tree is well
-- formed, and the selection that is left does not point at the slot.
abbrev pub Deleted : Store → FsSelection → ℕ → ℕ → Store → Type 0
Deleted s sel file_id index s' =
    IsChild s index sel.cur_df file_id
    × (index ≢ fs_root_index)
    × ((j : ℕ) (e : FsDescriptor) → fs_store_read_desc s j ≡ ok e → e.parent ≢ index)
    × IsTree s'
    × Removes s s' index
    × ((deselect sel index).cur_df ≢ index)
    × ((deselect sel index).cur_ef ≢ index)

-- From a well-formed tree `fs_delete_file` either frees the slot of a child of the current DF with
-- that identifier, which is not the root and in which no file stands: then the other slots are
-- unchanged, the tree is well formed again and the selection that is left does not point at the
-- slot; or it answers an error and the store is exactly what it was.
pub fs_delete_file_lem :
    (s : Store) (sel : FsSelection) (file_id : ℕ)
    → IsTree s
    → ((index : ℕ) × (s' : Store) × (fs_delete_file sel file_id s ≡ (ok (deselect sel index), s'))
        × Deleted s sel file_id index s')
      ⊎ ((e : FsError) × (fs_delete_file sel file_id s ≡ (err e, s)))
unfolding fs_delete_file
fs_delete_file_lem s sel file_id h = elim (FsResult-cases (delete_slot s sel file_id)) [
  | inr (e, r) ↦ inr (e, ground (arith, r))
  | inl (index, r) ↦
      let go = delete_slot-ok s sel file_id index r in
      let (d, q, in_df, named) = go.child in
      let (on, lt) = read_desc_bound s index q in
      let s' = (fs_store_free_desc index s).1 in
      let view : Removes s s' index = λ j. (read_desc-free_desc index j h.stored.wellformed lt).2 in
      let not_root : index ≢ fs_root_index =
        λ same. let (mf, u, is_mf) = h.root in go.not_root mf (rw same u) is_mf.0 in
      let empty = deletable_empty s sel file_id index h go in
      let tree =
        removed-IsTree s s' index h (free_desc-IsStored index h.stored lt)
          (ground (arith, fs_store_free_desc-ok h.stored.wellformed index lt)) view not_root
          (λ j e u ne. empty j e u) in
      let (no_df, no_ef) =
        deselect_lem sel index not_root (omega (arith, h.stored.wellformed.few_files)) in
      inl (
        index,
        s',
        ground (arith, r, read_desc-free_desc index 0 h.stored.wellformed lt),
        (go.child, not_root, empty, tree, view, no_df, no_ef),
      )
]
