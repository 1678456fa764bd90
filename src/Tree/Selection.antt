-- ===== src/Tree/Selection.antt =====
-- fs.c: which files a SELECT by identifier can reach.
use native_smart_card_os.Fs.{
  FsDescriptor, FsResult-cases, fs_fid_mf, fs_invalid_index, fs_is_usable, fs_type_df, fs_type_mf,
  ok,
}
use native_smart_card_os.Store.{Store, fs_store_read_desc}
use native_smart_card_os.Tree.Find.{fs_find_child, fs_root_index}
use native_smart_card_os.Tree.Lookup.{IsChild, fs_find_child-ok}
use native_smart_card_os.Tree.Select.{
  FsSelection, child_step, commit, fs_select_by_fid, parent_step, resolve, search_fid, self_step,
}
use native_smart_card_os.Common.{
  ==→eq, Bool-cases, arith, inl, inr, refl, true, ℕ, ◌==◌, if◌then◌else◌, ◌||◌, ◌≡◌, ◌≢◌,
}

-- The slot is the MF's under its reserved identifier, a child of the current DF, the current DF itself, or its parent,
-- and holds a file with that identifier.
pub data Near (s : Store) (sel : FsSelection) (file_id i : ℕ) : Type 0 where
  near_root : file_id ≡ fs_fid_mf → i ≡ fs_root_index → Near s sel file_id i
  near_child : IsChild s i sel.cur_df file_id → Near s sel file_id i
  near_self :
      (d : FsDescriptor)
      → fs_store_read_desc s i ≡ ok d
      → d.file_id ≡ file_id
      → i ≡ sel.cur_df
      → Near s sel file_id i
  near_parent :
      (d p : FsDescriptor)
      → fs_store_read_desc s sel.cur_df ≡ ok d
      → i ≡ d.parent
      → fs_store_read_desc s i ≡ ok p
      → p.file_id ≡ file_id
      → Near s sel file_id i

-- The selection of a file: a folder is the current DF, and a data file the current EF of its folder.
abbrev pub chosen : ℕ → FsDescriptor → FsSelection
chosen i d =
    if d.ftype == fs_type_mf || d.ftype == fs_type_df
    then record { cur_df = i; cur_ef = 0xFFFF }
    else record { cur_df = d.parent; cur_ef = i }

child_step_lem :
    (s : Store) (sel : FsSelection) (file_id : ℕ)
    → child_step s sel file_id ≢ fs_invalid_index
    → IsChild s (child_step s sel file_id) sel.cur_df file_id
unfolding child_step
child_step_lem s sel file_id ne = elim (FsResult-cases (fs_find_child s sel.cur_df file_id)) [
  | inl (j, r) ↦ ground (arith, r, fs_find_child-ok s sel.cur_df file_id j r)
  | inr (e, r) ↦ absurd (ne (ground (arith, r)))
]

self_step_lem :
    (s : Store) (sel : FsSelection) (file_id : ℕ)
    → self_step s sel file_id ≢ fs_invalid_index
    → Near s sel file_id (self_step s sel file_id)
unfolding self_step
self_step_lem s sel file_id ne = elim (FsResult-cases (fs_store_read_desc s sel.cur_df)) [
  | inr (e, r) ↦ absurd (ne (ground (arith, r)))
  | inl (d, r) ↦
      let same : self_step s sel file_id ≡ sel.cur_df = ground (arith, r) in
      rw same (near_self d r (ground (arith, r)) refl)
]

parent_step_lem :
    (s : Store) (sel : FsSelection) (file_id : ℕ)
    → parent_step s sel file_id ≢ fs_invalid_index
    → Near s sel file_id (parent_step s sel file_id)
unfolding parent_step
parent_step_lem s sel file_id ne = elim (FsResult-cases (fs_store_read_desc s sel.cur_df)) [
  | inr (e, r) ↦ absurd (ne (ground (arith, r)))
  | inl (d, r) ↦ elim (FsResult-cases (fs_store_read_desc s d.parent)) [
    | inr (e, q) ↦ absurd (ne (ground (arith, r, q)))
    | inl (p, q) ↦
        let same : parent_step s sel file_id ≡ d.parent = ground (arith, r, q) in
        rw same (near_parent d p r refl q (ground (arith, r, q)))
  ]
]

search_fid_lem :
    (s : Store) (sel : FsSelection) (file_id : ℕ)
    → search_fid s sel file_id ≢ fs_invalid_index
    → Near s sel file_id (search_fid s sel file_id)
unfolding search_fid
search_fid_lem s sel file_id ne = elim (Bool-cases (file_id == fs_fid_mf)) [
  | inl mf ↦ near_root (==→eq file_id fs_fid_mf mf) (ground (arith, mf))
  | inr other ↦ elim (Bool-cases (child_step s sel file_id == fs_invalid_index)) [
    | inr child ↦
        let same : search_fid s sel file_id ≡ child_step s sel file_id =
          ground (arith, other, child) in
        rw same (near_child (child_step_lem s sel file_id (ground (arith, child))))
    | inl no_child ↦ elim (Bool-cases (self_step s sel file_id == fs_invalid_index)) [
      | inr itself ↦
          let same : search_fid s sel file_id ≡ self_step s sel file_id =
            ground (arith, other, no_child, itself) in
          rw same (self_step_lem s sel file_id (ground (arith, itself)))
      | inl not_itself ↦
          let same : search_fid s sel file_id ≡ parent_step s sel file_id =
            ground (arith, other, no_child, not_itself) in
          rw same (parent_step_lem s sel file_id (ground (arith, same)))
    ]
  ]
]

-- A SELECT by identifier that succeeds has found a usable file: the MF under its reserved identifier, or a file with that
-- identifier which is a child of the current DF, the current DF itself or its parent. The new selection is that file: a folder is
-- the current DF, with no current EF, and a data file is the current EF of the folder that it stands in.
pub fs_select_by_fid_lem :
    (s : Store) (sel sel' : FsSelection) (file_id : ℕ)
    → fs_select_by_fid s sel file_id ≡ ok sel'
    → (i : ℕ) × (d : FsDescriptor) × Near s sel file_id i
      × (fs_store_read_desc s i ≡ ok d)
      × (fs_is_usable d ≡ true)
      × (sel' ≡ chosen i d)
unfolding fs_select_by_fid resolve commit
fs_select_by_fid_lem s sel sel' file_id h =
    let i = search_fid s sel file_id in
    elim (FsResult-cases (fs_store_read_desc s i)) [
      | inr (e, r) ↦ absurd (ground (arith, r))
      | inl (d, r) ↦ (
        i,
        d,
        search_fid_lem s sel file_id (ground (arith, r)),
        r,
        ground (arith, r),
        ground (arith, r),
      )
    ]
