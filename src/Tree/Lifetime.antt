-- ===== src/Tree/Lifetime.antt =====
-- fs.c: a file that has just been created is found, and can be deleted again.
use mathlib.Core.Path.{subst}
use native_smart_card_os.Fs.{
  FsDescriptor, FsResult-cases, err, err_not_usable, fs_fid_mf, fs_invalid_index, fs_lc_activated,
  fs_type_df, ok,
}
use native_smart_card_os.Store.{Store, fs_store_max_files, fs_store_read_desc}
use native_smart_card_os.Store.Slots.{read_desc-free_desc}
use native_smart_card_os.Tree.Added.{Created, create_in_lem, new_offset}
use native_smart_card_os.Tree.Create.{
  create_slot, delete_slot, deselect, fs_create_file, fs_delete_file, new_desc,
}
use native_smart_card_os.Tree.Creation.{IsCreatable, IsRequest, create_slot-ok}
use native_smart_card_os.Tree.Find.{child_count_loop, fs_child_count, fs_find_child}
use native_smart_card_os.Tree.Invariant.{IsTree}
use native_smart_card_os.Tree.Lookup.{
  IsChild, fs_find_child-none, fs_find_child-ok, fs_find_child_cases, read_desc_bound,
}
use native_smart_card_os.Tree.Removed.{fs_delete_file_lem}
use native_smart_card_os.Tree.Select.{
  FsSelection, child_step, commit, fs_select_by_fid, resolve, search_fid,
}
use native_smart_card_os.Common.{
  Bool-cases, ap, arith, if◌then◌else◌, inl, inr, refl, suc, sym, zero, ℕ, ◌+◌, ◌==◌, ◌<◌, ◌∙◌, ◌≡◌,
  ◌≢◌,
}

-- In a well-formed tree the search finds the one child with that identifier.
pub fs_find_child-IsChild :
    (s : Store) (i parent file_id : ℕ)
    → IsTree s
    → IsChild s i parent file_id
    → fs_find_child s parent file_id ≡ ok i
fs_find_child-IsChild s i parent file_id h (d, r, p, f) =
    elim (fs_find_child_cases s parent file_id h.stored.wellformed) [
      | inr missing ↦ absurd (fs_find_child-none s parent file_id i missing (d, r, p, f))
      | inl (j, found) ↦
          let (e, q, u, v) = fs_find_child-ok s parent file_id j found in
          let same : j ≡ i = h.distinct j i e d q r (u ∙ sym p) (v ∙ sym f) in found ∙ ap ok same
    ]

child_count_loop_none :
    (n i : ℕ) (s : Store) (parent count : ℕ)
    → ((j : ℕ) (e : FsDescriptor) → fs_store_read_desc s j ≡ ok e → e.parent ≢ parent)
    → child_count_loop n i s parent count ≡ count
unfolding child_count_loop
child_count_loop_none zero i s parent count none_there = refl
child_count_loop_none (suc n) i s parent count none_there =
    let rest = child_count_loop_none n (i + 1) s parent count none_there in
    elim (FsResult-cases (fs_store_read_desc s i)) [
      | inr (x, r) ↦ ground (arith, rest)
      | inl (d, r) ↦ ground (arith, rest, none_there i d r)
    ]

module _ (s s' : Store) (sel : FsSelection) (req : FsDescriptor) (slot : ℕ) (h : IsTree s)
    (bounds : IsRequest req) (done : fs_create_file sel req s ≡ (ok slot, s')) where
  -- What `fs_create_file` did, and the checks that the request passed.
  pub creation : Created s sel req slot s' × IsCreatable s sel req slot
  unfolding fs_create_file
  creation = elim (FsResult-cases (create_slot s sel req)) [
    | inr (x, r) ↦ absurd (ground (arith, r, done))
    | inl (i, r) ↦
        let go = create_slot-ok s sel req i r in
        elim (create_in_lem s sel req i h bounds go) [
          | inr full ↦ absurd (ground (arith, r, full, done))
          | inl (t, e, made) ↦
              let same : (i ≡ slot) × (t ≡ s') = ground (arith, r, e, done) in
              (
                subst (λ x. Created s sel req x s') (same.0)
                    (subst (Created s sel req i) (same.1) made),
                subst (IsCreatable s sel req) (same.0) go,
              )
        ]
  ]

  unreserved : req.file_id ≢ fs_fid_mf
  unfolding fs_create_file create_slot
  unreserved e = ground (arith, done, e)

  -- The new descriptor stands in the slot, which lies in the table.
  abbrev new_file : FsDescriptor
  new_file = new_desc sel req (new_offset s req)

  pub stored : fs_store_read_desc s' slot ≡ ok new_file
  stored = let (free, tree, view) = creation.0 in ground (arith, view slot)

  found : fs_find_child s' sel.cur_df req.file_id ≡ ok slot
  found =
      fs_find_child-IsChild s' slot sel.cur_df req.file_id (creation.0.1)
        (new_file, stored, refl, refl)

  pub slot_bound : (slot < s.sb.max_files) × (slot ≢ fs_invalid_index)
  slot_bound =
      (creation.1.in_table, omega (arith, creation.1.in_table, h.stored.wellformed.few_files))

  -- A file that has just been created is selected by its identifier if it is activated, and is not usable
  -- otherwise. A folder becomes the current DF, and a data file the current EF of its folder.
  pub create_then_select : fs_select_by_fid s' sel req.file_id ≡ (
      if req.lifecycle == fs_lc_activated
      then ok (
          if req.ftype == fs_type_df
          then record { cur_df = slot; cur_ef = fs_invalid_index }
          else record { cur_df = sel.cur_df; cur_ef = slot })
      else err err_not_usable)
  unfolding fs_select_by_fid search_fid child_step resolve commit
  create_then_select = ground (arith, unreserved, found, stored, slot_bound, creation.1.typed)

  -- Nothing stands in the new file.
  no_children : (j : ℕ) (e : FsDescriptor) → fs_store_read_desc s' j ≡ ok e → e.parent ≢ slot
  no_children j e r p =
      let (free, tree, view) = creation.0 in
      let (home, u, f) = creation.1.folder in
      elim (Bool-cases (j == slot)) [
        | inl same ↦ ground (arith, view j)
        | inr other ↦ elim (h.homed j e (ground (arith, view j))) [
          | inl orphan ↦ omega (arith, slot_bound, h.stored.wellformed.few_files)
          | inr (d, q, folder) ↦ ground arith
        ]
      ]

  deletable : delete_slot s' sel req.file_id ≡ ok slot
  unfolding delete_slot fs_child_count
  deletable = ground (
    arith,
    unreserved,
    found,
    stored,
    creation.1.typed,
    child_count_loop_none (fs_store_max_files s') 0 s' slot 0 no_children,
  )

  -- A file that has just been created is deleted again by its identifier. The selection then does not point
  -- at it, the tree is well formed, and every slot holds what it held before the file was created.
  pub create_then_delete :
      (t : Store) × (fs_delete_file sel req.file_id s' ≡ (ok (deselect sel slot), t))
      × IsTree t
      × ((deselect sel slot).cur_df ≢ slot)
      × ((deselect sel slot).cur_ef ≢ slot)
      × ((j : ℕ) → fs_store_read_desc t j ≡ fs_store_read_desc s j)
  unfolding fs_delete_file
  create_then_delete =
      let (free, tree, view) = creation.0 in
      elim (fs_delete_file_lem s' sel req.file_id tree) [
        | inl (i, t, e, deleted) ↦
            let ((d, r, p, f), not_root, empty, tree', gone, df, ef) = deleted in
            let same : i ≡ slot = tree.distinct i slot d new_file r stored p f in
            (
              t,
              rw (sym same) e,
              tree',
              rw (sym same) df,
              rw (sym same) ef,
              λ j. ground (arith, view j, gone j, same, free),
            )
        | inr (x, e) ↦
            let (on, lt) = read_desc_bound s' slot stored in
            absurd (
              ground (arith, e, deletable, read_desc-free_desc slot slot tree.stored.wellformed lt))
      ]
