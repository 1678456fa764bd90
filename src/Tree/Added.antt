-- ===== src/Tree/Added.antt =====
-- fs.c: `fs_create_file` adds one file to the tree, or changes nothing.
use native_smart_card_os.Fs.{
  FsDescriptor, FsError, FsResult-cases, err, err_no_space, err_not_found, fs_max_ef_size,
  fs_type_df, fs_type_ef_transparent, ok,
}
use native_smart_card_os.Store.{
  Store, desc_image, desc_offset, fs_store_read_desc, fs_store_write_desc,
}
use native_smart_card_os.Store.Alloc.{fs_store_alloc_data-ok, read_desc-with_top, with_top}
use native_smart_card_os.Store.Persist.{put_eeprom-IsStored}
use native_smart_card_os.Store.RoundTrip.{IsDescriptor}
use native_smart_card_os.Store.Slots.{fs_store_write_desc-ok, put_eeprom, read_desc-write_desc}
use native_smart_card_os.Tree.Create.{create_in, create_slot, fs_create_file, new_desc, store_new}
use native_smart_card_os.Tree.Creation.{IsCreatable, IsRequest, create_slot-ok}
use native_smart_card_os.Tree.Invariant.{HasData, IsFolder, IsTree, added-IsTree, with_top-IsTree}
use native_smart_card_os.Tree.Lookup.{
  IsChild, fs_find_child-none, fs_find_child_cases, read_desc_bound,
}
use native_smart_card_os.Tree.Select.{FsSelection}
use native_smart_card_os.Common.{
  Bool-cases, arith, if◌then◌else◌, inl, inr, leb, length, le→leb, refl, sym, ℕ, ◌+◌, ◌<◌, ◌==◌,
  ◌∙◌, ◌≡◌, ◌≤◌, ◌⊎◌,
}

-- The state after a descriptor is written.
abbrev pub written : Store → ℕ → FsDescriptor → Store
written s slot d = put_eeprom s (desc_offset slot) (desc_image d)

-- One slot holds a new descriptor, and the others what they held.
abbrev pub Adds : Store → Store → ℕ → FsDescriptor → Type 0
Adds s s' slot d =
    (j : ℕ) → fs_store_read_desc s' j ≡ (if j == slot then ok d else fs_store_read_desc s j)

module _ (s : Store) (slot : ℕ) (d : FsDescriptor) (h : IsTree s) (lt : slot < s.sb.max_files) where
  pub written-Adds :
      IsDescriptor (length s.nvm.flash_bytes) d
      → (fs_store_write_desc slot d s ≡ (ok tt, written s slot d))
        × Adds s (written s slot d) slot d
  written-Adds good =
      let e : fs_store_write_desc slot d s ≡ (ok tt, written s slot d) =
        fs_store_write_desc-ok h.stored.wellformed slot d lt (ground arith) in
      (e, λ j. rw e at (read_desc-write_desc slot j d h.stored.wellformed lt good).2)

  pub store_new-IsTree :
      IsDescriptor (length s.nvm.flash_bytes) d
      → fs_store_read_desc s slot ≡ err err_not_found
      → IsFolder s d.parent
      → ((j : ℕ) → ¬ IsChild s j d.parent d.file_id)
      → (HasData d → d.data_offset + d.size ≤ s.sb.data_top)
      → ((j : ℕ) (e : FsDescriptor)
          → fs_store_read_desc s j ≡ ok e
          → HasData e
          → HasData d
          → e.data_offset + e.size ≤ d.data_offset)
      → (store_new slot d s ≡ (ok slot, written s slot d))
        × IsTree (written s slot d)
        × Adds s (written s slot d) slot d
  unfolding store_new
  store_new-IsTree good free home new inside above =
      let (e, view) = written-Adds good in
      (
        ground (arith, e),
        added-IsTree s (written s slot d) slot d h
            (put_eeprom-IsStored (desc_offset slot) (desc_image d) h.stored (omega arith)) refl free
            view home new inside above,
        view,
      )

-- The place of the data of a new file.
abbrev pub new_offset : Store → FsDescriptor → ℕ
new_offset s req = if req.ftype == fs_type_ef_transparent then s.sb.data_top else 0

-- The descriptor of a new file: what is asked for, in the current DF, with its place in FLASH and no
-- flags.
abbrev pub asked_for : FsSelection → FsDescriptor → ℕ → FsDescriptor
asked_for sel req offset = record req { parent = sel.cur_df; data_offset = offset; flags = 0 }

-- What a created file is: a slot that was free holds the request, as a child of the current DF with
-- its data from the old data top on; the other slots are unchanged, and the tree is well formed.
abbrev pub Created : Store → FsSelection → FsDescriptor → ℕ → Store → Type 0
Created s sel req slot s' =
    (fs_store_read_desc s slot ≡ err err_not_found)
    × IsTree s'
    × Adds s s' slot (asked_for sel req (new_offset s req))

module _ (s : Store) (sel : FsSelection) (req : FsDescriptor) (slot : ℕ) (h : IsTree s)
    (bounds : IsRequest req) (go : IsCreatable s sel req slot) where
  -- No child of the current DF has the identifier.
  no-IsChild : (j : ℕ) → ¬ IsChild s j sel.cur_df req.file_id
  no-IsChild j = elim (fs_find_child_cases s sel.cur_df req.file_id h.stored.wellformed) [
    | inl (k, found) ↦ absurd (ground (arith, found, go.new_fid))
    | inr missing ↦ fs_find_child-none s sel.cur_df req.file_id j missing
  ]

  cur_df_fits : sel.cur_df < 65536
  cur_df_fits =
      let (d, r, f) = go.folder in
      let (on, lt) = read_desc_bound s sel.cur_df r in omega (arith, h.stored.wellformed.few_files)

  -- A DF is stored with no data.
  create_in-df :
      req.ftype ≡ fs_type_df
      → req.size ≡ 0
      → let s' = written s slot (new_desc sel req 0) in
        (create_in slot sel req s ≡ (ok slot, s')) × IsTree s' × Adds s s' slot (new_desc sel req 0)
  unfolding create_in
  create_in-df df empty =
      let (e, tree, view) =
        store_new-IsTree s slot (new_desc sel req 0) h go.in_table
          (record {
            file_id_fits = bounds.fid_fits;
            type_stored = inr (inl df);
            lifecycle_fits = go.alive;
            parent_fits = cur_df_fits;
            size_fits = omega arith;
            offset_fits = omega arith;
            data_inside = λ x. absurd (omega arith);
          })
          go.free go.folder no-IsChild (λ x. absurd (omega arith))
          (λ j e r x y. absurd (omega arith)) in
      (ground (arith, e), tree, view)

  -- An EF that fits is stored with a block of its own.
  create_in-ef :
      HasData req
      → req.size ≤ fs_max_ef_size
      → s.sb.data_top + req.size ≤ length s.nvm.flash_bytes
      → let s' =
          written (with_top s (s.sb.data_top + req.size)) slot (new_desc sel req s.sb.data_top) in
        (create_in slot sel req s ≡ (ok slot, s'))
        × IsTree s'
        × Adds s s' slot (new_desc sel req s.sb.data_top)
  unfolding create_in
  create_in-ef ef small room =
      let top = s.sb.data_top + req.size in
      let same : (i : ℕ) → fs_store_read_desc (with_top s top) i ≡ fs_store_read_desc s i =
        λ i. read_desc-with_top top i s in
      let (e, tree, view) =
        store_new-IsTree (with_top s top) slot (new_desc sel req s.sb.data_top)
          (with_top-IsTree top h (omega arith) room) go.in_table
          (record {
            file_id_fits = bounds.fid_fits;
            type_stored = inr (inr ef);
            lifecycle_fits = go.alive;
            parent_fits = cur_df_fits;
            size_fits = omega arith;
            offset_fits = omega (arith, h.stored.wellformed.flash_narrow);
            data_inside = λ x. room;
          })
          (same slot ∙ go.free) (rw (same sel.cur_df) go.folder) (λ j. rw (same j) (no-IsChild j))
          (λ x. omega arith) (λ j e r x y. omega (arith, h.placed j e (sym (same j) ∙ r) x)) in
      (
        ground (arith, e, fs_store_alloc_data-ok req.size h.stored.wellformed, le→leb _ _ room),
        tree,
        λ j. rw (sym (same j)) (view j),
      )

  -- The new file is stored, or FLASH is full and nothing changes.
  pub create_in_lem :
      ((s' : Store) × (create_in slot sel req s ≡ (ok slot, s')) × Created s sel req slot s')
      ⊎ (create_in slot sel req s ≡ (err err_no_space, s))
  unfolding create_in
  create_in_lem = elim go.typed [
    | inl (df, empty) ↦
        let (e, tree, view) = create_in-df df empty in
        inl (_, e, (go.free, tree, λ j. ground (arith, view j)))
    | inr (ef, some_data, small) ↦
        elim (Bool-cases (leb (s.sb.data_top + req.size) (length s.nvm.flash_bytes))) [
          | inr full ↦ inr (ground (arith, fs_store_alloc_data-ok req.size h.stored.wellformed))
          | inl room ↦
              let (e, tree, view) = create_in-ef ef small (ground arith) in
              inl (_, e, (go.free, tree, λ j. ground (arith, view j)))
        ]
  ]

-- From a well-formed tree and a request whose numbers fit their fields, `fs_create_file` either
-- answers a slot that was free and now holds the file, with every other slot unchanged and the tree
-- well formed again, or it answers an error and the store is exactly what it was.
pub fs_create_file_lem :
    (s : Store) (sel : FsSelection) (req : FsDescriptor)
    → IsTree s
    → IsRequest req
    → ((slot : ℕ) × (s' : Store) × (fs_create_file sel req s ≡ (ok slot, s'))
        × Created s sel req slot s')
      ⊎ ((e : FsError) × (fs_create_file sel req s ≡ (err e, s)))
unfolding fs_create_file
fs_create_file_lem s sel req h bounds = elim (FsResult-cases (create_slot s sel req)) [
  | inr (e, r) ↦ inr (e, ground (arith, r))
  | inl (slot, r) ↦ elim (create_in_lem s sel req slot h bounds (create_slot-ok s sel req slot r)) [
    | inl (s', e, made) ↦ inl (slot, s', ground (arith, r, e), made)
    | inr full ↦ inr (err_no_space, ground (arith, r, full))
  ]
]
