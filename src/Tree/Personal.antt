-- ===== src/Tree/Personal.antt =====
-- fs.c: `fs_personalise` lays out the factory's file tree.
use mathlib.Core.Path.{subst}
use native_smart_card_os.Fs.{
  FsDescriptor, err, err_not_found, fs_is_df, fs_max_files, fs_type_df, fs_type_ef_transparent, ok,
}
use native_smart_card_os.Store.{Store, fs_store_read_desc}
use native_smart_card_os.Store.Alloc.{fs_store_alloc_data-ok, read_desc-with_top, with_top}
use native_smart_card_os.Store.RoundTrip.{IsDescriptor}
use native_smart_card_os.Tree.Added.{Adds, store_new-IsTree, written, written-Adds}
use native_smart_card_os.Tree.Init.{LayoutRow, row_desc, write_row}
use native_smart_card_os.Tree.Invariant.{IsFolder, IsTree, with_top-IsTree}
use native_smart_card_os.Tree.Lookup.{IsChild}
use native_smart_card_os.Common.{
  ==→eq, All, Bool-cases, List, [], arith, false, if◌then◌else◌, inl, inr, length, le→leb, refl,
  sym, true, ℕ, ◌&&◌, ◌+◌, ◌<◌, ◌==◌, ◌∙◌, ◌∷◌, ◌≡◌, ◌≤◌, ◌⊎◌,
}

-- The file of a slot is one of the list.
abbrev pub Listed : ℕ → FsDescriptor → List (ℕ × FsDescriptor) → Type 0
Listed j d [] = ⊥
Listed j d ((i, e) ∷ files) = ((j ≡ i) × (d ≡ e)) ⊎ Listed j d files

-- What holds of every file of a list holds of the one that is listed.
listed-All :
    (P : FsDescriptor → Type 0) (j : ℕ) (d : FsDescriptor) (files : List (ℕ × FsDescriptor))
    → All (λ f. P f.1) files
    → Listed j d files
    → P d
listed-All P j d [] all here = absurd here
listed-All P j d ((i, e) ∷ files) (p, all) (inl (same, eq)) = subst P (sym eq) p
listed-All P j d ((i, e) ∷ files) (p, all) (inr later) = listed-All P j d files all later

-- A well-formed tree whose files are those of the list, with the slots from `n` on free.
pub record HasFiles (s : Store) (files : List (ℕ × FsDescriptor)) (n : ℕ) : Type 0 where
  pub tree : IsTree s
  pub there : (j : ℕ) (d : FsDescriptor) → Listed j d files → fs_store_read_desc s j ≡ ok d
  pub only : (j : ℕ) (d : FsDescriptor) → fs_store_read_desc s j ≡ ok d → Listed j d files
  pub free : (j : ℕ) → n ≤ j → j < fs_max_files → fs_store_read_desc s j ≡ err err_not_found

-- The row gives a file a place of its own among the files.
pub record IsRow (row : LayoutRow) (files : List (ℕ × FsDescriptor)) : Type 0 where
  pub typed : ((row.ftype ≡ fs_type_df) × (row.size ≡ 0)) ⊎ (row.ftype ≡ fs_type_ef_transparent)
  pub fid_fits : row.file_id < 65536
  pub size_fits : row.size < 65536
  pub parent_fits : row.parent < 65536
  pub folder : (d : FsDescriptor) × Listed row.parent d files × (fs_is_df d ≡ true)
  pub new : All (λ f. (f.1.parent == row.parent && f.1.file_id == row.file_id) ≡ false) files

-- A new file in the first free slot.
module _ (s : Store) (files : List (ℕ × FsDescriptor)) (n : ℕ) (h : HasFiles s files n)
    (lt : n < fs_max_files) where
  grown-HasFiles :
      (s' : Store) (d : FsDescriptor)
      → IsTree s'
      → Adds s s' n d
      → HasFiles s' ((n, d) ∷ files) (n + 1)
  grown-HasFiles s' d tree view = record {
    tree = tree;
    there = λ j e here. elim here [
      | inl (same, eq) ↦ ground (arith, view j, same, eq)
      | inr later ↦ ground (arith, view j, h.there j e later, h.free n (omega arith) lt)
    ];
    only = λ j e r. elim (Bool-cases (j == n)) [
      | inl same ↦ inl (==→eq j n same, ground (arith, view j, r))
      | inr other ↦ inr (h.only j e (ground (arith, view j, r)))
    ];
    free = λ j lo hi. ground (arith, view j, h.free j);
  }

  module _ (row : LayoutRow) (here : row.index ≡ n) (go : IsRow row files) where
    no-IsChild : (j : ℕ) → ¬ IsChild s j row.parent row.file_id
    no-IsChild j (d, r, p, f) =
        let clash =
          listed-All (λ e. (e.parent == row.parent && e.file_id == row.file_id) ≡ false) j d files
            go.new (h.only j d r) in
        ground (arith, clash)

    home-IsFolder : IsFolder s row.parent
    home-IsFolder = let (d, listed, df) = go.folder in (d, h.there row.parent d listed, df)

    -- What a row leaves: one more file, and the data top above its data.
    abbrev pub Laid : Type 0
    Laid =
        (s' : Store) × (d : FsDescriptor) × (write_row row s ≡ (ok tt, s'))
        × HasFiles s' ((n, d) ∷ files) (n + 1)
        × (d ≡ row_desc row (if row.ftype == fs_type_ef_transparent then s.sb.data_top else 0))
        × (s'.sb.data_top ≡ s.sb.data_top + row.size)
        × (s'.nvm.flash_bytes ≡ s.nvm.flash_bytes)

    in_table : n < s.sb.max_files
    in_table = omega (arith, lt, h.tree.stored.all_files)

    write_row-df : row.ftype ≡ fs_type_df → row.size ≡ 0 → Laid
    unfolding write_row
    write_row-df df empty =
        let d = row_desc row 0 in
        let good : IsDescriptor (length s.nvm.flash_bytes) d = record {
          file_id_fits = go.fid_fits;
          type_stored = inr (inl df);
          lifecycle_fits = omega arith;
          parent_fits = go.parent_fits;
          size_fits = go.size_fits;
          offset_fits = omega arith;
          data_inside = λ x. absurd (omega arith);
        } in
        let (e, view) = written-Adds s n d h.tree in_table good in
        let (stored, tree, same) =
          store_new-IsTree s n d h.tree in_table good (h.free n (omega arith) lt) home-IsFolder
            no-IsChild (λ x. absurd (omega arith)) (λ j f r x y. absurd (omega arith)) in
        (
          written s n d,
          d,
          ground (arith, e, here, df),
          grown-HasFiles (written s n d) d tree view,
          ground (arith, df),
          omega (arith, empty),
          refl,
        )

    write_row-ef :
        row.ftype ≡ fs_type_ef_transparent
        → s.sb.data_top + row.size ≤ length s.nvm.flash_bytes
        → Laid
    unfolding write_row
    write_row-ef ef room =
        let d = row_desc row s.sb.data_top in
        let top = s.sb.data_top + row.size in
        let t = with_top s top in
        let same : (i : ℕ) → fs_store_read_desc t i ≡ fs_store_read_desc s i =
          λ i. read_desc-with_top top i s in
        let tree = with_top-IsTree top h.tree (omega arith) room in
        let good : IsDescriptor (length s.nvm.flash_bytes) d = record {
          file_id_fits = go.fid_fits;
          type_stored = inr (inr ef);
          lifecycle_fits = omega arith;
          parent_fits = go.parent_fits;
          size_fits = go.size_fits;
          offset_fits = omega (arith, h.tree.stored.wellformed.flash_narrow);
          data_inside = λ x. room;
        } in
        let (e, view) = written-Adds t n d tree in_table good in
        let (stored, tree', view') =
          store_new-IsTree t n d tree in_table good (same n ∙ h.free n (omega arith) lt)
            (rw (same row.parent) home-IsFolder) (λ j. rw (same j) (no-IsChild j))
            (λ x. omega arith)
            (λ j f r x y. omega (arith, h.tree.placed j f (sym (same j) ∙ r) x)) in
        (
          written t n d,
          d,
          ground (
            arith,
            e,
            here,
            ef,
            fs_store_alloc_data-ok row.size h.tree.stored.wellformed,
            le→leb _ _ room,
          ),
          grown-HasFiles (written t n d) d tree' (λ j. rw (sym (same j)) (view j)),
          ground (arith, ef),
          refl,
          refl,
        )

    pub write_row_lem : s.sb.data_top + row.size ≤ length s.nvm.flash_bytes → Laid
    write_row_lem room = elim go.typed [
      | inl (df, empty) ↦ write_row-df df empty
      | inr ef ↦ write_row-ef ef room
    ]
