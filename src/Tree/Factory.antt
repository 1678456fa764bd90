-- ===== src/Tree/Factory.antt =====
-- fs.c: what `fs_personalise` makes of a chip.
use mathlib.Core.Path.{subst}
use native_smart_card_os.Fs.{
  FsDescriptor, fs_lc_activated, fs_max_files, fs_type_ef_transparent, ok,
}
use native_smart_card_os.Hal.{Nvm}
use native_smart_card_os.Store.{
  Store, desc_offset, fs_store_format, fs_store_read_desc, fs_store_write_desc,
}
use native_smart_card_os.Store.Format.{format_empties}
use native_smart_card_os.Tree.Find.{fs_root_index}
use native_smart_card_os.Tree.Init.{
  LayoutRow, fs_personalise, layout, mf_desc, write_mf, write_rows,
}
use native_smart_card_os.Tree.Invariant.{IsTree}
use native_smart_card_os.Tree.Personal.{HasFiles, IsRow, Listed, write_row_lem}
use native_smart_card_os.Tree.Rooted.{rooted-IsTree, rooted_view}
use native_smart_card_os.Common.{
  List, [], arith, if◌then◌else◌, inl, inr, length, refl, true, ℕ, ◌+◌, ◌<◌, ◌==◌, ◌^◌, ◌∙◌, ◌∷◌,
  ◌≡◌, ◌≤◌,
}

-- The descriptor of a row above `top` bytes of data: activated, with access rules of zero.
abbrev pub placed_at : LayoutRow → ℕ → FsDescriptor
placed_at row top = record {
  file_id = row.file_id;
  ftype = row.ftype;
  lifecycle = fs_lc_activated;
  parent = row.parent;
  size = row.size;
  data_offset = if row.ftype == fs_type_ef_transparent then top else 0;
  ac_read = 0;
  ac_update = 0;
  sfi = row.sfi;
  flags = 0;
}

-- The rows, each in the next slot and the next block, on top of the files so far.
abbrev pub laid_out : List LayoutRow → List (ℕ × FsDescriptor) → ℕ → ℕ → List (ℕ × FsDescriptor)
laid_out [] files n top = files
laid_out (row ∷ rows) files n top =
    laid_out rows ((n, placed_at row top) ∷ files) (n + 1) (top + row.size)

-- Every row names its slot, and has a place of its own.
abbrev pub IsLayout : List LayoutRow → List (ℕ × FsDescriptor) → ℕ → ℕ → Type 0
IsLayout [] files n top = Unit
IsLayout (row ∷ rows) files n top =
    (row.index ≡ n)
    × IsRow row files
    × IsLayout rows ((n, placed_at row top) ∷ files) (n + 1) (top + row.size)

abbrev pub bytes_of : List LayoutRow → ℕ
bytes_of [] = 0
bytes_of (row ∷ rows) = row.size + bytes_of rows

write_rows_lem :
    (rows : List LayoutRow) (s : Store) (files : List (ℕ × FsDescriptor)) (n top : ℕ)
    → HasFiles s files n
    → n + length rows ≤ fs_max_files
    → s.sb.data_top ≡ top
    → IsLayout rows files n top
    → top + bytes_of rows ≤ length s.nvm.flash_bytes
    → (s' : Store) × (write_rows rows s ≡ (ok tt, s'))
      × HasFiles s' (laid_out rows files n top) (n + length rows)
      × (s'.nvm.flash_bytes ≡ s.nvm.flash_bytes)
unfolding write_rows
write_rows_lem [] s files n top h lt at plan room =
    (s, refl, subst (HasFiles s files) (omega arith) h, refl)
write_rows_lem (row ∷ rows) s files n top h lt at (here, go, plan) room =
    let (s1, d, e, h1, is_d, top1, flash1) =
      write_row_lem s files n h (omega (arith, lt)) row here go (omega (arith, room, at)) in
    let is_placed : d ≡ placed_at row top = ground (arith, is_d, at) in
    let h1' = subst (λ x. HasFiles s1 ((n, x) ∷ files) (n + 1)) is_placed h1 in
    let (s2, f, h2, flash2) =
      write_rows_lem rows s1 ((n, placed_at row top) ∷ files) (n + 1) (top + row.size) h1'
        (omega (arith, lt)) (omega (arith, top1, at)) plan (ground (arith, room, flash1)) in
    (
      s2,
      ground (arith, e, f),
      subst (HasFiles s2 (laid_out rows ((n, placed_at row top) ∷ files) (n + 1) (top + row.size)))
          (omega arith) h2,
      flash2 ∙ flash1,
    )

-- The files of a card that leaves the factory, by their slots, with the blocks of their data.
abbrev pub factory_files : List (ℕ × FsDescriptor)
factory_files = laid_out layout ((fs_root_index, mf_desc) ∷ []) 1 0

layout-IsLayout : IsLayout layout ((fs_root_index, mf_desc) ∷ []) 1 0
layout-IsLayout = (
  refl,
  record {
    typed = inr refl;
    fid_fits = omega arith;
    size_fits = omega arith;
    parent_fits = omega arith;
    folder = (mf_desc, inl (refl, refl), refl);
    new = (refl, tt);
  },
  (
    refl,
    record {
      typed = inl (refl, refl);
      fid_fits = omega arith;
      size_fits = omega arith;
      parent_fits = omega arith;
      folder = (mf_desc, inr (inl (refl, refl)), refl);
      new = (refl, (refl, tt));
    },
    (
      refl,
      record {
        typed = inr refl;
        fid_fits = omega arith;
        size_fits = omega arith;
        parent_fits = omega arith;
        folder = (_, inl (refl, refl), refl);
        new = (refl, (refl, (refl, tt)));
      },
      (
        refl,
        record {
          typed = inr refl;
          fid_fits = omega arith;
          size_fits = omega arith;
          parent_fits = omega arith;
          folder = (_, inr (inl (refl, refl)), refl);
          new = (refl, (refl, (refl, (refl, tt))));
        },
        tt,
      ),
    ),
  ),
)

-- A chip that `fs_personalise` can lay out: powered, with room for the table and the files.
pub record IsRoomy (nvm : Nvm) : Type 0 where
  pub on : nvm.powered ≡ true
  pub table_fits : desc_offset fs_max_files ≤ length nvm.eeprom_bytes
  pub files_fit : bytes_of layout ≤ length nvm.flash_bytes
  pub narrow : length nvm.flash_bytes < 2 ^ 32

rooted-HasFiles :
    (s : Store)
    → IsRoomy s.nvm
    → HasFiles
        (fs_store_write_desc fs_root_index mf_desc (fs_store_format s).1).1
        ((fs_root_index, mf_desc) ∷ [])
        1
rooted-HasFiles s h =
    let f = (fs_store_format s).1 in
    let (formatted, rooted, view, empty, same_flash) = rooted_view s h.on h.table_fits h.narrow in
    let (tree, only) = rooted-IsTree s h.on h.table_fits h.narrow in
    record {
      tree = tree;
      there = λ j d here. elim here [
        | inl (same, eq) ↦ ground (arith, view j, same, eq)
        | inr later ↦ absurd later
      ];
      only = λ j d r. inl (only j d r);
      free = λ j lo hi.
          let (done, stored, top, free, same) = format_empties s j h.on h.table_fits h.narrow hi in
          ground (arith, view j, free);
    }

-- On a powered chip with room for the table and for the 112 bytes of the factory's files, whatever it
-- holds, `fs_personalise` succeeds, and leaves a well-formed tree whose files are exactly the MF and
-- the four rows of the layout, each with its own block of FLASH.
pub fs_personalise_lem :
    (s : Store)
    → IsRoomy s.nvm
    → (s' : Store) × (fs_personalise s ≡ (ok tt, s'))
      × IsTree s'
      × ((j : ℕ) (d : FsDescriptor) → Listed j d factory_files → fs_store_read_desc s' j ≡ ok d)
      × ((j : ℕ) (d : FsDescriptor) → fs_store_read_desc s' j ≡ ok d → Listed j d factory_files)
unfolding fs_personalise write_mf
fs_personalise_lem s h =
    let (formatted, rooted, view, empty, same_flash) = rooted_view s h.on h.table_fits h.narrow in
    let s1 = (fs_store_write_desc fs_root_index mf_desc (fs_store_format s).1).1 in
    let (s', e, files, same) =
      write_rows_lem layout s1 ((fs_root_index, mf_desc) ∷ []) 1 0 (rooted-HasFiles s h)
        (omega arith) empty layout-IsLayout (ground (arith, same_flash, h.files_fit)) in
    (s', ground (arith, formatted, rooted, e), files.tree, files.there, files.only)
