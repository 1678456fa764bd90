-- ===== src/Tree/Rooted.antt =====
-- fs.c: the tree that the first step of `fs_personalise` makes, the MF alone.
use native_smart_card_os.Fs.{FsDescriptor, fs_max_files, ok}
use native_smart_card_os.Store.{
  Store, desc_offset, fs_store_format, fs_store_read_desc, fs_store_write_desc,
}
use native_smart_card_os.Store.Format.{format_empties}
use native_smart_card_os.Store.Persist.{IsStored, write_desc-IsStored}
use native_smart_card_os.Store.RoundTrip.{IsDescriptor}
use native_smart_card_os.Store.Slots.{fs_store_write_desc-ok, read_desc-write_desc}
use native_smart_card_os.Tree.Find.{fs_root_index}
use native_smart_card_os.Tree.Init.{mf_desc}
use native_smart_card_os.Tree.Invariant.{IsTree}
use native_smart_card_os.Tree.Lookup.{read_desc_bound}
use native_smart_card_os.Common.{
  ==→eq, Bool-cases, ap, arith, if◌then◌else◌, inl, inr, length, refl, sym, true, ℕ, ◌<◌, ◌==◌, ◌^◌,
  ◌∙◌, ◌≡◌, ◌≤◌,
}

-- A store whose only file is the MF.
only_root-IsTree :
    (s : Store)
    → IsStored s
    → ((j : ℕ) → fs_store_read_desc s j ≡ ok mf_desc → j ≡ fs_root_index)
    → fs_store_read_desc s fs_root_index ≡ ok mf_desc
    → ((j : ℕ) (d : FsDescriptor) → fs_store_read_desc s j ≡ ok d → d ≡ mf_desc)
    → IsTree s
only_root-IsTree s kept at_root root only = record {
  stored = kept;
  root = (mf_desc, root, (refl, refl));
  homed = λ i d r. inl (ap (λ x. x.parent) (only i d r));
  distinct = λ i j d e p q x y.
      at_root i (p ∙ ap ok (only i d p)) ∙ sym (at_root j (q ∙ ap ok (only j e q)));
  placed = λ i d r x. absurd (omega (arith, ap (λ y. y.ftype) (only i d r)));
  apart = λ i j d e p q x y ne. absurd (omega (arith, ap (λ z. z.ftype) (only i d p)));
}

-- The MF as it is stored in the root's slot.
pub mf_desc-IsDescriptor : (size : ℕ) → IsDescriptor size mf_desc
mf_desc-IsDescriptor size = record {
  file_id_fits = omega arith;
  type_stored = inl refl;
  lifecycle_fits = omega arith;
  parent_fits = omega arith;
  size_fits = omega arith;
  offset_fits = omega arith;
  data_inside = λ x. absurd (omega arith);
}

-- The two first steps of `fs_personalise`: they succeed, the root's slot holds the MF, the other slots
-- hold what the formatted table holds, and no data is allocated.
pub rooted_view :
    (s : Store)
    → s.nvm.powered ≡ true
    → desc_offset fs_max_files ≤ length s.nvm.eeprom_bytes
    → length s.nvm.flash_bytes < 2 ^ 32
    → let f = (fs_store_format s).1 in
      let s' = (fs_store_write_desc fs_root_index mf_desc f).1 in
      (fs_store_format s ≡ (ok tt, f))
      × (fs_store_write_desc fs_root_index mf_desc f ≡ (ok tt, s'))
      × ((j : ℕ)
          → fs_store_read_desc s' j ≡ (if j == 0 then ok mf_desc else fs_store_read_desc f j))
      × (s'.sb.data_top ≡ 0)
      × (s'.nvm.flash_bytes ≡ s.nvm.flash_bytes)
rooted_view s on room narrow =
    let f = (fs_store_format s).1 in
    let (done, stored, top, free, same_flash) = format_empties s 0 on room narrow (omega arith) in
    let some_slots : 0 < f.sb.max_files = omega (arith, stored.all_files) in
    let e = fs_store_write_desc-ok stored.wellformed 0 mf_desc some_slots (omega arith) in
    (
      ground (arith, done),
      ground (arith, e),
      λ j.
          (read_desc-write_desc 0 j mf_desc stored.wellformed some_slots
            (mf_desc-IsDescriptor (length f.nvm.flash_bytes))).2,
      ground (arith, e, top),
      ground (arith, e, same_flash),
    )

-- On a powered chip that is large enough, formatting and writing the MF succeed, and leave a well-formed
-- tree in which the MF is the only file.
pub rooted-IsTree :
    (s : Store)
    → s.nvm.powered ≡ true
    → desc_offset fs_max_files ≤ length s.nvm.eeprom_bytes
    → length s.nvm.flash_bytes < 2 ^ 32
    → let s' = (fs_store_write_desc fs_root_index mf_desc (fs_store_format s).1).1 in
      IsTree s'
      × ((j : ℕ) (d : FsDescriptor)
          → fs_store_read_desc s' j ≡ ok d
          → (j ≡ fs_root_index) × (d ≡ mf_desc))
rooted-IsTree s on room narrow =
    let f = (fs_store_format s).1 in
    let s' = (fs_store_write_desc fs_root_index mf_desc f).1 in
    let (done, stored, top, free, same_flash) = format_empties s 0 on room narrow (omega arith) in
    let some_slots : 0 < f.sb.max_files = omega (arith, stored.all_files) in
    let (formatted, rooted, view, empty, same) = rooted_view s on room narrow in
    let only : (j : ℕ) (d : FsDescriptor)
        → fs_store_read_desc s' j ≡ ok d
        → (j ≡ fs_root_index) × (d ≡ mf_desc) =
      λ j d r. elim (Bool-cases (j == 0)) [
        | inl same ↦ (==→eq j 0 same, ground (arith, view j))
        | inr other ↦
            let here : fs_store_read_desc f j ≡ ok d = ground (arith, view j) in
            let (mounted, lt) = read_desc_bound f j here in
            absurd (
              ground
                (arith, here, format_empties s j on room narrow (omega (arith, stored.all_files))))
      ] in
    (
      only_root-IsTree s' (write_desc-IsStored 0 mf_desc stored some_slots (omega arith))
          (λ j r. (only j mf_desc r).0) (view 0) (λ j d r. (only j d r).1),
      only,
    )
