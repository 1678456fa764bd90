-- ===== src/Tree/Written.antt =====
-- fs.c: a write does to the files what is promised, and nothing else.
use mathlib.Core.Path.{subst, fun_ext}
use native_smart_card_os.Fs.{
  FsDescriptor, FsResult, FsResult-cases, err, err_not_found, fs_is_ef, ok,
}
use native_smart_card_os.Store.{Store, fs_store_read_desc, fs_store_write_data}
use native_smart_card_os.Tree.Blocks.{slice-splice_within}
use native_smart_card_os.Tree.Content.{fs_ef_write, write_target}
use native_smart_card_os.Tree.Contents.{
  read_desc-with_flash, with_flash, write_data-ok, write_target-ok,
}
use native_smart_card_os.Tree.Invariant.{HasData, IsTree}
use native_smart_card_os.Tree.Spec.{
  Does, Effect, File, FileOp, contents_of, file_of, forget_place, nothing_written, put_file,
  rewritten, view, write_op,
}
use native_smart_card_os.Common.{
  Bool, Bool-cases, List, Option, arith, false, refl, true, inl, inr, length, length-slice,
  length-splice, none, slice-splice_after, slice-splice_before, some, splice, sym, ℕ, ◌+◌, ◌==◌,
  ◌≡◌, ◌≢◌, ◌≤◌, ◌⊎◌,
}

-- Whether an operation succeeds.
abbrev pub is_ok : {A : Type 0} → FsResult A → Bool
is_ok (ok a) = true
is_ok (err e) = false

-- The new view is the old one with another file in a slot.
pub seen-Effect :
    (op : FileOp) (s s' : Store) (slot : ℕ) (f : Option File)
    → ((j : ℕ) → view s' j ≡ put_file (view s) slot f j)
    → Effect (view s) op (put_file (view s) slot f)
    → Effect (view s) op (view s')
seen-Effect op s s' slot f same change = subst (Effect (view s) op) (sym (fun_ext same)) change

-- The block of another file is not touched.
contents_away :
    (e : FsDescriptor) (at : ℕ) (src mem : List ℕ)
    → (HasData e → (e.data_offset + e.size ≤ at) ⊎ (at + length src ≤ e.data_offset))
    → contents_of e (splice at src mem) ≡ contents_of e mem
contents_away e at src mem away = elim (Bool-cases (fs_is_ef e)) [
  | inr folder ↦ ground (arith, folder)
  | inl ef ↦ elim (away (ground (arith, ef))) [
    | inl before ↦ ground (arith, ef, slice-splice_before at e.data_offset e.size src mem before)
    | inr behind ↦ ground (arith, ef, slice-splice_after at e.data_offset e.size src mem behind)
  ]
]

-- The state after a write, as the files show it.
write_view :
    (s : Store) (slot offset at : ℕ) (src : List ℕ) (d : FsDescriptor)
    → IsTree s
    → fs_store_read_desc s slot ≡ ok d
    → HasData d
    → offset + length src ≤ d.size
    → at ≡ d.data_offset + offset
    → (j : ℕ)
    → view (with_flash s (splice at src s.nvm.flash_bytes)) j
      ≡ put_file
          (view s)
          slot
          (some (record {
            attributes = forget_place d;
            contents = splice offset src (contents_of d s.nvm.flash_bytes);
          }))
          j
unfolding view
write_view s slot offset at src d h r ef room place j =
    let mem = s.nvm.flash_bytes in
    let same = read_desc-with_flash (splice at src mem) j s (length-splice at src mem) in
    elim (Bool-cases (j == slot)) [
      | inl here ↦ ground (
        arith,
        here,
        same,
        r,
        ef,
        slice-splice_within d.data_offset d.size offset at src mem place room,
      )
      | inr elsewhere ↦ elim (FsResult-cases (fs_store_read_desc s j)) [
        | inr (x, q) ↦ ground (arith, elsewhere, same, q)
        | inl (e, q) ↦
            let away : HasData e
                → (e.data_offset + e.size ≤ at) ⊎ (at + length src ≤ e.data_offset) =
              λ x. omega (
                arith,
                h.apart slot j d e r q ef x (λ z. ground (arith, z, elsewhere)),
                place,
                room,
              ) in
            ground (arith, elsewhere, same, q, contents_away e at src mem away)
      ]
    ]

pub view_slot :
    (s : Store) (slot : ℕ) (d : FsDescriptor)
    → fs_store_read_desc s slot ≡ ok d
    → view s slot ≡ file_of (ok d) s.nvm.flash_bytes
unfolding view
view_slot s slot d r = ground (arith, r)

pub view_free :
    (s : Store) (slot : ℕ) → fs_store_read_desc s slot ≡ err err_not_found → view s slot ≡ none
unfolding view
view_free s slot r = ground (arith, r)

write_at-Effect :
    (s : Store) (slot offset at : ℕ) (src : List ℕ)
    → IsTree s
    → length src ≢ 0
    → write_target s slot offset (length src) ≡ ok at
    → (s' : Store) × (fs_store_write_data at src s ≡ (ok tt, s'))
      × Effect (view s) (write_op slot offset src) (view s')
write_at-Effect s slot offset at src h some_bytes r =
    let mem = s.nvm.flash_bytes in
    let (d, q, ef, usable, room, place) = write_target-ok s slot offset (length src) at r in
    let inside : d.data_offset + d.size ≤ length mem =
      omega (arith, h.placed slot d q ef, h.stored.wellformed.data_fits) in
    let f : File = record { attributes = forget_place d; contents = contents_of d mem } in
    let sized : length f.contents ≡ d.size =
      ground (arith, ef, length-slice d.data_offset d.size mem inside) in
    (
      with_flash s (splice at src mem),
      write_data-ok at src h.stored.wellformed some_bytes (omega (arith, inside, room, place)),
      seen-Effect (write_op slot offset src) s (with_flash s (splice at src mem)) slot
          (some (record f { contents = splice offset src f.contents }))
          (write_view s slot offset at src d h q ef room place)
          (rewritten slot offset src f (view_slot s slot d q) (omega (arith, sized, room))),
    )

pub fs_ef_write-Does :
    (s : Store) (slot offset : ℕ) (src : List ℕ)
    → IsTree s
    → let (r, s') = fs_ef_write slot offset src s in
      Does (write_op slot offset src) (is_ok r) (view s) (view s')
fs_ef_write-Does s slot offset src h = elim (Bool-cases (length src == 0)) [
  | inl empty ↦
      let e : fs_ef_write slot offset src s ≡ (ok tt, s) =
        unfold fs_ef_write in ground (arith, empty) in
      rw e (nothing_written slot offset src (ground (arith, empty)))
  | inr some_bytes ↦ elim (FsResult-cases (write_target s slot offset (length src))) [
    | inr (x, r) ↦
        let e : fs_ef_write slot offset src s ≡ (err x, s) =
          unfold fs_ef_write in ground (arith, some_bytes, r) in
        rw e refl
    | inl (at, r) ↦
        let (s', wrote, effect) =
          write_at-Effect s slot offset at src h (ground (arith, some_bytes)) r in
        let e : fs_ef_write slot offset src s ≡ (ok tt, s') =
          unfold fs_ef_write in ground (arith, some_bytes, r, wrote) in
        rw e effect
  ]
]
