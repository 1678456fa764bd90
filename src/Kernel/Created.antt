-- ===== src/Kernel/Created.antt =====
-- kernel.c over cmd_create.c, cmd_select.c and fs.c: what CREATE FILE made, SELECT finds.
use mathlib.Core.Path.{subst}
use native_smart_card_os.Apdu.Cases.{apdu_parse-encode, encode, meant, wire_3, wire_4}
use native_smart_card_os.Cmd.{parse_fcp, target}
use native_smart_card_os.Cmd.RoundTrip.{IsListed, parse_fcp-fs_build_fcp, request_of}
use native_smart_card_os.Cmd.Selected.{create_file-ok, fcp-request_of, fcp_short, select-template}
use native_smart_card_os.Fs.{FsDescriptor, fs_invalid_index, fs_lc_activated, fs_type_df, ok}
use native_smart_card_os.Kernel.{Outcome, finish_with, scos_dispatch, scos_process}
use native_smart_card_os.Kernel.Reply.{finish_with-ok, scos_process-parsed}
use native_smart_card_os.Machine.{Machine, operational, with_sel, with_store}
use native_smart_card_os.Response.{apdu_rsp_init}
use native_smart_card_os.Response.Contents.{apdu_rsp_init-IsResponse}
use native_smart_card_os.Store.{Store, fs_store_read_desc}
use native_smart_card_os.Sw.{sw_ok}
use native_smart_card_os.Tree.{
  FsSelection, fs_build_fcp, fs_create_file, fs_get, fs_select_by_fid, fs_selected_index, new_desc,
}
use native_smart_card_os.Tree.Invariant.{IsTree}
use native_smart_card_os.Tree.Added.{new_offset}
use native_smart_card_os.Tree.Creation.{IsRequest}
use native_smart_card_os.Tree.Lifetime.{create_then_select, slot_bound, stored}
use native_smart_card_os.Common.{
  Bool-cases, List, [], ap, arith, inl, inr, length, refl, some, take, ℕ, ◌%◌, ◌++◌, ◌/◌, ◌<◌, ◌==◌,
  ◌∙◌, ◌∷◌, ◌≡◌, ◌≤◌,
}

-- The template in its wrapper.
abbrev pub wrapped : FsDescriptor → List ℕ
wrapped d = 0x62 ∷ length (fs_build_fcp d 32) ∷ fs_build_fcp d 32

abbrev pub create_file : FsDescriptor → List ℕ
create_file d = encode 0x00 0xE0 0x00 0x00 (wire_3 (wrapped d))

abbrev pub select_file : ℕ → List ℕ
select_file fid = encode 0x00 0xA4 0x00 0x04 (wire_4 (fid / 256 ∷ fid % 256 ∷ []) 0)

create_answered :
    (m : Machine) (d : FsDescriptor) (slot : ℕ) (s' : Store) (rsp : List ℕ)
    → m.kernel.lifecycle ≡ operational
    → IsListed d
    → fs_create_file m.kernel.sel (request_of d) m.store ≡ (ok slot, s')
    → 2 ≤ length rsp
    → length rsp < 65536
    → (out : Outcome) × (scos_process m
          (some (create_file d))
          (length (create_file d))
          rsp
          (length rsp)
        ≡ some out)
      × (out.machine ≡ with_store m s')
      × (take out.rsp_len out.rsp ≡ 0x90 ∷ 0x00 ∷ [])
create_answered m d slot s' rsp live listed done wide narrow =
    let body = fs_build_fcp d 32 in
    let c = meant 0x00 0xE0 0x00 0x00 (wire_3 (wrapped d)) in
    let r = apdu_rsp_init (some rsp) (length rsp) in
    let (built, empty) = apdu_rsp_init-IsResponse rsp wide narrow in
    let (some_bytes, short) = fcp_short d in
    let is_req = λ (n k : ℕ). parse_fcp (some (0x62 ∷ n ∷ body)) k ≡ some (target (request_of d)) in
    let parsed : is_req (length body) (length (wrapped d)) =
      subst (λ n. is_req n (length (wrapped d))) (omega (arith, short))
        (subst (λ k. is_req (length body % 256) k) (omega arith)
          ((parse_fcp-fs_build_fcp d listed).1)) in
    (
      finish_with (sw_ok, with_store m s', r),
      scos_process-parsed m (create_file d) (length (create_file d)) c rsp live wide
          (apdu_parse-encode 0x00 0xE0 0x00 0x00 (wire_3 (wrapped d)) (omega arith)) refl
          (unfold scos_dispatch in
            create_file-ok c m r (request_of d) slot s' (wrapped d) live refl refl refl
              (omega arith) parsed done),
      unfold finish_with in refl,
      finish_with-ok (with_store m s') r built (unfold apdu_rsp_init in refl)
          ∙ ap (λ xs. xs ++ 0x90 ∷ 0x00 ∷ []) empty,
    )

request_of-IsRequest : (d : FsDescriptor) → IsListed d → IsRequest (request_of d)
request_of-IsRequest d h = record { fid_fits = h.id_fits; access_fits = (omega arith, omega arith) }

-- The new file is selected by its identifier.
selected :
    (s s' : Store) (sel : FsSelection) (d : FsDescriptor) (slot : ℕ)
    → IsTree s
    → IsListed d
    → d.lifecycle ≡ fs_lc_activated
    → fs_create_file sel (request_of d) s ≡ (ok slot, s')
    → (sel' : FsSelection) × (fs_select_by_fid s' sel d.file_id ≡ ok sel')
      × (fs_selected_index sel' ≡ slot)
unfolding fs_selected_index
selected s s' sel d slot tree listed active done =
    let bounds = request_of-IsRequest d listed in
    let found = create_then_select s s' sel (request_of d) slot tree bounds done in
    let bound = slot_bound s s' sel (request_of d) slot tree bounds done in
    elim (Bool-cases ((request_of d).ftype == fs_type_df)) [
      | inl df ↦ (
        record { cur_df = slot; cur_ef = fs_invalid_index },
        ground (arith, found, active, df),
        ground arith,
      )
      | inr ef ↦ (
        record { cur_df = sel.cur_df; cur_ef = slot },
        ground (arith, found, active, ef),
        ground (arith, bound),
      )
    ]

select_answered :
    (m : Machine) (d e : FsDescriptor) (sel : FsSelection) (rsp : List ℕ)
    → m.kernel.lifecycle ≡ operational
    → d.file_id < 65536
    → fs_select_by_fid m.store m.kernel.sel d.file_id ≡ ok sel
    → fs_store_read_desc m.store (fs_selected_index sel) ≡ ok e
    → fs_build_fcp e 32 ≡ fs_build_fcp d 32
    → 21 ≤ length rsp
    → length rsp < 65536
    → (out : Outcome) × (scos_process m
          (some (select_file d.file_id))
          (length (select_file d.file_id))
          rsp
          (length rsp)
        ≡ some out)
      × (out.machine ≡ with_sel m sel)
      × (take out.rsp_len out.rsp ≡ wrapped d ++ 0x90 ∷ 0x00 ∷ [])
select_answered m d e sel rsp live fid_fits chosen there same wide narrow =
    let w = wire_4 (d.file_id / 256 ∷ d.file_id % 256 ∷ []) 0 in
    let c = meant 0x00 0xA4 0x00 0x04 w in
    let r = apdu_rsp_init (some rsp) (length rsp) in
    let (built, empty) = apdu_rsp_init-IsResponse rsp (omega (arith, wide)) narrow in
    let (r', q, g) =
      select-template c m r d.file_id sel e fid_fits refl refl refl refl refl (omega arith) chosen
        (unfold fs_get in there) built (unfold apdu_rsp_init in ground (arith, wide)) in
    (
      finish_with (sw_ok, with_sel m sel, r'),
      scos_process-parsed m (select_file d.file_id) (length (select_file d.file_id)) c rsp live
          (omega (arith, wide)) (apdu_parse-encode 0x00 0xA4 0x00 0x04 w (omega arith)) refl
          (unfold scos_dispatch in ap some q),
      unfold finish_with in refl,
      finish_with-ok (with_sel m sel) r' g.built (g.same_overflow ∙ unfold apdu_rsp_init in refl)
          ∙ ap (λ xs. xs ++ 0x90 ∷ 0x00 ∷ [])
              (g.grown
                ∙ ap (λ xs. xs ++ 0x62 ∷ length (fs_build_fcp e 32) ∷ fs_build_fcp e 32) empty
                ∙ ap (λ body. 0x62 ∷ length body ∷ body) same),
    )

-- On an operational card with a well-formed file tree, a CREATE FILE whose data field is the wrapped
-- template of an activated file is answered 9000, if the file system can store the file. A SELECT by the
-- file's identifier that asks for the template is then answered with the same template and 9000,
-- and selects the slot of the new file. The response buffers have room for the answers.
pub create_then_select_file :
    (m : Machine) (d : FsDescriptor) (slot : ℕ) (s' : Store) (rsp rsp' : List ℕ)
    → m.kernel.lifecycle ≡ operational
    → IsTree m.store
    → IsListed d
    → d.lifecycle ≡ fs_lc_activated
    → fs_create_file m.kernel.sel (request_of d) m.store ≡ (ok slot, s')
    → 2 ≤ length rsp
    → length rsp < 65536
    → 21 ≤ length rsp'
    → length rsp' < 65536
    → (out : Outcome) × (out' : Outcome) × (scos_process m
          (some (create_file d))
          (length (create_file d))
          rsp
          (length rsp)
        ≡ some out)
      × (take out.rsp_len out.rsp ≡ 0x90 ∷ 0x00 ∷ [])
      × (scos_process out.machine
            (some (select_file d.file_id))
            (length (select_file d.file_id))
            rsp'
            (length rsp')
          ≡ some out')
      × (take out'.rsp_len out'.rsp ≡ wrapped d ++ 0x90 ∷ 0x00 ∷ [])
      × (fs_selected_index out'.machine.kernel.sel ≡ slot)
create_then_select_file m d slot s' rsp rsp' live tree listed active done wide narrow wide'
      narrow' =
    let (out, e, left, said) = create_answered m d slot s' rsp live listed done wide narrow in
    let (sel, chosen, index) = selected m.store s' m.kernel.sel d slot tree listed active done in
    let there =
      stored m.store s' m.kernel.sel (request_of d) slot tree (request_of-IsRequest d listed)
        done in
    let file = new_desc m.kernel.sel (request_of d) (new_offset m.store (request_of d)) in
    let (out', e', left', answer) =
      select_answered (with_store m s') d file sel rsp' live listed.id_fits chosen (rw index there)
        (fcp-request_of d m.kernel.sel (new_offset m.store (request_of d)) listed) wide' narrow' in
    (out, out', e, said, rw left e', answer, ap (λ k. fs_selected_index k.kernel.sel) left' ∙ index)
