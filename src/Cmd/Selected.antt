-- ===== src/Cmd/Selected.antt =====
-- cmd_create.c and cmd_select.c: CREATE FILE from a template, and the template that SELECT answers.
use mathlib.Core.Path.{subst}
use native_smart_card_os.Apdu.{ApduCommand}
use native_smart_card_os.Cmd.Create.{create_requested, scos_cmd_create_file}
use native_smart_card_os.Cmd.RoundTrip.{IsListed, request_of}
use native_smart_card_os.Cmd.Select.{
  emit_fci, emit_template, finish_select, put_template, scos_cmd_select, select_target, target,
}
use native_smart_card_os.Cmd.Template.{parse_fcp}
use native_smart_card_os.Fs.{FsDescriptor, ok}
use native_smart_card_os.Machine.{Machine, operational, with_sel, with_store}
use native_smart_card_os.Response.{ApduResponse, apdu_rsp_put, apdu_rsp_put_u8}
use native_smart_card_os.Response.Contents.{IsResponse, fits}
use native_smart_card_os.Response.Grown.{Grown, Grown-then, put-Grown, u8-Grown}
use native_smart_card_os.Store.{Store}
use native_smart_card_os.Sw.{sw_ok}
use native_smart_card_os.Tree.{
  FsSelection, fcp_bytes, fs_build_fcp, fs_create_file, fs_get, fs_select_by_fid, fs_selected_index,
  new_desc,
}
use native_smart_card_os.Common.{
  List, [], arith, length, refl, some, true, ℕ, ◌%◌, ◌*◌, ◌+◌, ◌/◌, ◌<◌, ◌∷◌, ◌≡◌, ◌≢◌, ◌≤◌,
}

-- CREATE FILE, with a template that is parsed to a request that the file system accepts.
pub create_file-ok :
    (c : ApduCommand) (m : Machine) (rsp : ApduResponse) (req : FsDescriptor) (slot : ℕ)
    (s' : Store) (body : List ℕ)
    → m.kernel.lifecycle ≡ operational
    → c.p1 ≡ 0
    → c.p2 ≡ 0
    → c.payload ≡ some body
    → c.lc ≢ 0
    → parse_fcp (some body) c.lc ≡ some (target req)
    → fs_create_file m.kernel.sel req m.store ≡ (ok slot, s')
    → scos_cmd_create_file c m rsp ≡ some (sw_ok, with_store m s', rsp)
unfolding scos_cmd_create_file create_requested
create_file-ok c m rsp req slot s' body live p1 p2 payload some_bytes parsed done =
    ground (arith, live, payload, parsed, done)

-- The wrapped template is appended whole where it fits.
put_template-Grown :
    (r : ApduResponse) (tag : ℕ) (body : List ℕ)
    → IsResponse r
    → length body < 256
    → fits r (length body + 2) ≡ true
    → let (sw, r') = put_template r tag body in (sw ≡ sw_ok) × Grown r (tag ∷ length body ∷ body) r'
unfolding put_template
put_template-Grown r tag body h short room =
    let r1 = (apdu_rsp_put_u8 r tag).1 in
    let (a, g1) = u8-Grown r tag h (ground (arith, room)) in
    let r2 = (apdu_rsp_put_u8 r1 (length body % 256)).1 in
    let (b, g2) = u8-Grown r1 (length body % 256) g1.built (ground (arith, room, g1)) in
    let (c, g3) = put-Grown r2 body g2.built (ground (arith, room, g1, g2)) in
    let r3 = (apdu_rsp_put r2 (some body) (length body)).1 in
    let same : put_template r tag body ≡ (sw_ok, r3) = ground (arith, a, b, c) in
    let all : Grown r (tag ∷ length body % 256 ∷ body) r3 = Grown-then (Grown-then g1 g2) g3 in
    rw same (refl, subst (λ n. Grown r (tag ∷ n ∷ body) r3) (omega (arith, short)) all)

-- Every template has 10 to 17 bytes.
pub fcp_short :
    (d : FsDescriptor) → (length (fs_build_fcp d 32) ≢ 0) × (length (fs_build_fcp d 32) ≤ 17)
unfolding fs_build_fcp fcp_bytes
fcp_short d = ground arith

-- P1 of 00 and two bytes of data select by identifier.
select_target-fid :
    (c : ApduCommand) (m : Machine) (fid : ℕ) (sel : FsSelection)
    → fid < 65536
    → c.p1 ≡ 0
    → c.lc ≡ 2
    → c.payload ≡ some (fid / 256 ∷ fid % 256 ∷ [])
    → fs_select_by_fid m.store m.kernel.sel fid ≡ ok sel
    → select_target m.store m.kernel.sel c ≡ target sel
unfolding select_target
select_target-fid c m fid sel fid_fits p1 lc payload chosen =
    let same : fid / 256 * 256 + fid % 256 ≡ fid = omega arith in
    let chosen' : fs_select_by_fid m.store m.kernel.sel (fid / 256 * 256 + fid % 256) ≡ ok sel =
      rw same chosen in
    ground (arith, p1, lc, payload, chosen')

-- SELECT by identifier with the FCP option answers the wrapped template of the file, and selects it.
pub select-template :
    (c : ApduCommand) (m : Machine) (rsp : ApduResponse) (fid : ℕ) (sel : FsSelection)
    (d : FsDescriptor)
    → fid < 65536
    → c.p1 ≡ 0
    → c.p2 ≡ 4
    → c.lc ≡ 2
    → c.payload ≡ some (fid / 256 ∷ fid % 256 ∷ [])
    → c.le_present ≡ true
    → 19 ≤ c.le
    → fs_select_by_fid m.store m.kernel.sel fid ≡ ok sel
    → fs_get m.store (fs_selected_index sel) ≡ ok d
    → IsResponse rsp
    → fits rsp 19 ≡ true
    → let body = fs_build_fcp d 32 in
      (rsp' : ApduResponse) × (scos_cmd_select c m rsp ≡ (sw_ok, with_sel m sel, rsp'))
      × Grown rsp (0x62 ∷ length body ∷ body) rsp'
unfolding scos_cmd_select finish_select emit_fci emit_template
select-template c m rsp fid sel d fid_fits p1 p2 lc payload present le chosen there h room =
    let body = fs_build_fcp d 32 in
    let (some_bytes, short) = fcp_short d in
    let (e, g) =
      put_template-Grown rsp 0x62 body h (omega (arith, short)) (ground (arith, room, short)) in
    let at = select_target-fid c m fid sel fid_fits p1 lc payload chosen in
    ((put_template rsp 0x62 body).1, ground (arith, at, there, e, some_bytes, short), g)

-- The template of a file that was created from another one's.
pub fcp-request_of :
    (d : FsDescriptor) (sel : FsSelection) (offset : ℕ)
    → IsListed d
    → fs_build_fcp (new_desc sel (request_of d) offset) 32 ≡ fs_build_fcp d 32
unfolding fs_build_fcp fcp_bytes
fcp-request_of d sel offset h = ground (arith, h.typed)
