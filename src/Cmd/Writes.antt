-- ===== src/Cmd/Writes.antt =====
-- UPDATE BINARY, CREATE FILE and DELETE FILE: what they leave of the response and of the card.
use native_smart_card_os.Apdu.{ApduCommand}
use native_smart_card_os.Cmd.Answers.{Answered, IsAnswer, IsAnswer-sw}
use native_smart_card_os.Cmd.Binary.{resolve_target, scos_cmd_update_binary, update_at}
use native_smart_card_os.Cmd.Changes.{
  create_refused, delete_refused, fs_create_file-IsTree, fs_delete_file-IsTree, fs_ef_write-IsTree,
  write_refused,
}
use native_smart_card_os.Cmd.Create.{
  create_requested, delete_requested, is_fs_error, scos_cmd_create_file, scos_cmd_delete_file,
}
use native_smart_card_os.Cmd.Requests.{parse_fcp_lem}
use native_smart_card_os.Cmd.Select.{Target, Target-cases, answer, target}
use native_smart_card_os.Cmd.Status.{scos_fs_error_to_sw}
use native_smart_card_os.Cmd.Template.{parse_fcp}
use native_smart_card_os.Fs.{FsDescriptor, FsResult-cases}
use native_smart_card_os.Machine.{
  Machine, has_payload, payload_fid, payload_of, with_sel, with_store,
}
use native_smart_card_os.Response.{ApduResponse}
use native_smart_card_os.Response.Contents.{IsResponse}
use native_smart_card_os.Store.{Store}
use native_smart_card_os.Store.Sizes.{SameSize}
use native_smart_card_os.Sw.{sw_incorrect_p1p2, sw_memory_failure, sw_ok, sw_wrong_length}
use native_smart_card_os.Tree.{fs_create_file, fs_delete_file, fs_ef_write}
use native_smart_card_os.Tree.Creation.{IsRequest}
use native_smart_card_os.Tree.Invariant.{IsTree}
use native_smart_card_os.Tree.Sizes.{
  fs_create_file-SameSize, fs_delete_file-SameSize, fs_ef_write-SameSize,
}
use native_smart_card_os.Common.{
  List, Option-cases, ap, arith, if-holds, inl, inr, not, refl, take, ℕ, ◌!=◌, ◌==◌, ◌||◌, ◌≡◌, ◌≢◌,
}

-- A new store of the file system, with the old kernel.
IsAnswer-store :
    (m : Machine) (s' : Store) (sw : ℕ) {rsp : ApduResponse}
    → IsResponse rsp
    → (IsTree m.store → IsTree s')
    → SameSize m.store s'
    → (sw ≢ sw_ok → IsTree m.store → s' ≡ m.store)
    → IsAnswer m rsp (sw, with_store m s', rsp)
IsAnswer-store m s' sw h tree size same = record {
  built = (h, refl);
  same_lifecycle = refl;
  same_cmd = refl;
  same_rsp = refl;
  same_tree = tree;
  same_chip = size;
  atomic = λ ne t. ap (with_store m) (same ne t);
}

update_at-IsAnswer :
    (m : Machine) (rsp : ApduResponse) (index offset : ℕ) (src : List ℕ)
    → IsResponse rsp
    → IsAnswer m rsp (update_at m rsp index offset src)
unfolding update_at
update_at-IsAnswer m rsp index offset src h =
    let (r, s') = fs_ef_write index offset src m.store in
    let tree = fs_ef_write-IsTree m.store index offset src in
    let size = fs_ef_write-SameSize m.store index offset src in
    elim (FsResult-cases r) [
      | inl (u, e) ↦
          ground (arith, e, IsAnswer-store m s' sw_ok h tree size (λ ne. absurd (ne refl)))
      | inr (x, e) ↦ ground (
        arith,
        e,
        IsAnswer-store m s' (scos_fs_error_to_sw x) h tree size
            (λ ne. write_refused m.store index offset src e),
      )
    ]

create_requested-IsAnswer :
    (m : Machine) (rsp : ApduResponse) (req : FsDescriptor)
    → IsResponse rsp
    → IsRequest req
    → IsAnswer m rsp (create_requested m rsp req)
unfolding create_requested
create_requested-IsAnswer m rsp req h bounds =
    let (r, s') = fs_create_file m.kernel.sel req m.store in
    let tree = fs_create_file-IsTree m.store m.kernel.sel req bounds in
    let size = fs_create_file-SameSize m.store m.kernel.sel req in
    elim (FsResult-cases r) [
      | inl (u, e) ↦
          ground (arith, e, IsAnswer-store m s' sw_ok h tree size (λ ne. absurd (ne refl)))
      | inr (x, e) ↦ ground (
        arith,
        e,
        IsAnswer-store m s' (scos_fs_error_to_sw x) h tree size
            (λ ne. create_refused m.store m.kernel.sel req bounds e),
      )
    ]

delete_requested-IsAnswer :
    (m : Machine) (rsp : ApduResponse) (fid : ℕ)
    → IsResponse rsp
    → IsAnswer m rsp (delete_requested m rsp fid)
unfolding delete_requested
delete_requested-IsAnswer m rsp fid h =
    let (r, s') = fs_delete_file m.kernel.sel fid m.store in
    let tree = fs_delete_file-IsTree m.store m.kernel.sel fid in
    let size = fs_delete_file-SameSize m.store m.kernel.sel fid in
    elim (FsResult-cases r) [
      | inl (sel, e) ↦
          ground (
            arith,
            e,
            IsAnswer-store (with_sel m sel) s' sw_ok h tree size (λ ne. absurd (ne refl)),
          )
      | inr (x, e) ↦ ground (
        arith,
        e,
        IsAnswer-store m s' (scos_fs_error_to_sw x) h tree size
            (λ ne. delete_refused m.store m.kernel.sel fid e),
      )
    ]

update_target-IsAnswer :
    (c : ApduCommand) (m : Machine) (rsp : ApduResponse) (t : Target (ℕ × ℕ))
    → IsResponse rsp
    → IsAnswer m rsp (elim t [
      | answer sw ↦ (sw, m, rsp)
      | target (index, offset) ↦ update_at m rsp index offset (take c.lc (payload_of c))
    ])
update_target-IsAnswer c m rsp (answer sw) h = IsAnswer-sw m sw h
update_target-IsAnswer c m rsp (target (index, offset)) h =
    update_at-IsAnswer m rsp index offset (take c.lc (payload_of c)) h

-- UPDATE BINARY keeps the tree.
pub scos_cmd_update_binary-IsAnswer :
    (c : ApduCommand) (m : Machine) (rsp : ApduResponse)
    → IsResponse rsp
    → IsAnswer m rsp (scos_cmd_update_binary c m rsp)
unfolding scos_cmd_update_binary
scos_cmd_update_binary-IsAnswer c m rsp h =
    let short = IsAnswer-sw m sw_wrong_length h in
    if-holds (IsAnswer m rsp) (c.lc == 0 || not (has_payload c)) short (
      if-holds (IsAnswer m rsp) c.le_present short
        (update_target-IsAnswer c m rsp (resolve_target m.store m.kernel.sel c.p1 c.p2) h))

-- CREATE FILE ends, and keeps the tree.
pub scos_cmd_create_file-IsAnswer :
    (c : ApduCommand) (m : Machine) (rsp : ApduResponse)
    → IsResponse rsp
    → Answered m rsp (scos_cmd_create_file c m rsp)
unfolding scos_cmd_create_file
scos_cmd_create_file-IsAnswer c m rsp h =
    let parsed = parse_fcp_lem c.payload c.lc in
    let dead = IsAnswer-sw m sw_memory_failure h in
    let bad = IsAnswer-sw m sw_incorrect_p1p2 h in
    let short = IsAnswer-sw m sw_wrong_length h in
    elim (Option-cases (parse_fcp c.payload c.lc)) [
      | inl out_of_fuel ↦ absurd (ground (arith, parsed, out_of_fuel))
      | inr (t, r) ↦ elim (Target-cases t) [
        | inr (sw, q) ↦ ground (arith, r, q, dead, bad, short, IsAnswer-sw m sw h)
        | inl (req, q) ↦
            let bounds : IsRequest req = ground (arith, parsed, r, q) in
            ground (arith, r, q, dead, bad, short, create_requested-IsAnswer m rsp req h bounds)
      ]
    ]

-- DELETE FILE keeps the tree.
pub scos_cmd_delete_file-IsAnswer :
    (c : ApduCommand) (m : Machine) (rsp : ApduResponse)
    → IsResponse rsp
    → IsAnswer m rsp (scos_cmd_delete_file c m rsp)
unfolding scos_cmd_delete_file
scos_cmd_delete_file-IsAnswer c m rsp h =
    if-holds (IsAnswer m rsp) (is_fs_error m.kernel.lifecycle) (IsAnswer-sw m sw_memory_failure h) (
      if-holds (IsAnswer m rsp) (c.p1 != 0x00 || c.p2 != 0x00) (IsAnswer-sw m sw_incorrect_p1p2 h) (
        if-holds (IsAnswer m rsp) (c.lc != 2 || not (has_payload c))
          (IsAnswer-sw m sw_wrong_length h) (delete_requested-IsAnswer m rsp (payload_fid c) h)))
