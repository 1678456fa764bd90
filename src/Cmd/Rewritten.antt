-- ===== src/Cmd/Rewritten.antt =====
-- cmd_binary.c: READ BINARY and UPDATE BINARY of a file with room for the data.
use native_smart_card_os.Apdu.{ApduCommand, apdu_short_le_max}
use native_smart_card_os.Cmd.Binary.{
  answer_read, resolve_target, scos_cmd_read_binary, scos_cmd_update_binary, update_at,
}
use native_smart_card_os.Cmd.Select.{target}
use native_smart_card_os.Fs.{FsDescriptor, ok}
use native_smart_card_os.Machine.{Machine, with_store}
use native_smart_card_os.Response.{ApduResponse, apdu_rsp_put}
use native_smart_card_os.Response.Contents.{IsResponse, apdu_rsp_put-IsResponse, contents, fits}
use native_smart_card_os.Store.{Store}
use native_smart_card_os.Sw.{sw_ok}
use native_smart_card_os.Tree.{FsSelection, fs_ef_read}
use native_smart_card_os.Tree.Contents.{with_flash}
use native_smart_card_os.Tree.Invariant.{IsTree}
use native_smart_card_os.Tree.Overwritten.{
  HasRoom, find_by_sfi-with_flash, fs_ef_write-HasRoom, overwritten,
}
use native_smart_card_os.Common.{
  List, arith, bit_and, false, length, refl, some, take-all, true, ℕ, ◌++◌, ◌≡◌, ◌≢◌, ◌≤◌,
}

-- P1 and P2 address the same place, whatever the bytes of FLASH are.
pub resolve_target-with_flash :
    (bytes : List ℕ) (s : Store) (sel : FsSelection) (p1 p2 : ℕ)
    → length bytes ≡ length s.nvm.flash_bytes
    → resolve_target (with_flash s bytes) sel p1 p2 ≡ resolve_target s sel p1 p2
unfolding resolve_target
resolve_target-with_flash bytes s sel p1 p2 h =
    rw (find_by_sfi-with_flash bytes sel.cur_df (bit_and p1 0x1F) s h) refl

-- UPDATE BINARY of a file with room for the body answers 9000, and overwrites its block.
pub update_binary-HasRoom :
    (c : ApduCommand) (m : Machine) (rsp : ApduResponse) (body : List ℕ) (index offset : ℕ)
    (d : FsDescriptor)
    → c.payload ≡ some body
    → c.lc ≡ length body
    → c.le_present ≡ false
    → length body ≢ 0
    → resolve_target m.store m.kernel.sel c.p1 c.p2 ≡ target (index, offset)
    → IsTree m.store
    → HasRoom m.store index offset (length body) d
    → scos_cmd_update_binary c m rsp
      ≡ (sw_ok, with_store m (with_flash m.store (overwritten m.store d offset body)), rsp)
unfolding scos_cmd_update_binary update_at
update_binary-HasRoom c m rsp body index offset d payload lc le some_bytes at tree f = ground (
  arith,
  payload,
  at,
  take-all (length body) body (omega arith),
  fs_ef_write-HasRoom m.store index offset body d tree f some_bytes,
)

-- READ BINARY of bytes that are there, and that fit the response, answers 9000 and appends them.
pub read_binary-ok :
    (c : ApduCommand) (m : Machine) (rsp : ApduResponse) (got : List ℕ) (index offset : ℕ)
    → c.lc ≡ 0
    → c.le_present ≡ true
    → c.le ≡ length got
    → length got ≤ apdu_short_le_max
    → resolve_target m.store m.kernel.sel c.p1 c.p2 ≡ target (index, offset)
    → fs_ef_read m.store index offset (length got) ≡ ok got
    → IsResponse rsp
    → fits rsp (length got) ≡ true
    → (rsp' : ApduResponse) × (scos_cmd_read_binary c m rsp ≡ (sw_ok, m, rsp'))
      × IsResponse rsp'
      × (contents rsp' ≡ contents rsp ++ got)
      × (rsp'.overflow ≡ rsp.overflow)
unfolding scos_cmd_read_binary answer_read
read_binary-ok c m rsp got index offset lc present le short at read h room =
    let (done, built, more, over) = apdu_rsp_put-IsResponse rsp got (length got) h (omega arith) in
    (
      (apdu_rsp_put rsp (some got) (length got)).1,
      ground (arith, at, read, done, lc, present, le),
      built,
      ground (arith, more, take-all (length got) got (omega arith)),
      ground (arith, over),
    )
