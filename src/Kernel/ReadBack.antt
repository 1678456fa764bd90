-- ===== src/Kernel/ReadBack.antt =====
-- kernel.c over cmd_binary.c and fs.c: what UPDATE BINARY wrote, READ BINARY answers.
use native_smart_card_os.Apdu.Cases.{apdu_parse-encode, encode, meant, wire_2, wire_3}
use native_smart_card_os.Cmd.{resolve_target, target}
use native_smart_card_os.Cmd.Rewritten.{
  read_binary-ok, resolve_target-with_flash, update_binary-HasRoom,
}
use native_smart_card_os.Fs.{FsDescriptor, ok}
use native_smart_card_os.Kernel.{Outcome, finish_with, scos_dispatch, scos_process}
use native_smart_card_os.Kernel.Reply.{finish_with-ok, scos_process-parsed}
use native_smart_card_os.Machine.{Machine, operational, with_store}
use native_smart_card_os.Response.{apdu_rsp_init}
use native_smart_card_os.Response.Contents.{apdu_rsp_init-IsResponse}
use native_smart_card_os.Sw.{sw_ok}
use native_smart_card_os.Tree.{fs_ef_read}
use native_smart_card_os.Tree.Contents.{with_flash}
use native_smart_card_os.Tree.Invariant.{IsTree}
use native_smart_card_os.Tree.Overwritten.{HasRoom, fs_ef_read-overwritten, overwritten}
use native_smart_card_os.Common.{
  List, [], ap, arith, length, length-splice, refl, some, sym, take, ℕ, ◌++◌, ◌+◌, ◌<◌, ◌∙◌, ◌∷◌,
  ◌≡◌, ◌≢◌, ◌≤◌,
}

-- The machine with a file's block overwritten.
abbrev pub rewritten : Machine → FsDescriptor → ℕ → List ℕ → Machine
rewritten m d offset body = with_store m (with_flash m.store (overwritten m.store d offset body))

abbrev pub update_binary : ℕ → ℕ → List ℕ → List ℕ
update_binary p1 p2 body = encode 0x00 0xD6 p1 p2 (wire_3 body)

abbrev pub read_binary : ℕ → ℕ → ℕ → List ℕ
read_binary p1 p2 n = encode 0x00 0xB0 p1 p2 (wire_2 n)

update_answered :
    (m : Machine) (p1 p2 index offset : ℕ) (body rsp : List ℕ) (d : FsDescriptor)
    → m.kernel.lifecycle ≡ operational
    → IsTree m.store
    → resolve_target m.store m.kernel.sel p1 p2 ≡ target (index, offset)
    → HasRoom m.store index offset (length body) d
    → length body ≢ 0
    → 2 ≤ length rsp
    → length rsp < 65536
    → (out : Outcome) × (scos_process m
          (some (update_binary p1 p2 body))
          (length (update_binary p1 p2 body))
          rsp
          (length rsp)
        ≡ some out)
      × (out.machine ≡ rewritten m d offset body)
      × (take out.rsp_len out.rsp ≡ 0x90 ∷ 0x00 ∷ [])
update_answered m p1 p2 index offset body rsp d live tree at f some_bytes wide narrow =
    let c = meant 0x00 0xD6 p1 p2 (wire_3 body) in
    let r = apdu_rsp_init (some rsp) (length rsp) in
    let (built, empty) = apdu_rsp_init-IsResponse rsp wide narrow in
    (
      finish_with (sw_ok, rewritten m d offset body, r),
      scos_process-parsed m (update_binary p1 p2 body) (length (update_binary p1 p2 body)) c rsp
          live wide (apdu_parse-encode 0x00 0xD6 p1 p2 (wire_3 body) (omega arith)) refl
          (unfold scos_dispatch in
            ap some (
              update_binary-HasRoom c m r body index offset d refl refl refl some_bytes at tree f)),
      unfold finish_with in refl,
      finish_with-ok (rewritten m d offset body) r built (unfold apdu_rsp_init in refl)
          ∙ ap (λ xs. xs ++ 0x90 ∷ 0x00 ∷ []) empty,
    )

read_answered :
    (m : Machine) (p1 p2 index offset : ℕ) (got rsp : List ℕ)
    → m.kernel.lifecycle ≡ operational
    → resolve_target m.store m.kernel.sel p1 p2 ≡ target (index, offset)
    → fs_ef_read m.store index offset (length got) ≡ ok got
    → length got ≢ 0
    → length got < 256
    → length got + 2 ≤ length rsp
    → length rsp < 65536
    → (out : Outcome) × (scos_process m
          (some (read_binary p1 p2 (length got)))
          (length (read_binary p1 p2 (length got)))
          rsp
          (length rsp)
        ≡ some out)
      × (out.machine ≡ m)
      × (take out.rsp_len out.rsp ≡ got ++ 0x90 ∷ 0x00 ∷ [])
read_answered m p1 p2 index offset got rsp live at read some_bytes short wide narrow =
    let c = meant 0x00 0xB0 p1 p2 (wire_2 (length got)) in
    let r = apdu_rsp_init (some rsp) (length rsp) in
    let (built, empty) = apdu_rsp_init-IsResponse rsp (omega (arith, wide)) narrow in
    let (r', e, built', more, clean) =
      read_binary-ok c m r got index offset refl refl (ground arith) (omega (arith, short)) at read
        built (unfold apdu_rsp_init in ground (arith, wide)) in
    (
      finish_with (sw_ok, m, r'),
      scos_process-parsed m (read_binary p1 p2 (length got))
          (length (read_binary p1 p2 (length got))) c rsp live (omega (arith, wide))
          (apdu_parse-encode 0x00 0xB0 p1 p2 (wire_2 (length got)) tt) refl
          (unfold scos_dispatch in ap some e),
      unfold finish_with in refl,
      finish_with-ok m r' built' (clean ∙ unfold apdu_rsp_init in refl)
          ∙ ap (λ xs. xs ++ 0x90 ∷ 0x00 ∷ []) (more ∙ ap (λ xs. xs ++ got) empty),
    )

-- On an operational card, an UPDATE BINARY whose P1 and P2 address a usable file with room for the body is
-- answered 9000, and a READ BINARY of as many bytes with the same P1 and P2 is then
-- answered with the body and 9000, and changes nothing. The body has 1 to 255 bytes, the response buffers have room
-- for the answers, and the file tree is well formed.
pub update_then_read :
    (m : Machine) (p1 p2 index offset : ℕ) (body rsp rsp' : List ℕ) (d : FsDescriptor)
    → m.kernel.lifecycle ≡ operational
    → IsTree m.store
    → resolve_target m.store m.kernel.sel p1 p2 ≡ target (index, offset)
    → HasRoom m.store index offset (length body) d
    → length body ≢ 0
    → length body < 256
    → 2 ≤ length rsp
    → length rsp < 65536
    → length body + 2 ≤ length rsp'
    → length rsp' < 65536
    → (out : Outcome) × (out' : Outcome) × (scos_process m
          (some (update_binary p1 p2 body))
          (length (update_binary p1 p2 body))
          rsp
          (length rsp)
        ≡ some out)
      × (take out.rsp_len out.rsp ≡ 0x90 ∷ 0x00 ∷ [])
      × (scos_process out.machine
            (some (read_binary p1 p2 (length body)))
            (length (read_binary p1 p2 (length body)))
            rsp'
            (length rsp')
          ≡ some out')
      × (out'.machine ≡ out.machine)
      × (take out'.rsp_len out'.rsp ≡ body ++ 0x90 ∷ 0x00 ∷ [])
update_then_read m p1 p2 index offset body rsp rsp' d live tree at f some_bytes short wide narrow
      wide' narrow' =
    let (out, e, left, said) =
      update_answered m p1 p2 index offset body rsp d live tree at f some_bytes wide narrow in
    let sized = length-splice (d.data_offset + offset) body m.store.nvm.flash_bytes in
    let (out', e', same, got) =
      read_answered (rewritten m d offset body) p1 p2 index offset body rsp' live
        (resolve_target-with_flash (overwritten m.store d offset body) m.store m.kernel.sel p1 p2
            sized
          ∙ at)
        (fs_ef_read-overwritten m.store index offset body d tree f some_bytes) some_bytes short
        wide' narrow' in
    (out, out', e, said, rw left e', same ∙ sym left, got)
