-- ===== src/Kernel/Reply.antt =====
-- kernel.c: how a command that is dispatched is answered.
use native_smart_card_os.Apdu.{ApduCommand, apdu_check_cla, apdu_parse, parse_ok}
use native_smart_card_os.Kernel.{answer_command, execute, finish_with, scos_dispatch, scos_process}
use native_smart_card_os.Machine.{Machine, operational}
use native_smart_card_os.Response.{ApduResponse, apdu_rsp_init}
use native_smart_card_os.Response.Contents.{IsResponse, apdu_rsp_finish_lem, contents}
use native_smart_card_os.Sw.{sw_ok}
use native_smart_card_os.Common.{List, [], arith, false, length, some, take, ℕ, ◌++◌, ◌∷◌, ◌≡◌, ◌≤◌}

-- An operational card hands a command of class 00 that is parsed to the dispatcher.
pub scos_process-parsed :
    (m : Machine) (buf : List ℕ) (n : ℕ) (c : ApduCommand) (rsp : List ℕ)
    {out : ℕ × Machine × ApduResponse}
    → m.kernel.lifecycle ≡ operational
    → 2 ≤ length rsp
    → apdu_parse (some buf) n ≡ (parse_ok, c)
    → c.cla ≡ 0
    → scos_dispatch c m (apdu_rsp_init (some rsp) (length rsp)) ≡ some out
    → scos_process m (some buf) n rsp (length rsp) ≡ some (finish_with out)
unfolding scos_process answer_command execute apdu_check_cla
scos_process-parsed m buf n c rsp live wide parsed class h = ground (arith, live, parsed, class, h)

-- A command that answers 9000 without overflow is sent as its payload and the status word.
pub finish_with-ok :
    (m : Machine) (r : ApduResponse)
    → IsResponse r
    → r.overflow ≡ false
    → let out = finish_with (sw_ok, m, r) in
      take out.rsp_len out.rsp ≡ contents r ++ 0x90 ∷ 0x00 ∷ []
unfolding finish_with
finish_with-ok m r h clean = ground (arith, apdu_rsp_finish_lem r sw_ok h)
