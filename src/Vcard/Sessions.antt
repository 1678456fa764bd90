-- ===== src/Vcard/Sessions.antt =====
-- simulator/main.c: a host that runs the program again and again.
use native_smart_card_os.Fs.{fs_max_files, fs_superblock_size}
use native_smart_card_os.Kernel.Start.{ComesUp}
use native_smart_card_os.Store.{desc_offset}
use native_smart_card_os.Tree.{layout}
use native_smart_card_os.Tree.Factory.{bytes_of}
use native_smart_card_os.Vcard.Cycle.{
  IsHost, length-region_power_on, power_on-ComesUp, run_card-Session,
}
use native_smart_card_os.Vcard.Power.{
  Host, VcardConfig, clamp_size, region_load, region_power_on, scos_flash_bytes, vcard_configure,
  vcard_power_on,
}
use native_smart_card_os.Vcard.Program.{Exit, powered_machine, run_card}
use native_smart_card_os.Common.{
  List, Option, arith, get_or, inr, none, refl, replicate, some, suc, take, zero, ℕ, ◌≡◌, ◌≤◌,
}

-- The hosts that runs of the program with one configuration lead to, each with any text of the
-- reader.
pub data After (given : VcardConfig) (host : Host) : Host → Type 0 where
  no_session : After given host host
  session :
      (h : Host) (input : List ℕ) (x : Exit)
      → After given host h
      → run_card given h input ≡ some x
      → After given host x.host

-- No images, and a chip with room for the table and the factory's files.
pub record IsFresh (c : VcardConfig) (host : Host) : Type 0 where
  pub no_eeprom : host.eeprom_image ≡ none
  pub no_flash : host.flash_image ≡ none
  pub table_fits : desc_offset fs_max_files ≤ c.eeprom_size
  pub files_fit : bytes_of layout ≤ c.flash_size

vcard_configure-narrow :
    (given : VcardConfig) → (vcard_configure (some given)).flash_size ≤ scos_flash_bytes
unfolding vcard_configure clamp_size
vcard_configure-narrow given = ground arith

erased :
    (dir image : Option (List ℕ)) (size : ℕ)
    → image ≡ none
    → region_power_on dir image size ≡ replicate size 0xFF
unfolding region_power_on region_load
erased none image size h = refl
erased (some d) image size h = ground (arith, h)

-- Erased memory holds no magic number.
first_erased : (n size : ℕ) → ¬ (get_or (take n (replicate {A = ℕ} size 0xFF)) 0 0 ≡ 0x53)
first_erased zero size e = omega arith
first_erased (suc n) zero e = omega arith
first_erased (suc n) (suc size) e = omega arith

fresh-IsHost :
    (c : VcardConfig) (host : Host)
    → IsFresh c host
    → c.flash_size ≤ scos_flash_bytes
    → IsHost c host
unfolding vcard_power_on
fresh-IsHost c host h narrow =
    let table = length-region_power_on c.state_dir host.eeprom_image c.eeprom_size in
    let files = length-region_power_on c.state_dir host.flash_image c.flash_size in
    inr (
      record {
        on = refl;
        table_fits = omega (arith, table, h.table_fits);
        files_fit = omega (arith, files, h.files_fit);
        narrow = omega (arith, files, narrow);
      },
      rw (erased c.state_dir host.eeprom_image c.eeprom_size h.no_eeprom)
          (λ magic. first_erased fs_superblock_size c.eeprom_size (magic.0)),
    )

after-IsHost :
    (given : VcardConfig) (host h : Host)
    → IsHost (vcard_configure (some given)) host
    → After given host h
    → IsHost (vcard_configure (some given)) h
after-IsHost given host h chip no_session = chip
after-IsHost given host h chip (session before input x path e) =
    let (y, f, exit_zero, again) =
      run_card-Session given before input (after-IsHost given host before chip path) in
    ground (arith, e, f, again)

-- On a host without images, and with regions that have room for the table and the factory's files, the card
-- comes up and serves any text of the reader, however many runs of the program went before and
-- whatever their readers sent: at power-up `scos_init` reports no error, the card is operational
-- and its file tree is well formed, and the run ends, with exit code 0.
pub run_card-After :
    (given : VcardConfig) (host h : Host) (input : List ℕ)
    → IsFresh (vcard_configure (some given)) host
    → After given host h
    → ComesUp (powered_machine (vcard_power_on (vcard_configure (some given)) h))
      × ((x : Exit) × (run_card given h input ≡ some x) × (x.code ≡ 0) × After given host x.host)
run_card-After given host h input fresh path =
    let c = vcard_configure (some given) in
    let chip = fresh-IsHost c host fresh (vcard_configure-narrow given) in
    let up = after-IsHost given host h chip path in
    let (x, e, exit_zero, again) = run_card-Session given h input up in
    (power_on-ComesUp c h up, (x, e, exit_zero, session h input x path e))
