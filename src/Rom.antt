-- ===== src/Rom.antt =====
-- src/hal/arm-scv1/boot_main.c and semihost.c: the boot ROM of the SCV1 chip. It decides at power-up and at
-- every reset whether the OS is started, and serves the loader's commands otherwise.
pub mod Semihost
pub mod Loop
pub mod Decision
pub mod Restart
pub mod Install
pub mod Installed
pub mod Report
pub mod Entry
