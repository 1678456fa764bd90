-- ===== src/Vcard.antt =====
-- simulator/virtual_card.c, src/hal/simulator/hal_sim_platform.c and simulator/main.c: the virtual
-- chip, its power cycle with the images of its memory on the host, and the program that serves a reader.
pub mod Power
pub mod Random
pub mod Program
pub mod Cycle
pub mod Sessions
