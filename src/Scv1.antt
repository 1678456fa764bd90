-- ===== src/Scv1.antt =====
-- src/hal/arm-scv1/hal_arm_nvm.c, startup.c, hal_arm_platform.c and card_main.c: the SCV1 chip's data
-- memory, what runs before `main`, and the firmware's main program. The file system runs over the model of the simulator's
-- memory, with which Scv1.Agree compares this one.
pub mod Memory
pub mod Agree
pub mod Platform
pub mod Power
pub mod Cycle
pub mod Program
pub mod Restarts
pub mod Startup
pub mod Bringup
