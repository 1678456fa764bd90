-- ===== src/Lib.antt =====
-- A model of the smart card operating system, and what is proved of it.
--
-- The card receives command APDUs from the link, answers each with a response APDU, and keeps a
-- file tree in non-volatile memory. The parts, from the chip upwards:
--   Hal         src/hal/simulator/hal_sim_nvm.c: reads and writes of EEPROM and FLASH, which are the
--               lists of their bytes. A write replaces a block; a region keeps its length.
--   Crc16       src/kernel/crc16.c; OsMem: src/kernel/os_mem.c.
--   Fs          include/filesystem/fs_types.h: the descriptor and the status values.
--   Store       src/filesystem/fs_store.c: superblock, descriptor table and file data. Its state is the
--               chip and the mirror s_sb of the superblock in RAM.
--   Tree        src/filesystem/fs.c: searches, selection, reading and writing of a file, creation,
--               deletion, the factory layout. The invariant is Tree.Invariant.IsTree.
--   Sw, Apdu, Response, Tlv
--               include/apdu/sw.h, src/apdu/apdu_parse.c, src/apdu/apdu_resp.c, src/apdu/tlv.c.
--   Machine     include/os/kernel.h: the state of the kernel beside that of the file system.
--   Cmd         src/filesystem/cmd_select.c, cmd_binary.c and cmd_create.c: the command handlers.
--   Kernel      src/kernel/kernel.c, src/apdu/apdu_dispatch.c and src/kernel/card_loop.c.
--   Boot        src/boot: the boot loader of the SCV1 chip, over two regions of code flash.
--   Link        simulator/transport.c and src/hal/arm-scv1/hal_arm_io.c: the line protocol to the reader
--               (Link.Simulator, Link.Uart), and Link.Session: the card loop over a link, which is a record of
--               hal_card_receive, hal_card_send and the contract that both transports keep.
--   Vcard       simulator/virtual_card.c, src/hal/simulator/hal_sim_platform.c and simulator/main.c: the
--               power cycle of the virtual chip, its random numbers, and the program.
--   Rom         src/hal/arm-scv1/boot_main.c and semihost.c: the boot decision and the loader's loop, a step
--               function on the state of the core with a relation for what is reached.
--   Scv1        src/hal/arm-scv1/hal_arm_nvm.c, hal_arm_platform.c, startup.c and card_main.c: the SCV1
--               chip's data memory and its power cycle, the random numbers and the timer, the start-up,
--               the faults, and the firmware's main program.
--   Common      names that the others share, and lemmas on lists and blocks of memory.
--   Examples    the theorems at concrete inputs.
--
-- How code is rendered. A function of C is a function of the same name. State is passed
-- explicitly: an operation of the file system takes a Store and returns its result with the new
-- Store. A status with an out-parameter is an FsResult, whose value exists only where the status is
-- FS_OK. A pointer to bytes is the list of the bytes that may be read there, and none is NULL where
-- the code can pass NULL; pointers to objects that are never NULL are the objects. Numbers are
-- natural numbers with the casts written out (`% 2 ^ k`), and an `|` of disjoint bit fields is a sum. File
-- types and life cycles are their byte codes, as they are stored.
--
-- Loops over slots, bytes and pages recur on what is left. The two loops over TLV objects (tlv_find
-- and the loop of parse_fcp) recur on fuel, one more than the length of the buffer. Each object that
-- is read takes two bytes at least, so this is enough, as is shown; the fuel is why CREATE FILE,
-- scos_dispatch and scos_process return an Option.
--
-- In Kernel the link of the card is the list of the events that hal_card_receive reports; in
-- Link.Session it is a transport over the text that the reader sends. The receive loop of the simulator
-- recurs on fuel, one more than the characters that are left, and so does the card loop: each turn reads a character
-- or ends, as is shown. The UART's loop recurs on the characters and waits where they run out;
-- the card loop has not returned then, and neither has the firmware's main program. The bytes
-- that a refused line leaves in the command buffer are not tracked, since only as many bytes are read
-- as the call reports; the counter of a line's characters does not wrap. A byte is a natural number; only the table of
-- class bytes, the fields of a header and the lines of hex ask for its range.
--
-- The commands of a host that installs an image are those of its loader protocol, in the order that
-- boot_loader.c asks for: Rom.Install has them as a list. The file system runs over the memory of Hal, and
-- the memory of the SCV1 port is compared with it.
--
-- Tree.Spec states what the file system promises: files with attributes and contents, without places
-- in FLASH, and the steps that change them.
--
-- Files of a host, of the simulator and of the debugger, are there or not, and can be written or not;
-- an open file takes all that is written, and a write fails for both files of a card or for none. The
-- strap BOOTSEL is an input of each round of the boot ROM, and so is whether a debugger answers.
-- strtoul is a parameter.
--
-- Not modelled: what programs print on the standard error, the usage, the banner and the
-- clock of the simulator; the registers of the UART, the assembly of the exception handlers and of the jump
-- into the OS; src/hal/samsung, whose functions return errors; and scos_ins_name, which names
-- commands in traces.
pub mod Common
pub mod Crc16
pub mod Hal
pub mod Sw
pub mod Apdu
pub mod OsMem
pub mod Response
pub mod Tlv
pub mod Fs
pub mod Store
pub mod Tree
pub mod Link
pub mod Vcard
pub mod Rom
pub mod Scv1
pub mod Machine
pub mod Cmd
pub mod Kernel
pub mod Boot
pub mod Examples
