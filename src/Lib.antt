-- ===== src/Lib.antt =====
-- Verification library of mfst, the flash media stress test (mfst.c and the files beside it).
--
-- The program writes random data with embedded numbers to a device, reads it back, counts the
-- sectors that fail, and goes on until half of them have. Its parts, and the file that models each:
--
--   device_testing_context.h, .c   Context.antt: the state of a test as records
--   rng.c                          Rng.antt: random numbers and buffers of them
--   mfst.c, sector map             SectorMap.antt: the flags of every sector and their count
--   mfst.c, slices                 Slices.antt: the order, the bounds and the seeds of 16 slices
--   mfst.c, contents of sectors    Sector.antt: what is embedded in a sector and read back
--   device.c, search               Search.antt: Search/BodMod and Search/Uuids compare a device,
--                                  Search/Find and Search/Reconnect look and wait for it
--   device.c, system calls         Device.antt: the interface to the operating system, reset_device
--   mfst.c, probe_device_size      Capacity.antt, Capacity/Probe: the test of the capacity;
--                                  Capacity/Write its writing, Capacity/Compare its comparing
--   mfst.c, *_or_retry, *_reset    Io.antt, Io/Transfers.antt: seek, read and write with retries
--   mfst.c, update_bod_mod_buffers Buffers.antt: the copies that identify the device
--   mfst.c, endurance_test_*       Endurance.antt, Endurance/Reads, /Writes, /Slice: the test itself
--   mfst.c, end of main            Verify.antt: reading a block back and comparing it
--   mfst.c, rounds                 Rounds.antt: milestones and the end of the test; Rounds/Summary
--   mfst.c, command line           Options.antt
--   device.c, are_devices_identical Identical.antt
--   state.c                        State.antt: State/Save and State/Load are save_state and
--                                  load_state, State/Schema the tables, State/Pack the packed map
--
-- Functions keep their names. A function that changes the device testing context takes it and gives
-- the next one; a function that does input and output takes the state St of Device.antt: the context,
-- a world, the status of the main thread, and the variable device_was_disconnected. What the operating
-- system does is an interface over the world, a parameter. A result of -1 is none or false. Numbers are
-- natural numbers, with the wrap of the 64-bit counters written out.
--
-- Loops over a buffer or a range of sectors are structural. The loops that retry may run as long as
-- the device keeps going away: they take fuel. The device coming back n times needs fuel n + 5, for
-- the five retries of MAX_RESET_RETRIES. Nothing bounds a wait for the device: in Device.antt one that
-- has no end is none, and so is the result of what waits. The loops over blocks take fuel too, and so do
-- the reading of an area, the choice of random sectors, the wait of Search/Reconnect, and the test of
-- the capacity: fuel for the bytes of the buffer is enough to write it, but a read that keeps giving 0
-- bytes goes on without end, and the search may have any number of rounds, since the code lets the two
-- sectors that it searches between cross.
--
-- Parameters: random_r, calculate_crc32c (crc32.c is a copy of third-party code), strtol and strtoull,
-- the interfaces of Device.antt, Search.antt and Search/Find.antt, and the JSON library, the file
-- system, base64.c (also third-party) and libuuid by the interfaces of State/Json.antt, with the laws
-- of State/Laws.antt. Not modelled: the screen, the log and the statistics file, the lock file, the
-- tests of block size and speed, the database thread, and libudev. The files under Tests run
-- the theorems on a small device.
pub mod Common
pub mod Context
pub mod SectorMap
pub mod Rng
pub mod Slices
pub mod Sector
pub mod Rounds
pub mod Buffers
pub mod Device
pub mod Io
pub mod Endurance
pub mod Capacity
pub mod Search
pub mod State
pub mod Verify
pub mod Options
pub mod Identical
pub mod Tests
