-- ===== src/State.antt =====
-- state.c: saving the state of the test to a JSON file after every round, and loading it again.
-- The children are the interface to what the file calls, the table of the properties of the
-- JSON file, the packed sector map, and the two functions.
pub mod Json
pub mod Schema
pub mod Pack
pub mod Save
pub mod Validate
pub mod Load
pub mod Unpacked
pub mod Restored
pub mod Flags
pub mod Rejects
pub mod Errors
pub mod Laws
pub mod Lookup
pub mod Content
pub mod Fields
pub mod Groups
pub mod Written
pub mod Noted
pub mod Checked
pub mod Passes
pub mod Stored
pub mod Present
pub mod Populated
pub mod Restoring
pub mod RoundTrip
pub mod Saved
