-- ===== src/Scanner.antt =====
-- The class `SpaceScanner` of lib/include/spacescanner.h and lib/src/spacescanner.cpp.
pub mod Queue
pub mod Coverage
pub mod Children
pub mod Distinct
pub mod State
pub mod Scan
pub mod Fresh
pub mod Worker
pub mod Control
pub mod Progress
pub mod Races
pub mod Quiet
pub mod Stop
pub mod Events
pub mod Leaves
pub mod Sound
pub mod Errors
pub mod Reading
