-- ===== src/Disk.antt =====
-- src/encodemem.c and src/decodemem.c: the image of a disk, of 2048 sectors of 256 bytes.
pub mod Image
pub mod FileChain
pub mod FileSector
pub mod RoundTrip
pub mod Directory
pub mod Build
pub mod Keeps
pub mod FileKeeps
pub mod Words
pub mod BuildKeeps
pub mod Steps
pub mod Commands
pub mod TextFile
pub mod FileEntry
pub mod Intact
pub mod Paths
pub mod Entries
mod Tests
mod PathTests
