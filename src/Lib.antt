-- ===== src/Lib.antt =====
-- A verification library for embedded-fatfs, an implementation of the FAT file system for
-- asynchronous embedded storage.
--
-- The file system stands on a storage with a position (`Read + Write + Seek`). On it lies the boot
-- sector, which says where the regions of the volume are; then the file allocation table, which
-- links the clusters of a file into a chain; then the data. Here is modelled:
--   Io: embedded-fatfs/src/io.rs and error.rs. A call is a function from the state of the storage to
--     a `Run`: a value or an error with the state left behind, or a panic. The storage itself is
--     code of other crates: `Storage` is its interface, `Io.Laws.IsStorage` what is documented of
--     `seek`, `read_exact` and `write_all` inside the storage, and `Io.Memory` an instance.
--   FatType: `FatType` and `FsStatusFlags` of embedded-fatfs/src/fs.rs.
--   Table: embedded-fatfs/src/table.rs. `Fat12`, `Fat16` and `Fat32` have the functions of the
--     trait `FatTrait` for their layout; Table itself has the free functions over all three.
--     `Table.Contract` is what a layout promises, and `Table.Alloc` stands on that alone.
--   Chain: `ClusterIterator` of table.rs, with `free` (here `free_chain`) and `truncate`. Its
--     fields are the iterator's, and the table that it borrows is the state of the storage.
--   Time: the DOS formats of embedded-fatfs/src/time.rs.
--   BootSector: embedded-fatfs/src/boot_sector.rs: the fields and derived numbers, `Codec` for
--     reading and writing, `Validate` for the checks at mount, `Format` for the geometry of a new
--     volume.
--   FsInfo: `FsInfoSector` of embedded-fatfs/src/fs.rs, the counters of a FAT32 volume.
--   DiskSlice: `fat_slice` and `DiskSlice` of embedded-fatfs/src/fs.rs, the window through which the
--     table is read and written, with its mirrors. Its state stands beside that of the storage.
--   DirEntry: embedded-fatfs/src/dir_entry.rs: the two kinds of entries and their fields, `Codec` for
--     reading and writing them, `Editor` for `DirEntryEditor` (its setters are `edit_*` here),
--     `ShortName` for the display form of an 8.3 name.
--   LongName: the long names of embedded-fatfs/src/dir.rs: `LongNameBuilder`, which collects a name
--     from the entries before a file, and `LfnEntriesGenerator`, which makes those entries.
--     `Validate` is the check of a name before it is stored.
--   ShortNames: `ShortNameGenerator` of dir.rs, the 8.3 name of a file with a long name, and the names
--     of a directory that it avoids. A name is the list of its characters; `name[1..]` of `new`, which
--     panics between the bytes of a character, is written as a test of the first one.
--   BufStream: block-device-adapters/src/buf_stream.rs, a byte stream over a block device with a
--     cache of one block; it can be the storage of a file system. The device is a parameter:
--     `BufStream.Device` has the trait of block-device-driver/src/lib.rs and what it documents.
--     `BufStream.View` says what a stream shows, the abstract specification of its reads and writes.
--     The address of the caller's buffer is a number, since alignment decides on the path taken.
--   StreamSlice: block-device-adapters/src/stream_slice.rs, a window onto a stream.
--   FileSystem: `FileSystem` and `FsIoAdapter` of embedded-fatfs/src/fs.rs. What mounting sets is a
--     record, and what is behind a cell is the state: the disk with the flags last written to it,
--     and the counters beside them. `Mount` is `FileSystem::new`; `Clusters` has the operations on
--     clusters, counters and flags. The table is reached as in the source, through a `DiskSlice`
--     (`DiskSlice.Window`) over the adapter, and `Volume` shows that this stack keeps the laws that
--     `Table` and `Chain` ask of a storage. `read_exact` and `write_all` of the adapter and the slice
--     are methods that embedded_io_async provides, and so a parameter (`Io.Provided`).
--   File: embedded-fatfs/src/file.rs. The state is the context of the file beside the volume; `Transfer`
--     is `read` and `write`, `Seek` is `seek`; `Reads`, `Writes`, `Extends`, `Walk` and `Truncates` are
--     about them and `truncate`. What the clock gives during a call is an argument.
--   Examples: runs on small inputs, an instance of each interface, and the theorems at work.
--
-- Numbers are natural numbers with the wrap of the Rust type written out. Loops run on fuel: those
-- over the entries of a table have more than the entries in their range, and `free` takes its fuel
-- as an argument; a chain without repetition needs as much as it has clusters. The loops of
-- `BufStream` need a round for each block that the request touches.
--
-- Not modelled: logging, Display and Debug, the chrono conversions, the labels as strings,
-- `format_volume`, the directory iterator, the builds without long names or
-- without an allocator, and the SD card driver.
pub mod Base
pub mod Io
pub mod FatType
pub mod FileSystem
pub mod File
pub mod StreamSlice
pub mod Table
pub mod Chain
pub mod Time
pub mod BootSector
pub mod DirEntry
pub mod LongName
pub mod ShortNames
pub mod BufStream
pub mod FsInfo
pub mod DiskSlice
pub mod Examples
