-- ===== src/Lib.antt =====
-- Models of parts of the recovery system of a device, and theorems about them.
--
-- The program starts in recovery mode, finds out what it shall do, checks the signature of an
-- update package, opens the package as a zip archive and runs the edify script in it.
--
-- * Recovery models how recovery.c comes to its arguments (get_args) and how they survive a
--   reboot in the message of bootloader.h, until finish_recovery erases it. Recovery/Message has
--   the message, with each field as the string that its array holds, and the strlcpy, strlcat
--   and memset that change it; Recovery/Tokens has strtok and fgets; Recovery/Args has get_args
--   as a function of what it reads, and finish_recovery with what its calls come to: bootloader.c,
--   which keeps the message, is not modelled. Recovery/Restart and Recovery/Found have the proofs.
-- * Verifier models verify_file of verifier.c. Verifier/Model takes the mincrypt library as a
--   parameter, of which the model uses that data may be passed in pieces. A package is a list of
--   bytes, and reads fail only past its end. The proofs are in Verifier/Hashing,
--   Verifier/Marker, Verifier/Verdict and Verifier/Signing.
-- * Edify models edify/expr.c. Edify/Machine has values, states and functions, Edify/Args the
--   functions that evaluate operands, Edify/Builtins the functions that a script can call,
--   Edify/Expr trees and their evaluation, Edify/Table the table of functions, Edify/Strtol the
--   C library's strtol with a long of 32 bits. What would be undefined behaviour, as a read past
--   argv, is an outcome of its own. Edify/Algebra, Edify/Concat, Edify/Assert, Edify/Decimal and
--   Edify/Safety have the proofs.
-- * Applypatch models applypatch/bspatch.c, offtout of applypatch/bsdiff.c, and in
--   Applypatch/Words the numbers of applypatch/utils.c. Applypatch/Model takes bzip2 as a
--   parameter, a function from compressed data to the data that comes out of it, and whether it
--   breaks off before the end of its stream, where FillBuffer waits without end. Applypatch/Offsets has the eight-byte numbers, Applypatch/Layout the
--   patches as bsdiff lays them out. Applypatch/Digest models how applypatch/applypatch.c
--   chooses the file and the patch, with what is loaded as a parameter; Applypatch/Choice,
--   Applypatch/Spelled, Applypatch/Resume and Applypatch/Checked have the proofs. Applypatch/Partition models
--   LoadPartitionContents, where SHA-1, qsort and what a partition holds are parameters;
--   Applypatch/Partition/Prefix has the proofs.
-- * Applypatch/Target models the rest of applypatch/applypatch.c, applypatch/imgpatch.c and
--   applypatch/freecache.c as programs that make system calls. Applypatch/Target/Calls has
--   a disk, the calls, what each may answer and do to the disk, and the states that a run
--   can come to; a run may be interrupted in each of them. Applypatch/Target/Sinks has
--   FileSink, MemorySink and ApplyBSDiffPatch, Applypatch/Target/Image has ApplyImagePatch
--   with zlib as a parameter, Applypatch/Target/Space has MakeFreeSpaceOnCache,
--   Applypatch/Target/Save has SaveFileContents and WriteToPartition,
--   Applypatch/Target/Generate has GenerateTarget, Applypatch/Target/Load has
--   LoadFileContents of a file, which masks it as minelf does, and Applypatch/Target/Whole
--   has applypatch from the choice of the file on. A file descriptor is the path of its
--   file. Applypatch/Target/Runs has what holds at each moment of a run, and
--   Applypatch/Target/Frame programs that leave a file alone; the other modules below
--   Applypatch/Target have the proofs.
-- * Minelf models minelf/Retouch.c. Minelf/Entry has the decoder of the list of entries,
--   Minelf/Retouch has retouch_mask_data, and Minelf/Encoded and Minelf/Masked have the
--   proofs.
-- * Minzip/Hash models the hash table in which minzip/Hash.c keeps the entries of an archive.
--   Minzip/Hash/Table has the operations, and Minzip/Hash/Valid the invariant.
-- * Minzip/Zip models minzip/Zip.c. A mapped file is a list of bytes, and reading outside of it
--   is an outcome of its own. Minzip/Zip/Directory has the parser of the central directory, with
--   the search for the place of an entry; Minzip/Zip/Index puts the entries into the hash table
--   and finds them again; Minzip/Zip/Path has the paths of what is extracted, and
--   Minzip/Zip/Extract the loop of mzExtractRecursive, which takes the calls that it makes as an
--   interface. Minzip/Zip/Order, Minzip/Zip/Sorted, Minzip/Zip/Parse, Minzip/Zip/Open, Minzip/Zip/Find and
--   Minzip/Zip/Contiguous have the proofs.
-- * Mtd models mtdutils/mtdutils.c, with the kernel's driver as an interface. Mtd/Device has the
--   interface and the outcomes of calls, Mtd/Write and Mtd/Read the contexts with their
--   operations. A buffer is the list of the bytes in it that count. Mtd/Chunks, Mtd/Verified,
--   Mtd/Sound, Mtd/RoundTrip and Mtd/Unsupported have the proofs.
-- * Base has numbers, lists, bytes, integers and strcmp.
--
-- Bounds and fuel. The loop that hashes a file is given a round for each byte that is signed,
-- the loop over the command file one for each byte of the file, a search by halving one for
-- each entry, a probing loop one for each slot, the loops over the blocks of a partition one
-- for each byte of it, the loop over the triples of a patch one for each byte of their block,
-- the loop of FileSink one for each byte, and the loop over retouched entries one for each byte
-- of the object and one more. Each round of these loops uses up at least one of what it is
-- given a round for. A loop without a round left gives an outcome of its own, `none`,
-- `out_of_fuel`, `endless` (where a loop of the source
-- may be what does not end) or `out_of_rounds`, and the loop of FileSink what was written.
--
-- Not modelled: memory that runs out where no call of malloc is named, logging and progress
-- output, the other parts of recovery.c (menus, installation and main), the lexer and the
-- grammar of edify, and the directories of the repository that do not appear above, such as
-- bootloader.c, updater and minui. Of mtdutils/mtdutils.c the table of partitions, and of minzip/Zip.c the
-- streams of an entry's data are not modelled. Of a disk only what its files hold is modelled,
-- not owners and modes; written data stay written, which the code asks for by fsync. The mask
-- of a hash by the table's size less 1 is written as the remainder, since the size is a power
-- of two.
pub mod Base
pub mod Edify
pub mod Verifier
pub mod Recovery
pub mod Applypatch
pub mod Minzip
pub mod Minelf
pub mod Mtd
