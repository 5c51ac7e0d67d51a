-- ===== src/Lib.antt =====
-- zune-sync talks MTP to a player: a client runs operations of a session, the session frames them as
-- requests and reads the answers through a packeter, and the packeter moves bytes over USB bulk pipes.
-- This library models the protocol part, mtp/ptp/, from the bytes up to the session, and above it the
-- media library of mtp/metadata/Library.cpp, the commands of cli/Session.cpp, and the file system of
-- fuse/fuse.cpp.
--
--   Stream        mtp/ptp/InputStream.h and mtp/ptp/OutputStream.h. A stream is the byte array with an
--                 offset, or the byte array so far. Strings are their UTF-8 bytes, and a write or read
--                 that throws is an error value. A read of a std::string behind its terminator, for
--                 which C++ defines nothing, is the error past_terminator.
--   Codes         The value lists mtp/ptp/*.values.h, and ToString, IsArray, IsAudioFormat and
--                 IsImageFormat. The hexadecimal printing of an unknown value is a parameter.
--   Messages      mtp/ptp/Messages.h and mtp/ptp/Messages.cpp: one record for each message, with its
--                 Read and its Write. strcasestr and isspace are parameters.
--   Request       mtp/ptp/OperationRequest.h, mtp/ptp/Container.h, mtp/ptp/Response.h.
--   Pipe          mtp/ptp/ByteArrayObjectStream.h, mtp/ptp/JoinedObjectStream.h and
--                 mtp/ptp/PipePacketer.cpp. A transfer of the bulk pipe is the list of chunks that it
--                 hands to the stream's Write, so a theorem about all transfers with the same bytes
--                 covers every way in which USB cuts a message. Where the transfers end, the pipe times
--                 out. The caller's stream is a type with its own Write.
--   PropertyList  mtp/ptp/ObjectPropertyListParser.h, and the entries that mtp/ptp/Session.cpp and
--                 mtp/metadata/Library.cpp write.
--   Session       mtp/ptp/Session.cpp. A method takes the session and gives a result or an exception
--                 with the session after it, so what was changed before a throw stays. The state also
--                 holds what was sent, how the next writes end, and what the device sends next. The mutex of the session lets one
--                 operation run at a time, so each is one step.
--   Library       mtp/metadata/Library.cpp: the constructor, and the methods on artists, albums, tracks,
--                 playlists and covers. A method runs on the library with the session, which is an
--                 interface, Library/Interface, that mtp/ptp/Session.cpp as modelled here fills. A
--                 shared_ptr is the number of an object. The order in which a hash set is run through,
--                 and the conversions of dates, are parameters.
--   Client        cli/Session.cpp and cli/Command.h: the strings, `_commands` and ProcessCommand, the
--                 paths on the device, storages and the prompt, the commands on the media library, and
--                 Put, for which what is at a path of the host is a tree, Client/Upload, and Get and
--                 GetThumb, Client/Getting, which list what they do to the host. What is printed is not
--                 modelled. The files that are imported, what TagLib reads of them, libmagic, and what
--                 the host says to `open` and `utime` are parameters.
--   Fuse          fuse/fuse.cpp, with FuseId.h, FuseEntry.h, FuseDirectory.h and Exception.h beside it.
--                 Fuse/State has the members of FuseWrapper as one record: a map is a list in the order
--                 of its keys, a set such a list without doubles. Fuse/Inodes is the numbering,
--                 Fuse/Listing is PopulateStorages, GetChildren and what they read, Fuse/Access the
--                 methods under the requests, Fuse/Files and Fuse/Directory the requests on files and on
--                 names, and Fuse/Requests the functions that libfuse calls, with WRAP_EX and Connect. The
--                 replies are a list in the state. The session, with the edit of an object that
--                 GetTransaction keeps, is an interface; finding a device and opening a session, the
--                 clock, the dates and what libfuse says to a reply are parameters. Where Read would copy
--                 from behind the end of cached contents, and where Rename uses an erased iterator, for
--                 which C++ defines nothing, the model has the errors past_end and invalid_iterator;
--                 where ObjectEditSession is destroyed and EndEditObject throws, which ends the program,
--                 it has the error terminated. WRAP_EX catches none of these.
--   Device        GetInterfaceStringIndex of mtp/ptp/Device.cpp, and mtp/usb/BulkPipe.cpp. The transfers
--                 of the USB back end are parameters, which may run Cancel of other threads.
--   Base          Names and lemmas that the parts share. Base/Stateful is the code of a method that may
--                 throw, Base/Dict the maps with string keys, and Base/Sorted the maps and sets in the
--                 order of their keys.
--
-- Machine integers are numbers with their wrap-around written out: `u32 x` is the low 32 bits. Get
-- is fuelled by the number of directories below each other, since a device may list an object
-- within itself, and then the source does not end either. All other loops are structural, over the
-- number of units or elements that was read, over the bytes of a string, over the transfers, or
-- over a size that the code counts down, but for three. The loops of Resolve and of
-- GetInterfaceStringIndex get one round more than their text has bytes; both go on by at least one
-- byte in a round. A u64 has at most eight bytes in SetObjectProperty and twenty digits in print.
--
-- Not modelled: logging; time-outs as numbers; GetObjectModificationTime and ConvertDateTime, which call
-- the C library; mtp/metadata/Metadata.cpp, which calls TagLib; mtp/mtpz, which calls OpenSSL; the USB
-- back ends, and Open of mtp/ptp/Device.cpp, which probes them; List of cli/Session.cpp and
-- the rest of cli; the main of fuse/fuse.cpp, which reads the options and runs the loop of libfuse; and
-- qt, python and tools.
pub mod Base
pub mod Stream
pub mod Codes
pub mod Messages
pub mod Request
pub mod Pipe
pub mod PropertyList
pub mod Session
pub mod Library
pub mod Fuse
pub mod Client
pub mod Device
