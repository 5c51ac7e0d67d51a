-- ===== src/Pipe.antt =====
-- Object streams (mtp/ptp/ByteArrayObjectStream.h, mtp/ptp/JoinedObjectStream.h) and the framing of
-- messages over the bulk pipe (mtp/ptp/PipePacketer.cpp).
pub mod Samples
mod Tests
pub mod ByteStreams
pub mod Joined
pub mod Parser
pub mod Packeter
pub mod JoinedLaws
pub mod Filling
pub mod Header
pub mod HeaderWrite
pub mod HeaderProgress
pub mod MessageWrite
pub mod Exchange
pub mod Answers
pub mod JoinedReading
