-- ===== src/Rw.antt =====
-- CTasPktHandlerRw (src/tas_client/tas_pkt_handler_rw.cpp): the builder of read and write requests,
-- and the parser of their responses.
pub mod Trans
pub mod State
pub mod Limits
pub mod Add
pub mod Split
pub mod Request
pub mod Frame
pub mod Laws
pub mod Tiling
pub mod Decoded
pub mod Written
pub mod Access
pub mod StepsIf
pub mod Cut
pub mod Steps
pub mod AddAccess
pub mod AddFill
pub mod Start
pub mod Report
pub mod Response
pub mod Moves
pub mod Parsing
pub mod Answers
pub mod Reach
pub mod Advance
pub mod Taken
pub mod AllOrNothing
pub mod Session
pub mod Results
pub mod Counting
pub mod Chain
pub mod Open
pub mod Selecting
pub mod Opening
pub mod Adding
pub mod Opened
pub mod Packets
pub mod Sized
pub mod TestData
pub mod SizedData
mod Examples
mod ResponseExamples
mod SizedExamples
