-- ===== src/Vchiq.antt =====
-- The VCHIQ transport (interface/vchiq_arm): messages in shared slots between the ARM and the
-- VideoCore, the services that own them, and the bulk transfers that go beside them.
pub mod Message
pub mod Suspend
pub mod State
pub mod Slots
pub mod Bulk
pub mod Service
pub mod Register
pub mod Reserve
pub mod Copy
pub mod Transmit
pub mod Receive
pub mod HeaderQueue
pub mod Handler
pub mod Release
pub mod Shutdown
pub mod FreeQueue
pub mod Client
pub mod Transfer
pub mod Open
pub mod Close
pub mod Window
pub mod Gather
pub mod PageList
pub mod Fragments
pub mod Shim
pub mod Keepalive
pub mod Completion
pub mod Callback
pub mod Await
pub mod Connect
pub mod Connected
pub mod Poll
pub mod PollServices
pub mod Power
pub mod Wake
