-- ===== src/Event.antt =====
-- eventsCtl/event_ctl.c and eventsCtl/event_ctl.h: the event loop.
pub mod Timespec
pub mod Lists
pub mod Relinked
pub mod Master
pub mod Loop
pub mod WellFormed
pub mod Detached
pub mod Cancel
pub mod Expiry
pub mod Placing
pub mod Insertion
pub mod Waking
pub mod Epoll
pub mod Destroy
mod Tests
