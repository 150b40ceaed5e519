-- ===== src/Networking.antt =====
-- The network stack: Networking/.
pub mod GuestList
pub mod Menu
pub mod LockBox
pub mod Inbox
pub mod Curfew
pub mod Rolodex
pub mod Compass
pub mod Bailiff
pub mod Why
pub mod Scheduler
pub mod Postbox
pub mod Sentry
pub mod Bouncer
pub mod Conversation
pub mod Rapport
pub mod Fragment6
pub mod SynCookie
pub mod WatchList
pub mod Foyer
