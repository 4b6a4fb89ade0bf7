-- ===== src/Dispatcher.antt =====
-- RequestDispatcher, server/src/request_dispatcher.cc: the requests of the users, on top of the
-- database and the files.
pub mod Records
pub mod Sizes
pub mod Accounts
pub mod Listing
pub mod Downloads
pub mod Uploads
pub mod Sharing
pub mod Trash
pub mod Searching
pub mod Frames
pub mod Requests
pub mod Guards
pub mod Sessions
pub mod Quota
pub mod Owners
