-- ===== src/Rest.antt =====
-- The REST interface: server/src/mg_connection_w.cc, server/src/rest and the routes of
-- server/src/web_server.cc.
pub mod Connection
pub mod Node
pub mod Json
pub mod Listing
pub mod Searching
pub mod Users
pub mod Trash
pub mod Transfers
pub mod Directories
pub mod Tags
pub mod Sharing
pub mod Elements
pub mod Routes
pub mod Frames
pub mod Guarded
pub mod Legible
pub mod Authorized
pub mod Refused
pub mod Sessions
pub mod Urls
pub mod Downloads
pub mod Forbidden
pub mod Uploads
pub mod Dispatch
pub mod Strangers
