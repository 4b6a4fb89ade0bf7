-- ===== src/Data.antt =====
-- DataHandler, server/src/data_handler.cc: users, directories and files as entries of a key-value
-- database, one entry for each item of each of them.
pub mod Constants
pub mod Keys
pub mod Stored
pub mod Saving
pub mod Access
pub mod Emails
pub mod Users
pub mod Directories
pub mod Files
pub mod Frames
pub mod Profiles
