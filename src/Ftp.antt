-- ===== src/Ftp.antt =====
-- The FTP client of main/ftp_cli.c, without idle callbacks, which nothing in the repository sets:
-- `socketWait` returns 1. What the sockets, the files and the allocator answer is read from lists in
-- the state, the next answer first; an exhausted list of received pieces is a broken connection.
pub mod Buf
pub mod Line
pub mod Reply
pub mod Requests
pub mod Port
pub mod Access
pub mod Write
pub mod Copy
pub mod Task
pub mod World
