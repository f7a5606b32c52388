-- ===== src/Sftpdir.antt =====
-- c/libssh2/sftpdir.c: lists a directory over SFTP. libssh2, the socket and the server are parameters, by
-- their answers; what is printed is left out, and so is what a name and its attributes hold.
pub mod Auth
pub mod Arguments
pub mod Program
mod Tests
