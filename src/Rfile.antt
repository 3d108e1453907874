-- ===== src/Rfile.antt =====
-- Remote files of ftp/rfile.c (under src/).
pub mod Perm
pub mod File
pub mod Eplf
pub mod Dates
pub mod Unix
pub mod Dos
pub mod Mlsd
pub mod Colors
pub mod Choice
