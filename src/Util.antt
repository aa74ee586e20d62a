-- ===== src/Util.antt =====
-- kernel/Source/util/string.c, one child for each group of functions.
pub mod Block
pub mod Str
pub mod Write
pub mod Ctype
pub mod Strtol
pub mod Number
pub mod Substring
pub mod Token
