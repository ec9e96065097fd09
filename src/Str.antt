-- ===== src/Str.antt =====
-- kernel/lib/string.c. The functions on memory take it as a function from the address of a byte;
-- the functions on strings take the list of a string's bytes before the NUL.
pub mod Memory
pub mod Move
pub mod Chars
pub mod Compare
pub mod Number
pub mod Digits
mod Tests
