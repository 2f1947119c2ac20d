-- ===== src/Clib.antt =====
-- The C library: what the program uses of <string.h>, <ctype.h> and <stdlib.h>.
pub mod Exec
pub mod Strings
pub mod Search
pub mod Within
pub mod Copy
pub mod Append
pub mod Chars
pub mod Decimal
pub mod Print
pub mod First
pub mod Put
pub mod After
pub mod Lengths
