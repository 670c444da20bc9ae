-- ===== src/Parser.antt =====
-- The parser of src/parser.c, on text as the list of its bytes. A function that fills an output
-- and says whether it succeeded returns an Option: what it leaves in the output when it fails is
-- dropped, as process_line drops it. `char *` cursors into a line are the text that is left.
pub mod Text
pub mod Number
pub mod Tokens
pub mod Insert
pub mod Statements
pub mod Payload
pub mod Values
pub mod Prints
pub mod Stored
mod Tests
pub mod Created
