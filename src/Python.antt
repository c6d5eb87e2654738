-- ===== src/Python.antt =====
-- What the program uses of Python: decoded JSON values, dicts, texts, numbers and exceptions.
pub mod Table
pub mod Path
pub mod Value
pub mod Text
pub mod Number
pub mod Result
