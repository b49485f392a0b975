-- ===== src/Python.antt =====
-- What the services use of Python beside text: its errors, and the values that a JSON text is read
-- into, with the operations that find out at run time whether a value has them.
pub mod Errors
pub mod Json
