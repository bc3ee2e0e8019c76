-- ===== src/Python.antt =====
-- What the addons use of the Python runtime and this development does not define: the tables of
-- the Unicode database, the printing of containers and floats, and the library parsers. Only the
-- documented behaviour on ASCII is assumed.

pub mod Json
pub mod Dict
pub mod Number
pub mod Convert
