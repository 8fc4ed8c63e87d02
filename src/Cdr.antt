-- ===== src/Cdr.antt =====
-- src/serdes.hpp and src/serdes.cpp: the common data representation (CDR) of ROS messages.
mod Tests
pub mod Host
pub mod Ser
pub mod Deser
pub mod Swap
pub mod RoundTrip
pub mod Print
