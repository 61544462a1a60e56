-- ===== src/Util/Text.antt =====
-- The string functions of src/Util/util.h and util.cpp. A std::string is the list of its bytes.
mod Tests
pub mod Find
pub mod Split
pub mod Trim
