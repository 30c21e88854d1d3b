-- ===== src/Tty.antt =====
-- The console output stream: src/detail/windows/output_tty.cpp and windows_tty.h.
pub mod Utf8
pub mod Ansi
pub mod Message
pub mod Window
pub mod Style
pub mod Device
pub mod Console
