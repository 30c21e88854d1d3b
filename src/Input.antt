-- ===== src/Input.antt =====
-- `LuaNode::detail::windows::InputTtyStream` (src/detail/windows/input_tty.cpp): what is typed at the console,
-- as bytes for Lua. Win32 is outside of the model.
pub mod Keys
pub mod Reader
pub mod Handler
pub mod Thread
pub mod Modes
mod Tests
