-- ===== src/Desktop.antt =====
-- apps/penflow-gui/src-tauri/src: how the settings of the application reach a session. Text has what is
-- used of `str`, Keys is the reading of key names, Bindings the conversion of the pen's bindings.
pub mod Text
pub mod Keys
pub mod Bindings
pub mod Tests
