-- ===== src/Inject.antt =====
-- crates/penflow-core/src/inject: the pen and the fingers, put into the system's input.
pub mod Binding
pub mod Os
pub mod Flags
pub mod Pressure
pub mod Vmulti
pub mod Injector
pub mod Buttons
pub mod Balance
pub mod Pen
pub mod Touch
pub mod Mouse
pub mod Tests
