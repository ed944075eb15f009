-- ===== src/Tests.antt =====
-- Runs of the model at concrete inputs, and the theorems applied at such inputs, by component.
mod Mutex
mod Ram
mod Buffers
mod Blocking
mod Control
mod Signal
mod Kernel
mod Programs
mod Files
mod Modules
