-- ===== src/Tests.antt =====
-- Concrete runs: the theorems at inputs that exercise the code, and small evaluations.
mod Sequential
mod Registers
mod Pipeline
mod Buses
mod Images
mod Committing
mod Retiring
mod Whole
mod Reaching
mod Sending
mod Accesses
mod Speculation
