-- ===== src/Controller.antt =====
-- src/ControllerBase.cpp and src/ControllerBase.h: what the controllers of both devices share.
pub mod Link
pub mod Virtual
pub mod Line
pub mod Rounds
