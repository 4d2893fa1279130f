-- ===== src/Device.antt =====
-- src/CoolerCtl.cpp and src/VacuumCtl.cpp: what the two devices keep, and how they implement the
-- virtual functions of ControllerBase.
pub mod Float
pub mod Records
pub mod Cooler
pub mod Vacuum
pub mod Report
pub mod Tests
