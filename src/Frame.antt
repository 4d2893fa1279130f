-- ===== src/Frame.antt =====
-- The frames of the serial lines: what CoolerCtl and VacuumCtl write (encode_data) and read (the
-- byte level of decode_data), ControllerBase::decode_uint8, and the checksums of src/AMath.h.
pub mod Hex
pub mod Cooler
pub mod Vacuum
pub mod Tests
