-- ===== src/Numeric.antt =====
-- The routines of src/AMath.cpp that work on arrays: byte order, matrices and interpolation. An array is
-- the list of its elements, a pointer into it an index.
pub mod Convolve
pub mod Endian
pub mod Fit
pub mod Interpolation
pub mod Loop
pub mod Magnitude
pub mod Matrix
pub mod Normal
pub mod Select
pub mod Sphere
pub mod Spline
pub mod Tests
