-- ===== src/Annex.antt =====
-- src/AnnexControl.cpp and src/AnnexControl.h: the messages that the controller registers and posts,
-- and its handlers, over the links of the serial controllers.
pub mod Messages
pub mod Network
pub mod Service
pub mod Tests
