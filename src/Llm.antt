-- ===== src/Llm.antt =====
-- llm/: the frames and the events of one call of the model.
pub mod Json
pub mod Problem
pub mod Messages
pub mod Events
pub mod Frames
mod Tests
