-- ===== src/Tests.antt =====
-- Concrete inputs: each property's theorem at an input that meets its hypotheses, and runs of the
-- definitions on the examples of the source's own tests.
mod Versions
mod Capture
mod Suspects
mod Actions
mod Drags
mod Writing
mod Frames
mod Steps
mod Sessions
mod Claims
mod Endings
mod Reasoned
