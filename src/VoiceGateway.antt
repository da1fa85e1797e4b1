-- ===== src/VoiceGateway.antt =====
-- The voice turn: text for speech, audio frames and the turn itself.
pub mod Sentences
pub mod Audio
pub mod Speaking
pub mod Pipeline
pub mod Listening
mod Tests
