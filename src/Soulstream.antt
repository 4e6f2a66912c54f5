-- ===== src/Soulstream.antt =====
-- soulstream/: channels on the topics of a soulstream realm, and an imp's notes as comments on them.
pub mod Topic
pub mod Bridge
