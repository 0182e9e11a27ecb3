-- ===== src/Serving/Server.antt =====
-- llm_infer/serving/server
pub mod Detokenizer
pub mod Stop
pub mod Metrics
pub mod AsyncEngine
pub mod Streaming
