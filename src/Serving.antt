-- ===== src/Serving.antt =====
-- llm_infer/serving
pub mod Server
pub mod Request
pub mod Finish
pub mod Budget
pub mod Speculative
pub mod Recorder
pub mod Speculation
pub mod Engine
pub mod Windows
