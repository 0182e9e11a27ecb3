-- ===== src/Model.antt =====
-- llm_infer/model
pub mod Decode
