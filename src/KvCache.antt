-- ===== src/KvCache.antt =====
-- llm_infer/kv_cache
pub mod Allocator
pub mod PrefixCache
pub mod Pool
pub mod BlockTable
pub mod Paged
