-- ===== src/Proxy.antt =====
-- The PostgreSQL wire proxy: proxy/src, file by file.
pub mod Buffer
pub mod Protocol
pub mod Embeddings
pub mod MessageParser
pub mod Stream
pub mod Cache
