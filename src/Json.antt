-- ===== src/Json.antt =====
-- main/json_buf.h: UTF-8 sequences, the bounded copy and the bounded JSON writer.
pub mod Utf8
pub mod Writer
