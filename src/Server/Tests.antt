-- ===== src/Server/Tests.antt =====
-- The properties of the server at concrete inputs.
mod Data
mod OfChainHead
mod OfArchive
mod OfAuthor
