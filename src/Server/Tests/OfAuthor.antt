-- ===== src/Server/Tests/OfAuthor.antt =====
-- Concrete inputs for the `author` methods.
