-- ===== src/Codec/Padding/Generated.antt =====
-- Tokenish padding that the client generates passes the server's Huffman length check.
use sing_xhttp.Codec.{Codec}
use sing_xhttp.Codec.Request.{Request}
