-- ===== src/Json.antt =====
-- JSON values: what request bodies are built from and what payloads are decoded from. The text form
-- of a value is the business of encoding/json, and enters as a parameter (World).
mod Decode
unfoldable pub use Decode.*
