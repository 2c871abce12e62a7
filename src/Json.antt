-- ===== src/Json.antt =====
-- JSON documents, as far as the server's own messages go: flat objects of scalars. The text between
-- the braces, which encoding/json writes and reads back, is left out: a document is the object itself.
use uncord_server.Prelude.{ℕ, Bool, Bytes, List}
use Prim.Native.String.{String}

pub data Scalar : Type 0 where
  null : Scalar
  bool : Bool → Scalar
  num : ℕ → Scalar
  str : Bytes → Scalar
  nested : Scalar

-- What arrives as a payload: something that is no JSON object, or the fields of one in order.
pub data Document : Type 0 where
  garbage : Document
  object : List (String × Scalar) → Document
