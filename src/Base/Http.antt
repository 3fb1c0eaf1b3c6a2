-- ===== src/Base/Http.antt =====
-- What the handlers of both servers see of a header of a request.
use cs.Base.Text.{Text}

-- Absent, not text, or text.
pub data Header : Type 0 where
  absent : Header
  unreadable : Header
  header : Text → Header
