-- ===== src/Http.antt =====
-- What the handlers see of net/http, context, slog and encoding/json: the request, the response
-- writer with its connection, the logs, JSON values and the effects of a handler.
pub mod Header
pub mod Json
pub mod Request
pub mod Status
pub mod World
pub mod Writer
pub mod Handler
