-- ===== src/Http/Handler.antt =====
-- `http.Handler`: a handler is what it does with a writer and a request.
use go_web_sdk.Http.Request.{Request}
use go_web_sdk.Http.World.{Effect}
use go_web_sdk.Http.Writer.{Writer}

abbrev pub Handler : Type 0
Handler = Writer → Request → Effect
