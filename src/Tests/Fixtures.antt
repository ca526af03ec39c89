-- ===== src/Tests/Fixtures.antt =====
-- A fresh connection and a request, for the tests.
use go_web_sdk.Text.Int.{pos}
use go_web_sdk.Common.{[], none, false}
use go_web_sdk.Text.{codes}
use go_web_sdk.Http.World.{World}
use go_web_sdk.Http.Request.{Request, background, with_request_id}

abbrev pub start : World
start = record {
  conn = record {
    header = [];
    status = none;
    sent = [];
    informational = [];
    body = [];
    fault = none;
  };
  recordings = λ i. record { status = 0; committed = false };
  misses = λ i. record { header = []; status = 0 };
  next = 0;
  logs = [];
  entropy = λ i. 0;
  clock = 1000;
  deadlines = record { read = none; write = none; refusal = none };
}

abbrev pub request : Request
request = record {
  method = codes "GET";
  path = codes "/items/7";
  request_uri = codes "/items/7";
  proto_major = 1;
  proto_minor = 1;
  pattern = [];
  remote_addr = codes "10.0.0.1:5000";
  header = [];
  content_length = pos 0;
  body_limits = [];
  context = with_request_id (codes "r-1") background;
}
