-- ===== src/Proxy/Answer/Tests.antt =====
-- A request with its model in the body, from the bytes of the connection to the events.
use maestro_llamacpp.Common.{ℕ, true, false, Option, none, some, List, [], ◌∷◌}
use maestro_llamacpp.Common.Text.{Text, codes}
use maestro_llamacpp.Catalog.{Catalog, Entry, on_demand}
use maestro_llamacpp.Proxy.Endpoint.{generic}
use maestro_llamacpp.Proxy.Head.{Head, given}
use maestro_llamacpp.Proxy.Head.Read.{closed, Connection}
use maestro_llamacpp.Proxy.Body.{Json, json}
use maestro_llamacpp.Proxy.Answer.{Sockets, Had, had, answer_head}
use maestro_llamacpp.Proxy.Answer.Asking.{AsksFor, answer_head-AsksFor}
use maestro_llamacpp.Proxy.Relay.{ends, gives}

abbrev a_model : Entry
a_model = record {
  id = codes "m";
  path = record { text = codes "m.gguf" };
  draft_path = none;
  projector_path = none;
  context_size = 4096;
  residency = on_demand;
  memory_estimate_mib = 1000;
  reasoning_format = none;
  reasoning_effort = none;
  startup_timeout_seconds = 60;
  runtime = none;
  flags = [];
}

abbrev a_catalog : Catalog
a_catalog = record { version = 1; entries = a_model ∷ []; derived = []; discovered = [] }

-- A parser for which every body names the model.
abbrev names_m : List ℕ → Json
names_m bytes = json (some (codes "m"))

abbrev first_child : Entry → Had
first_child e = had 0

-- A child that answers in two pieces, to a caller that goes away after the first.
abbrev two_pieces : Sockets
two_pieces = record {
  cloned = true;
  takes_interim = true;
  upstream = λ child. record {
    endpoint = codes "127.0.0.1:9";
    connects = true;
    takes = true;
    response = gives (codes "HTTP/1.1 200 OK") true ∷ gives (codes "{}") false ∷ ends ∷ [];
  };
}

abbrev posts : Head
posts = record {
  method = codes "POST";
  endpoint = generic (codes "/v1/chat/completions");
  headers = [];
  length = given 2;
  chunked = false;
  expects_continue = true;
}

answer_head-AsksFor_example :
    AsksFor a_catalog names_m first_child two_pieces posts closed
      (codes "{}")
      (answer_head a_catalog names_m first_child two_pieces posts closed (codes "{}"))
answer_head-AsksFor_example =
    answer_head-AsksFor a_catalog names_m first_child two_pieces posts closed (codes "{}")

abbrev posted : Connection
posted = record {
  bytes = codes "POST /v1/chat HTTP/1.1\r\nContent-Length: 2\r\n\r\n{}";
  ending = closed;
}

abbrev as_text : List ℕ → Option Text
as_text bytes = some bytes
